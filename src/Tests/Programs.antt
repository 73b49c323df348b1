-- ===== src/Tests/Programs.antt =====
-- The configuration, and the client that sends the time.
use network_study.Prelude.{
  ◌≡◌, refl, true, false, List, [], ◌∷◌, none, some, arith, codes, replicate,
}
use network_study.Prelude.Int.{pos, negsuc}
use network_study.MemDb.{Str, same_str, MemDb, set_value}
use network_study.Config.{console, opened, load_config, TcpSocket, init_tcp}
use network_study.Config.Console.{console_lem}
use network_study.SimpleSocket.{done, running}
use network_study.Config.Address.{configured_address}
use network_study.Select.{go}
use network_study.ClientMain.{Event, Round, run}
use network_study.ClientMain.Rounds.{sends, time_packet, each_round_sends}

abbrev no_values : MemDb
no_values = record { key_value = [] }

abbrev no_address : TcpSocket
no_address = record { sock = negsuc 0; server_address = none }

-- The line "10", with its end, and an empty value in the store.
configured_address_example :
    let stored = set_value (codes "serveraddress") [] no_values in
    (address : Str) × (load_config (opened (some (49 ∷ 48 ∷ 10 ∷ []))) (codes "before")
      ≡ some address)
    × (init_tcp (pos 3) address stored no_address
        ≡ record { sock = pos 3; server_address = some (49 ∷ 48 ∷ []) })
    × ((init_tcp (negsuc 0) address stored no_address).server_address ≡ none)
configured_address_example =
    configured_address (49 ∷ 48 ∷ []) (10 ∷ []) (codes "before") [] no_values 3 no_address
      (
        (λ e. omega arith, λ e. omega arith, λ e. omega arith),
        ((λ e. omega arith, λ e. omega arith, λ e. omega arith), tt),
      )
      refl (omega arith)

-- The server has left, and the time is sent all the same.
abbrev lonely : Round
lonely = record {
  select_fails = false;
  readable = true;
  received = [];
  time = codes "2021-01-01 00:00:00 ";
  beyond = replicate 11 205;
  send_result = negsuc 0;
}

each_round_sends_example :
    (u : List Event) × (run 32 5 (lonely ∷ lonely ∷ []) [] ≡ go u)
    × (sends u ≡ time_packet 32 lonely ∷ time_packet 32 lonely ∷ [])
each_round_sends_example =
    each_round_sends 32 5 (lonely ∷ lonely ∷ []) [] (omega arith)
      ((refl, omega arith, omega arith), ((refl, omega arith, omega arith), tt))

-- The line "hello", and one that does not fit.
abbrev typed : List Str
typed = codes "hello" ∷ []

console_lem_example :
    (console 2 false (codes "hello" ∷ codes "q" ∷ codes "q" ∷ []) ≡ done 2)
    × (console 1000 false (codes "hello" ∷ codes "hello hello hello" ∷ codes "q" ∷ []) ≡ running)
unfolding same_str
console_lem_example =
    console_lem 2 1000 typed (codes "q" ∷ []) (codes "hello hello hello") ((omega arith, refl), tt)
      (omega arith) (omega arith)
