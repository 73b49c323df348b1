-- ===== src/Network/Idle.antt =====
-- A network in the build with SERVER defined (Network.cpp, predef.h).
use network_study.Prelude.{ℕ, ◌≡◌, refl, Bool, false, List, [], ◌∷◌, Option, none, some, map}
use network_study.Prelude.Int.{ℤ}
use network_study.SimpleSocket.{SimpleSocket, Outcome, done, fault, running}
use network_study.SimpleSocket.Server.{Calls, construct, init_server}
use network_study.Network.{
  Command, Network, new_network, init_network, connect_network, update_network, read_packet,
  write_packet,
}

-- The methods that look at whether the network is enabled, or change it, between `Init` and `UnInit`.
pub data Call : Type 0 where
  connects : Call
  updates : (fuel : ℕ) (calls : Calls) → Call
  reads : Call
  writes : (packet : ℕ) (payload : List ℕ) (data_size : ℤ) → Call

abbrev pub of_result : Option (Bool × Network) → Outcome (List Bool × Network)
of_result none = fault
of_result (some (b, net)) = done (b ∷ [], net)

-- One call, with what it returns, if anything.
abbrev pub one_call : Call → Network → Outcome (List Bool × Network)
one_call connects net = of_result (connect_network net)
one_call (updates fuel calls) net = elim (update_network fuel calls net) [
  | done t ↦ done ([], t)
  | fault ↦ fault
  | running ↦ running
]
one_call reads net = of_result (read_packet net)
one_call (writes packet payload data_size) net =
    of_result (write_packet packet payload data_size net)

-- All calls, each from the state that the one before leaves.
abbrev pub all_calls : List Call → Network → Outcome (List (List Bool) × Network)
all_calls [] net = done ([], net)
all_calls (c ∷ cs) net = elim (one_call c net) [
  | fault ↦ fault
  | running ↦ running
  | done (results, t) ↦ elim (all_calls cs t) [
    | fault ↦ fault
    | running ↦ running
    | done (rest, u) ↦ done (results ∷ rest, u)
  ]
]

-- What a call returns that does nothing.
abbrev pub refused : Call → List Bool
refused connects = false ∷ []
refused (updates fuel calls) = []
refused reads = false ∷ []
refused (writes packet payload data_size) = false ∷ []

one_call-refused :
    (c : Call) (commander : Option (List Command)) (s : SimpleSocket)
    → let net : Network = record { enable = false; commander = commander; socket = some s } in
      one_call c net ≡ done (refused c, net)
unfolding connect_network update_network read_packet write_packet
one_call-refused connects commander s = refl
one_call-refused (updates fuel calls) commander s = refl
one_call-refused reads commander s = refl
one_call-refused (writes packet payload data_size) commander s = refl

all_calls-refused :
    (cs : List Call) (commander : Option (List Command)) (s : SimpleSocket)
    → let net : Network = record { enable = false; commander = commander; socket = some s } in
      all_calls cs net ≡ done (map refused cs, net)
all_calls-refused [] commander s = refl
all_calls-refused (c ∷ cs) commander s =
    rw (all_calls, one_call-refused c commander s, all_calls-refused cs commander s) refl

-- In this build a network is never enabled. After `Init`, whether or not the socket could be made,
-- however often and in whatever order `Connect`, `Update`, `Read` and `Write` are called: `Connect`,
-- `Read` and `Write` return false, `Update` does nothing, and the network stays as `Init` has left it.
pub never_enabled :
    (startup_fails : Bool) (sock : ℕ) (bind_fails : Bool) (memory : SimpleSocket) (cs : List Call)
    → let net = init_network startup_fails sock bind_fails memory new_network in
      all_calls cs net ≡ done (map refused cs, net)
unfolding init_network
never_enabled startup_fails sock bind_fails memory cs =
    all_calls-refused cs (some []) (init_server sock bind_fails (construct startup_fails memory)).1
