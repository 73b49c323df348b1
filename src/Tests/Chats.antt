-- ===== src/Tests/Chats.antt =====
-- A chat client that is greeted, and that leaves.
use network_study.Prelude.{ℕ, ◌≡◌, inr, refl, true, false, List, [], ◌∷◌, none, some, arith}
use network_study.Connection.{client, Connection, new_connection}
use network_study.SimpleServer.{CustomMsgTypes, server_accept}
use network_study.SimpleServer.Protocol.{hello_from}
use network_study.Message.{new_message}
use network_study.Message.RoundTrip.{pull_lem}
use network_study.Bytes.{uint32_bytes, uint32_of-bytes}
use network_study.Client.{Client, Keys, Round, accepted, hello, print_message, main_loop}
use network_study.Client.Printing.{Lines, main_prints}
use network_study.Client.Leaving.{main_ends}
use network_study.Client.Chat.{linked}

abbrev peer : Connection CustomMsgTypes
unfolding new_connection
peer = new_connection client 0 true [] server_accept

abbrev clock : List ℕ
clock = 1 ∷ 2 ∷ 3 ∷ 4 ∷ 5 ∷ 6 ∷ 7 ∷ 8 ∷ []

-- Rounds in which the client is greeted by the server and by another client. Key 1 goes down in the
-- first; key 3 is down in the second, while another window is in front.
abbrev no_keys : Keys
no_keys = record { key_1 = false; key_2 = false; key_3 = false }

abbrev first_round : Round
first_round = record {
  focused = true;
  down = record { key_1 = true; key_2 = false; key_3 = false };
  now = clock;
  read_at = clock;
  came =
      record { remote = none; msg = new_message server_accept }
      ∷ record { remote = none; msg = hello_from 10001 }
      ∷ [];
  closes = false;
}

abbrev second_round : Round
second_round = record {
  focused = false;
  down = record { key_1 = false; key_2 = false; key_3 = true };
  now = clock;
  read_at = clock;
  came = [];
  closes = false;
}

abbrev quitting : Round
quitting = record second_round { focused = true }

-- What the two greetings are printed as.
abbrev greetings : Lines
greetings now m = elim m.msg.header.id [ server_accept ↦ accepted ∷ [] | _ ↦ hello 10001 ∷ [] ]

accept_prints :
    (now : List ℕ) → print_message now (new_message server_accept) ≡ some (accepted ∷ [])
unfolding print_message
accept_prints now = refl

hello_prints : (now : List ℕ) → print_message now (hello_from 10001) ≡ some (hello 10001 ∷ [])
unfolding print_message
hello_prints now =
    rw
      (
        print_message,
        pull_lem (hello_from 10001) [] (uint32_bytes 10001) (omega arith),
        uint32_of-bytes 10001 (omega arith),
      )
      refl

-- The first greeting is printed in the first round and the other in the second.
main_prints_example :
    (y : Connection CustomMsgTypes) × (main_loop
        (first_round ∷ second_round ∷ [])
        no_keys
        (linked peer)
      ≡ some (false, accepted ∷ hello 10001 ∷ [], linked y))
    × (y.is_open ≡ true)
    × (y.recv_deq ≡ [])
unfolding new_connection
main_prints_example =
    main_prints greetings (first_round ∷ second_round ∷ []) no_keys peer
      (accept_prints, (hello_prints, tt)) refl (refl, refl, (refl, refl, tt))

main_ends_example :
    (y : Connection CustomMsgTypes) × (d : Client CustomMsgTypes) × (main_loop
        (first_round ∷ second_round ∷ [])
        no_keys
        (linked peer)
      ≡ some (false, accepted ∷ hello 10001 ∷ [], linked y))
    × (main_loop (first_round ∷ second_round ∷ quitting ∷ first_round ∷ []) no_keys (linked peer)
        ≡ some (true, accepted ∷ hello 10001 ∷ [], d))
unfolding new_connection
main_ends_example =
    main_ends greetings (first_round ∷ second_round ∷ []) quitting (first_round ∷ []) no_keys peer
      (accept_prints, (hello_prints, tt)) refl (refl, refl, (refl, refl, tt)) (inr refl)
