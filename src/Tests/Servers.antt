-- ===== src/Tests/Servers.antt =====
-- A server with two clients whose sockets are open, and one whose socket is closed.
use network_study.Prelude.{
  ℕ, ◌+◌, ◌≡◌, refl, Bool, true, false, List, [], ◌∷◌, map, none, some, arith, not, ◌==◌,
}
use network_study.Bytes.{uint32_of}
use network_study.Message.{Message, new_message}
use network_study.Connection.{server, Connection, new_connection, post_send, send, reading_header}
use network_study.Server.{
  Server, Callbacks, base_callbacks, update, on_accept, make_connection, message_client,
  message_all_clients,
}
use network_study.Server.Broadcast.{survivors, sent_to, broadcast}
use network_study.Server.Clients.{Keeps, Inv}
use network_study.Server.Accept.{accept_approved}
use network_study.Server.Unicast.{message_client_lem}
use network_study.SimpleServer.{
  CustomMsgTypes, server_accept, server_ping, message_all, on_client_disconnect, on_message,
}
use network_study.TsQueue.{empty}
use network_study.SimpleServer.Codec.{codec}
use network_study.SimpleServer.System.{turn, posted, is_owned, one_move}
use network_study.SimpleServer.Dropping.{dropped_in_use}
use network_study.SimpleServer.Protocol.{message_all_greets, hello_from}

abbrev client_at : ℕ → Connection CustomMsgTypes
client_at p = record (new_connection server p (not (p == 2)) [] server_accept) { id = 10000 + p }

abbrev crowd : Server CustomMsgTypes
crowd = record {
  messages_in = record { remote = some 0; msg = new_message server_ping } ∷ [];
  connections = some 0 ∷ some 1 ∷ some 2 ∷ [];
  heap = client_at;
  next_place = 3;
  id_counter = 10003;
  accepting = 1;
}

abbrev places : List ℕ
places = 0 ∷ 1 ∷ 2 ∷ []

abbrev ping : Message CustomMsgTypes
ping = new_message server_ping

abbrev all : Message CustomMsgTypes
all = new_message message_all

crowd-Inv : Inv crowd places
unfolding new_connection
crowd-Inv = record {
  listed = refl;
  made = omega arith;
  below = omega arith;
  distinct = omega arith;
}

abbrev is_open : ℕ → Bool
is_open q = (client_at q).is_open

broadcast_example :
    (s' : Server CustomMsgTypes) × (message_all_clients on_client_disconnect ping (some 0) crowd
      ≡ some s')
    × (s'.connections ≡ map some (survivors is_open places))
    × ((q : ℕ) → s'.heap q ≡ sent_to is_open (some 0) ping places client_at q)
broadcast_example =
    broadcast on_client_disconnect ping (some 0) crowd places
      (λ p s. unfold on_client_disconnect in refl) refl

message_all_greets_example :
    let hello = hello_from (client_at 0).id in
    (s' : Server CustomMsgTypes) × (on_message (some 0) all crowd ≡ some s')
    × (s'.connections ≡ map some (survivors is_open places))
    × ((q : ℕ) → s'.heap q ≡ sent_to is_open (some 0) hello places client_at q)
    × (uint32_of hello.body ≡ (client_at 0).id)
message_all_greets_example = message_all_greets 0 all crowd places refl refl (omega arith)

-- For each of the clients a message waits to be sent, and the first client has sent a message to all.
abbrev waiting_crowd : Server CustomMsgTypes
waiting_crowd = record crowd {
  messages_in = record { remote = some 0; msg = all } ∷ [];
  heap = λ q. record (client_at q) { posts = post_send ping ∷ [] };
}

dropped_in_use_example :
    (is_owned 2 waiting_crowd ≡ true)
    × (t : Server CustomMsgTypes) × (one_move codec server_accept turn waiting_crowd ≡ some t)
    × (one_move codec server_accept (posted 2) t ≡ none)
unfolding new_connection empty
dropped_in_use_example =
    dropped_in_use codec server_accept 0 2 (posted 2) all [] waiting_crowd places refl refl refl
      (omega arith) refl refl refl refl refl

message_client_lem_example :
    ((client_at 2).is_open ≡ true
      → message_client on_client_disconnect (some 2) ping crowd
        ≡ some (record crowd { heap = update crowd.heap 2 (send ping (crowd.heap 2)) }))
    × ((client_at 2).is_open ≡ false
        → message_client on_client_disconnect (some 2) ping crowd ≡ some crowd)
message_client_lem_example =
    message_client_lem on_client_disconnect 2 ping crowd places
      (λ p s. unfold on_client_disconnect in refl) refl

-- The server after a subclass has let the client in that was just made.
abbrev joined : Server CustomMsgTypes
joined = make_connection server_accept crowd

same : Keeps joined joined
same = record {
  same_list = refl;
  same_counter = refl;
  same_place = refl;
  same_id = λ q. refl;
  same_open = λ q. refl;
  same_owner = λ q. refl;
  same_reads = λ q. refl;
}

-- A subclass that lets everybody in and says nothing.
abbrev open_door : Callbacks CustomMsgTypes
open_door = record base_callbacks { on_client_connect = λ client s. some (true, s) }

accept_approved_example :
    (s' : Server CustomMsgTypes) × (on_accept open_door server_accept false crowd ≡ some s')
    × Inv s' (0 ∷ 1 ∷ 2 ∷ 3 ∷ [])
    × ((s'.heap 3).id ≡ 10003)
    × ((s'.heap 3).reads ≡ reading_header ∷ [])
    × (s'.accepting ≡ 2)
unfolding make_connection
accept_approved_example =
    accept_approved open_door server_accept crowd joined places crowd-Inv (omega arith) refl same
