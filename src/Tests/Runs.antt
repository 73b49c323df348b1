-- ===== src/Tests/Runs.antt =====
-- The chat server, with two clients of which one asks for the others and one leaves.
use network_study.Prelude.{ℕ, ◌≡◌, refl, true, false, List, [], ◌∷◌, ◌++◌, ◌⊎◌, none, some, arith}
use network_study.Message.{Message, new_message}
use network_study.Connection.{server, Connection, new_connection}
use network_study.Bytes.{write, resize}
use network_study.Server.{Server, message_all_clients, message_entries, message_entry, erase_all}
use network_study.SimpleServer.{
  CustomMsgTypes, server_accept, message_all, on_client_connect, on_message, on_client_disconnect,
}
use network_study.SimpleServer.Codec.{codec}
use network_study.SimpleServer.System.{Move, turn, accepted, posted, wrote, was_read, server_main}
use network_study.SimpleServer.Safety.{Good}
use network_study.SimpleServer.Running.{UsesDestroyed, server_main_lem}

abbrev memory : ℕ → Connection CustomMsgTypes
memory p = new_connection server p false [] server_accept

abbrev asking : Message CustomMsgTypes
asking = new_message message_all

abbrev evening : List Move
evening =
    accepted false
    ∷ posted 0
    ∷ accepted false
    ∷ wrote 0 false
    ∷ was_read 1 true asking
    ∷ was_read 0 false asking
    ∷ turn
    ∷ posted 1
    ∷ wrote 1 true
    ∷ accepted true
    ∷ turn
    ∷ []

server_main_lem_example :
    ((t : Server CustomMsgTypes) × (ps : List ℕ) × (server_main codec server_accept false false
          memory evening
        ≡ some t)
      × Good t ps
      × (t.accepting ≡ 1))
    ⊎ ((before after : List Move) × (m : Move) × (t : Server CustomMsgTypes) × (ps : List ℕ)
        × (evening ≡ before ++ (m ∷ after))
        × (server_main codec server_accept false false memory before ≡ some t)
        × Good t ps
        × UsesDestroyed codec server_accept m t
        × (server_main codec server_accept false false memory evening ≡ none))
server_main_lem_example =
    server_main_lem codec server_accept false false memory evening (omega arith)

-- The client that leaves is destroyed at the first turn, and its posted handler runs after that.
evening_breaks : server_main codec server_accept false false memory evening ≡ none
unfolding server_main on_client_connect on_message write resize message_all_clients message_entries
    message_entry on_client_disconnect erase_all
evening_breaks = refl
