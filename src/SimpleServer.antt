-- ===== src/SimpleServer.antt =====
-- boost_asio_olc/NetServer/SimpleServer.cpp: the messages of the chat protocol, and the server.
pub mod Protocol
pub mod Codec
pub mod System
pub mod Safety
pub mod Answering
pub mod Running
pub mod Dropping
use network_study.Prelude.{
  ℕ, zero, suc, ◌+◌, ◌*◌, ◌/◌, ◌%◌, Bool, true, false, List, [], ◌∷◌, Option, none, some, ◌>>=◌,
}
use network_study.Bytes.{uint32_bytes}
use network_study.Message.{Message, new_message, push}
use network_study.Connection.{get_id}
use network_study.Server.{Server, Callbacks, send_to, message_all_clients}

pub data CustomMsgTypes : Type 0 where
  server_accept server_deny server_ping message_all server_message : CustomMsgTypes

unfoldable pub on_client_connect :
    Option ℕ → Server CustomMsgTypes → Option (Bool × Server CustomMsgTypes)
unfolding send_to
on_client_connect client s = send_to client (new_message server_accept) s >>= λ s'. some (true, s')

-- Only a line on the console, for which it reads the id.
unfoldable pub on_client_disconnect :
    Option ℕ → Server CustomMsgTypes → Option (Server CustomMsgTypes)
on_client_disconnect none s = none
on_client_disconnect (some p) s = some s

-- The case of `MessageAll`.
unfoldable pub greet_all : ℕ → Server CustomMsgTypes → Option (Server CustomMsgTypes)
unfolding get_id push
greet_all p s = do
  msg ← push (new_message server_message) (uint32_bytes (get_id (s.heap p)))
  message_all_clients on_client_disconnect msg (some p) s

-- `client->GetID()` is read in both cases that are handled.
unfoldable pub on_message :
    Option ℕ → Message CustomMsgTypes → Server CustomMsgTypes → Option (Server CustomMsgTypes)
unfolding greet_all send_to
on_message client msg s = elim msg.header.id [
  | server_ping ↦ send_to client msg s
  | message_all ↦ elim client [ none ↦ none | some p ↦ greet_all p s ]
  | _ ↦ some s
]

abbrev pub custom_server : Callbacks CustomMsgTypes
custom_server = record {
  on_client_connect = on_client_connect;
  on_client_disconnect = on_client_disconnect;
  on_message = on_message;
}
