-- ===== src/SimpleServer/Protocol.antt =====
-- What the server of SimpleServer.cpp answers.
use network_study.Prelude.{ℕ, ◌^◌, ◌<◌, ◌≡◌, refl, ◌∙◌, List, map, some}
use network_study.Message.{Message, new_message}
use network_study.Message.RoundTrip.{push_lem}
use network_study.Server.{Server, message_all_clients}
use network_study.Server.Broadcast.{survivors, sent_to, broadcast}
use network_study.Bytes.{uint32_bytes, uint32_of, uint32_of-bytes}
use network_study.SimpleServer.{
  CustomMsgTypes, message_all, server_message, on_client_disconnect, on_message,
}

-- The message that tells the others of client `id`.
abbrev pub hello_from : ℕ → Message CustomMsgTypes
hello_from id = record { header = record { id = server_message; size = 4 }; body = uint32_bytes id }

pub on_message_all :
    (p : ℕ) (msg : Message CustomMsgTypes) (s : Server CustomMsgTypes)
    → msg.header.id ≡ message_all
    → on_message (some p) msg s
      ≡ message_all_clients on_client_disconnect (hello_from (s.heap p).id) (some p) s
unfolding on_message
on_message_all p msg s e =
    rw (e, on_message, push_lem (new_message server_message) (uint32_bytes (s.heap p).id))

-- On `MessageAll` every other client whose socket is open is sent one `ServerMessage` for each of its
-- entries, with the sender's id in its body, from which a client reads that id again; the sender gets
-- nothing, and the clients whose socket is closed leave the list. The list holds no nullptr, and the
-- sender's id fits in 32 bits.
pub message_all_greets :
    (p : ℕ) (msg : Message CustomMsgTypes) (s : Server CustomMsgTypes) (ps : List ℕ)
    → msg.header.id ≡ message_all
    → s.connections ≡ map some ps
    → (s.heap p).id < 2 ^ 32
    → let is_open = λ (q : ℕ). (s.heap q).is_open in
      let hello = hello_from (s.heap p).id in
      (s' : Server CustomMsgTypes) × (on_message (some p) msg s ≡ some s')
      × (s'.connections ≡ map some (survivors is_open ps))
      × ((q : ℕ) → s'.heap q ≡ sent_to is_open (some p) hello ps s.heap q)
      × (uint32_of hello.body ≡ (s.heap p).id)
message_all_greets p msg s ps e l h =
    let hello = hello_from (s.heap p).id in
    let (s', sent, list, heap) =
      broadcast on_client_disconnect hello (some p) s ps
        (λ q t. unfold on_client_disconnect in refl) l in
    (s', on_message_all p msg s e ∙ sent, list, heap, uint32_of-bytes (s.heap p).id h)
