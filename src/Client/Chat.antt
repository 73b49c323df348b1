-- ===== src/Client/Chat.antt =====
-- What the chat client prints, and what it sends (boost_asio_olc/NetClient/SimpleClient.cpp).
use network_study.Prelude.{
  ℕ, ◌^◌, ◌<◌, ◌≡◌, refl, ap, ◌∙◌, Bool, true, false, not, ◌&&◌, List, [], ◌∷◌, Option, none, some,
  ◌>>=◌, arith,
}
use network_study.Bytes.{uint32_bytes, uint32_of-bytes}
use network_study.Message.{pull}
use network_study.Message.RoundTrip.{with_body, pull_lem}
use network_study.Connection.{OwnedMessage, Connection, is_connected}
use network_study.SimpleServer.{CustomMsgTypes}
use network_study.SimpleServer.Protocol.{hello_from}
use network_study.Client.{
  Client, is_connected_to_server, rest_of, Line, hello, print_message, handle_first, read_incoming,
  Keys, main_round,
}

-- The client with a connection whose socket is open.
abbrev pub linked : Connection CustomMsgTypes → Client CustomMsgTypes
linked x = record { connection = some x; recv_deq = [] }

triple {ℓ κ μ} :
    {A : Type ℓ} {B : Type κ} {C : Type μ} (o : Option (A × B × C))
    → (o >>= λ r. some (r.0, r.1, r.2)) ≡ o
triple none = refl
triple (some r) = refl

-- A key that is held down is not seen again: the round only reads what has come.
main_round_held :
    (key : Keys) (now read_at : List ℕ) (c : Client CustomMsgTypes)
    → main_round key key now read_at c ≡ read_incoming read_at c
unfolding main_round
main_round_held key now read_at c =
    let off : (b : Bool) → (b && not b) ≡ false =
      λ b. elim b as (λ v. (v && not v) ≡ false) [ true ↦ refl | false ↦ refl ] in
    rw (main_round, off key.key_1, off key.key_2, off key.key_3) (triple (read_incoming read_at c))

-- What the server sends of a client under `MessageAll` is printed as that client's number, if it is
-- the first message of a client whose socket is open and the number fits in 32 bits; the message
-- leaves the queue and the rest stay.
pub read_incoming-hello_from :
    (id : ℕ) (read_at : List ℕ) (x : Connection CustomMsgTypes) (from : Option ℕ)
    (rest : List (OwnedMessage CustomMsgTypes))
    → id < 2 ^ 32
    → x.is_open ≡ true
    → x.recv_deq ≡ record { remote = from; msg = hello_from id } ∷ rest
    → read_incoming read_at (linked x)
      ≡ some (false, hello id ∷ [], linked (record x { recv_deq = rest }))
unfolding read_incoming handle_first is_connected_to_server is_connected print_message rest_of
read_incoming-hello_from id read_at x from rest small up first =
    let read_id : pull 4 (hello_from id) ≡ some (uint32_bytes id, with_body (hello_from id) []) =
      pull_lem (hello_from id) [] (uint32_bytes id) (omega arith) in
    let next : OwnedMessage CustomMsgTypes = record { remote = from; msg = hello_from id } in
    let result : List (OwnedMessage CustomMsgTypes)
        → Option (Bool × List Line × Client CustomMsgTypes) =
      λ ms. handle_first read_at ms (linked x) >>= λ r. some (false, r.0, r.1) in
    let starts : read_incoming read_at (linked x) ≡ result x.recv_deq =
      rw (read_incoming, up) refl in
    starts ∙ ap result first ∙ rw (read_id, uint32_of-bytes id small) refl
