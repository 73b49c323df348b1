-- ===== src/Client/Pinging.antt =====
-- A ping, from the chat client to the chat server and back (SimpleClient.cpp, SimpleServer.cpp).
use network_study.Prelude.{
  ℕ, suc, ◌-◌, ◌+◌, ◌%◌, ◌^◌, ◌<◌, ◌≤◌, ltb, lt→ltb, ◌≡◌, refl, sym, ap, ◌∙◌, Bool, true, false,
  List, [], ◌∷◌, ◌++◌, Option, some, ◌>>=◌, length, arith,
}
use network_study.Prelude.Int.{pos}
use network_study.Bytes.{uint32_of}
use network_study.Message.{Message, new_message, pull}
use network_study.Message.RoundTrip.{with_body, push_lem, pull_lem}
use network_study.Connection.{OwnedMessage, Connection, post_send, is_connected, send}
use network_study.Server.{Server, update, send_to, on_object, update_loop}
use network_study.Server.Dispatch.{update_loop_cons}
use network_study.SimpleServer.{CustomMsgTypes, server_ping, on_message, custom_server}
use network_study.Client.{
  Client, Line, pinged, ping_server, print_message, send_to_server, is_connected_to_server,
  handle_first, rest_of, read_incoming, elapsed,
}
use network_study.Client.Chat.{linked}

-- The message of a ping at the time `now`.
abbrev pub ping_at : List ℕ → Message CustomMsgTypes
ping_at now = with_body (new_message server_ping) now

-- A clock of eight bytes, and one that shows no earlier time. They count from 1970.
abbrev pub Clocks : List ℕ → List ℕ → Type 0
Clocks now later = (length now ≡ 8) × (uint32_of now ≤ uint32_of later) × (uint32_of later < 2 ^ 63)

abbrev pub between : List ℕ → List ℕ → ℕ
between now later = uint32_of later - uint32_of now

elapsed_lem : (now later : List ℕ) → Clocks now later → elapsed later now ≡ pos (between now later)
elapsed_lem now later (e, order, small) =
    let a = uint32_of later in
    let b = uint32_of now in
    let d : (a + (2 ^ 64 - b)) % 2 ^ 64 ≡ a - b = omega arith in
    let fits : ltb (a - b) (2 ^ 63) ≡ true = lt→ltb (a - b) (2 ^ 63) (omega arith) in
    rw (d, fits) refl

print_ping :
    (now later : List ℕ)
    → Clocks now later
    → print_message later (ping_at now) ≡ some (pinged (pos (between now later)) ∷ [])
unfolding print_message
print_ping now later clocks =
    let (e, order, small) = clocks in
    let empty : Message CustomMsgTypes = new_message server_ping in
    let read_now : pull 8 (ping_at now) ≡ some (now, with_body empty []) =
      ap (λ n. pull n (ping_at now)) (sym e) ∙ pull_lem empty [] now (omega arith) in
    rw read_now (ap (λ t. some (pinged t ∷ [])) (elapsed_lem now later clocks))

pub post_ping :
    (now : List ℕ) (x : Connection CustomMsgTypes)
    → x.is_open ≡ true
    → ping_server now (linked x)
      ≡ some (linked (record x { posts = x.posts ++ (post_send (ping_at now) ∷ []) }))
unfolding ping_server send_to_server is_connected send
post_ping now x up = rw (ping_server, push_lem (new_message server_ping) now, up) refl

-- The answer of the server.
pub answer :
    (n p : ℕ) (now : List ℕ) (s : Server CustomMsgTypes) (rest : List (OwnedMessage CustomMsgTypes))
    → s.messages_in ≡ record { remote = some p; msg = ping_at now } ∷ rest
    → update_loop custom_server (suc n) s
      ≡ update_loop custom_server n
          (record s { messages_in = rest; heap = update s.heap p (send (ping_at now) (s.heap p)) })
unfolding on_message send_to on_object
answer n p now s rest first =
    update_loop_cons custom_server n s (record { remote = some p; msg = ping_at now }) rest first

-- What the client reads.
pub read_ping :
    (now read_at : List ℕ) (y : Connection CustomMsgTypes) (from : Option ℕ)
    → (later : List (OwnedMessage CustomMsgTypes)) → Clocks now read_at
    → y.is_open ≡ true
    → y.recv_deq ≡ record { remote = from; msg = ping_at now } ∷ later
    → read_incoming read_at (linked y)
      ≡ some
          (false, pinged (pos (between now read_at)) ∷ [], linked (record y { recv_deq = later }))
unfolding read_incoming handle_first is_connected_to_server is_connected rest_of
read_ping now read_at y from later clocks up first =
    let result : List (OwnedMessage CustomMsgTypes)
        → Option (Bool × List Line × Client CustomMsgTypes) =
      λ ms. handle_first read_at ms (linked y) >>= λ r. some (false, r.0, r.1) in
    let starts : read_incoming read_at (linked y) ≡ result y.recv_deq =
      rw (read_incoming, up) refl in
    starts ∙ ap result first ∙ rw (handle_first, print_ping now read_at clocks) refl
