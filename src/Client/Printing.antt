-- ===== src/Client/Printing.antt =====
-- What the loop of the chat client prints (SimpleClient.cpp).
use network_study.Prelude.{
  ℕ, ◌≡◌, refl, sym, ap, ◌∙◌, Bool, true, false, not, ◌&&◌, List, [], ◌∷◌, ◌++◌, Option, some,
  ◌>>=◌, if◌then◌else◌, append_assoc, All, All-append, All-split, subst, Bool-cases, inl, inr,
}
use network_study.Message.{new_message}
use network_study.Message.RoundTrip.{with_body, push_lem}
use network_study.Connection.{OwnedMessage, Connection, Post, post_send, is_connected, send}
use network_study.SimpleServer.{CustomMsgTypes, server_ping, message_all}
use network_study.Client.{
  Client, Line, Keys, Round, ping_server, client_message_all, send_to_server, print_message,
  is_connected_to_server, handle_first, rest_of, read_incoming, main_round, meanwhile, main_loop,
}
use network_study.Client.Chat.{linked}

-- The lines of a message, by the clock when it is read.
abbrev pub Lines : Type 0
Lines = List ℕ → OwnedMessage CustomMsgTypes → List Line

abbrev pub first_lines : Lines → List ℕ → List (OwnedMessage CustomMsgTypes) → List Line
first_lines lines clock [] = []
first_lines lines clock (m ∷ ms) = lines clock m

abbrev pub later_ones : List (OwnedMessage CustomMsgTypes) → List (OwnedMessage CustomMsgTypes)
later_ones [] = []
later_ones (m ∷ ms) = ms

-- What some rounds should print, and leave: each takes the oldest message there is, if there is one.
abbrev pub said : Lines → List Round → List (OwnedMessage CustomMsgTypes) → List Line
said lines [] ms = []
said lines (r ∷ rounds) ms =
    let here = ms ++ r.came in
    first_lines lines r.read_at here ++ said lines rounds (later_ones here)

abbrev pub left :
    List Round → List (OwnedMessage CustomMsgTypes) → List (OwnedMessage CustomMsgTypes)
left [] ms = ms
left (r ∷ rounds) ms = left rounds (later_ones (ms ++ r.came))

-- A message holds what it is printed from.
abbrev pub IsPrinted : Lines → OwnedMessage CustomMsgTypes → Type 0
IsPrinted lines m = (clock : List ℕ) → print_message clock m.msg ≡ some (lines clock m)

pub All-later :
    (P : OwnedMessage CustomMsgTypes → Type 0) (ms : List (OwnedMessage CustomMsgTypes))
    → All P ms
    → All P (later_ones ms)
All-later P [] all = tt
All-later P (m ∷ ms) (first, others) = others

-- All messages that come in some rounds.
abbrev pub arrivals : List Round → List (OwnedMessage CustomMsgTypes)
arrivals [] = []
arrivals (r ∷ rounds) = r.came ++ arrivals rounds

-- The connection with other things to do.
abbrev pub with_posts :
    List (Post CustomMsgTypes) → Connection CustomMsgTypes → Connection CustomMsgTypes
with_posts ps x = record x { posts = ps }

-- A request changes nothing but the posts: it adds one, or none if the socket is closed.
pub pinging :
    (press : Bool) (now : List ℕ) (x : Connection CustomMsgTypes)
    → (ps : List (Post CustomMsgTypes)) × ((if press
          then ping_server now (linked x)
          else some (linked x))
        ≡ some (linked (with_posts ps x)))
unfolding ping_server send_to_server is_connected send
pinging false now x = (x.posts, refl)
pinging true now x =
    let ping = with_body (new_message server_ping) now in
    let pushed = push_lem (new_message server_ping) now in
    elim (Bool-cases x.is_open) [
      | inl up ↦ (x.posts ++ (post_send ping ∷ []), rw (ping_server, pushed, up) refl)
      | inr down ↦ (x.posts, rw (ping_server, pushed, down) refl)
    ]

pub asking :
    (press : Bool) (x : Connection CustomMsgTypes)
    → (ps : List (Post CustomMsgTypes)) × ((if press
          then client_message_all (linked x)
          else linked x)
        ≡ linked (with_posts ps x))
unfolding client_message_all send_to_server is_connected send
asking false x = (x.posts, refl)
asking true x = elim (Bool-cases x.is_open) [
  | inl up ↦
      (x.posts ++ (post_send (new_message message_all) ∷ []), rw (client_message_all, up) refl)
  | inr down ↦ (x.posts, rw (client_message_all, down) refl)
]

-- The end of a round, by the queue of a client whose socket is open.
abbrev then_read :
    List ℕ
    → Connection CustomMsgTypes
    → List (OwnedMessage CustomMsgTypes)
    → Option (Bool × List Line × Client CustomMsgTypes)
unfolding handle_first
then_read clock x ms = handle_first clock ms (linked x) >>= λ r. some (false, r.0, r.1)

reads_queue :
    (clock : List ℕ) (x : Connection CustomMsgTypes)
    → x.is_open ≡ true
    → read_incoming clock (linked x) ≡ then_read clock x x.recv_deq
unfolding read_incoming is_connected_to_server is_connected
reads_queue clock x up = rw (read_incoming, up) refl

-- What the end of a round prints, and what it leaves in the queue.
pub reading :
    (lines : Lines) (clock : List ℕ) (ms : List (OwnedMessage CustomMsgTypes))
    → (x : Connection CustomMsgTypes) → All (IsPrinted lines) ms
    → x.is_open ≡ true
    → x.recv_deq ≡ ms
    → read_incoming clock (linked x)
      ≡ some (false, first_lines lines clock ms, linked (record x { recv_deq = later_ones ms }))
unfolding read_incoming handle_first is_connected_to_server is_connected rest_of
reading lines clock [] x prints up queue =
    let same : some (false, [], linked x) ≡ some (false, [], linked (record x { recv_deq = [] })) =
      ap (λ q. some (false, [], linked (record x { recv_deq = q }))) queue in
    reads_queue clock x up ∙ ap (then_read clock x) queue ∙ same
reading lines clock (m ∷ ms) x (first, others) up queue =
    reads_queue clock x up ∙ ap (then_read clock x) queue ∙ rw (handle_first, first clock) refl

-- A round in which key 3 does not go down and the socket stays open.
pub round_prints :
    (lines : Lines) (key old_key : Keys) (clock read_at : List ℕ)
    → (x : Connection CustomMsgTypes) → All (IsPrinted lines) x.recv_deq
    → x.is_open ≡ true
    → (key.key_3 && not old_key.key_3) ≡ false
    → (y : Connection CustomMsgTypes) × (main_round key old_key clock read_at (linked x)
        ≡ some (false, first_lines lines read_at x.recv_deq, linked y))
      × (y.is_open ≡ true)
      × (y.recv_deq ≡ later_ones x.recv_deq)
unfolding main_round
round_prints lines key old_key clock read_at x prints up stays =
    let (ps, pings) = pinging (key.key_1 && not old_key.key_1) clock x in
    let (qs, asks) = asking (key.key_2 && not old_key.key_2) (with_posts ps x) in
    let reads = reading lines read_at x.recv_deq (with_posts qs x) prints up refl in
    (
      record (with_posts qs x) { recv_deq = later_ones x.recv_deq },
      rw (main_round, pings, asks, reads, stays) refl,
      up,
      refl,
    )

-- In no round does key 3 go down, and the socket is not closed.
abbrev pub IsQuiet : List Round → Keys → Type 0
IsQuiet [] old_key = Unit {0}
IsQuiet (r ∷ rounds) old_key =
    let key = if r.focused then r.down else old_key in
    ((key.key_3 && not old_key.key_3) ≡ false) × (r.closes ≡ false) × IsQuiet rounds key

-- The connection after what has come between two rounds.
abbrev pub with_came : Round → Connection CustomMsgTypes → Connection CustomMsgTypes
with_came r x = record x { recv_deq = x.recv_deq ++ r.came }

pub meanwhile-linked :
    (r : Round) (x : Connection CustomMsgTypes)
    → r.closes ≡ false
    → meanwhile r (linked x) ≡ linked (with_came r x)
unfolding meanwhile
meanwhile-linked r x open_still =
    ap (λ b. linked (record (with_came r x) { is_open = if b then false else x.is_open }))
      open_still

-- A round that does not end the loop.
pub main_loop_cons :
    (r : Round) (rounds : List Round) (old_key : Keys) (c d : Client CustomMsgTypes)
    → (now : List Line)
    → let key = if r.focused then r.down else old_key in
      main_round key old_key r.now r.read_at (meanwhile r c) ≡ some (false, now, d)
      → main_loop (r ∷ rounds) old_key c
        ≡ (main_loop rounds key d >>= λ q. some (q.0, now ++ q.1, q.2))
unfolding main_loop
main_loop_cons r rounds old_key c d now e =
    let key = if r.focused then r.down else old_key in
    ap
      (λ (o : Option (Bool × List Line × Client CustomMsgTypes)). o >>= λ p.
        elim p.0 as (λ b. Option (Bool × List Line × Client CustomMsgTypes)) [
          | true ↦ some p
          | false ↦ main_loop rounds key p.2 >>= λ q. some (q.0, p.1 ++ q.1, q.2)
        ])
      e

-- While the socket stays open and key 3 does not go down, the loop of main goes on. In each round
-- it takes the oldest message there is, if there is one, and prints its lines by the clock of that
-- round; so nothing is lost, printed twice or out of order, whichever keys are pressed and whenever
-- the messages come, and exactly what is not yet taken waits at the end. Each message must hold
-- what it is printed from.
pub main_prints :
    (lines : Lines) (rounds : List Round) (old_key : Keys) (x : Connection CustomMsgTypes)
    → All (IsPrinted lines) (x.recv_deq ++ arrivals rounds)
    → x.is_open ≡ true
    → IsQuiet rounds old_key
    → (y : Connection CustomMsgTypes) × (main_loop rounds old_key (linked x)
        ≡ some (false, said lines rounds x.recv_deq, linked y))
      × (y.is_open ≡ true)
      × (y.recv_deq ≡ left rounds x.recv_deq)
unfolding main_loop
main_prints lines [] old_key x prints up stays = (x, refl, up, refl)
main_prints lines (r ∷ rounds) old_key x prints up (quiet, kept_open, others) =
    let key = if r.focused then r.down else old_key in
    let later = arrivals rounds in
    let split = append_assoc x.recv_deq r.came later in
    let here = x.recv_deq ++ r.came in
    let (near, there) =
      All-split (IsPrinted lines) here later (subst (All (IsPrinted lines)) (sym split) prints) in
    let (y, goes, up', waits) =
      round_prints lines key old_key r.now r.read_at (with_came r x) near up quiet in
    let kept : All (IsPrinted lines) y.recv_deq =
      subst (All (IsPrinted lines)) (sym waits) (All-later (IsPrinted lines) here near) in
    let (z, goes', up'', rest) =
      main_prints lines rounds key y (All-append (IsPrinted lines) y.recv_deq later kept there) up'
        others in
    let first =
      main_loop_cons r rounds old_key (linked x) (linked y) (first_lines lines r.read_at here)
        (ap (main_round key old_key r.now r.read_at) (meanwhile-linked r x kept_open) ∙ goes) in
    (
      z,
      first
          ∙ ap (λ o. o >>= λ q. some (q.0, first_lines lines r.read_at here ++ q.1, q.2)) goes'
          ∙ ap
              (λ ms.
                some (false, first_lines lines r.read_at here ++ said lines rounds ms, linked z))
              waits,
      up'',
      rest ∙ ap (left rounds) waits,
    )
