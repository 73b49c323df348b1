-- ===== src/Client/Leaving.antt =====
-- When the loop of the chat client ends (SimpleClient.cpp).
use network_study.Prelude.{
  ℕ, ◌≡◌, ◌⊎◌, inl, inr, refl, sym, ap, subst, ◌∙◌, Bool, true, false, not, ◌&&◌, List, [], ◌∷◌,
  ◌++◌, Option, none, some, append-nil, ◌>>=◌, if◌then◌else◌, append_assoc, All, All-append,
  All-split, Bool-cases,
}
use network_study.Connection.{OwnedMessage, Connection, is_connected}
use network_study.SimpleServer.{CustomMsgTypes}
use network_study.Client.{
  Client, Line, server_down, Keys, Round, is_connected_to_server, read_incoming, main_round,
  meanwhile, main_loop,
}
use network_study.Client.Chat.{linked}
use network_study.Client.Printing.{
  Lines, first_lines, later_ones, said, left, All-later, main_prints, IsPrinted, arrivals, IsQuiet,
  with_posts, with_came, pinging, asking, reading, round_prints, meanwhile-linked, main_loop_cons,
}

-- The keys as they were read last in some rounds.
abbrev pub keys_after : List Round → Keys → Keys
keys_after [] old_key = old_key
keys_after (r ∷ rounds) old_key = keys_after rounds (if r.focused then r.down else old_key)

-- What ends the loop in a round: the socket is closed, or key 3 goes down.
abbrev pub IsLast : Round → Keys → Type 0
IsLast r old_key =
    let key = if r.focused then r.down else old_key in
    (r.closes ≡ true) ⊎ ((key.key_3 && not old_key.key_3) ≡ true)

always_true : (b : Bool) → (if b then true else true) ≡ true
always_true true = refl
always_true false = refl

-- The round of a client whose socket is closed.
closed_round :
    (key old_key : Keys) (clock read_at : List ℕ) (x : Connection CustomMsgTypes)
    → x.is_open ≡ false
    → (d : Client CustomMsgTypes) × (main_round key old_key clock read_at (linked x)
        ≡ some (true, server_down ∷ [], d))
unfolding main_round read_incoming is_connected_to_server is_connected
closed_round key old_key clock read_at x down =
    let (ps, pings) = pinging (key.key_1 && not old_key.key_1) clock x in
    let (qs, asks) = asking (key.key_2 && not old_key.key_2) (with_posts ps x) in
    (
      linked (with_posts qs x),
      rw (main_round, pings, asks, down, always_true (key.key_3 && not old_key.key_3)) refl,
    )

-- The round in which key 3 goes down.
last_round :
    (lines : Lines) (key old_key : Keys) (clock read_at : List ℕ)
    → (x : Connection CustomMsgTypes) → All (IsPrinted lines) x.recv_deq
    → x.is_open ≡ true
    → (key.key_3 && not old_key.key_3) ≡ true
    → (d : Client CustomMsgTypes) × (main_round key old_key clock read_at (linked x)
        ≡ some (true, first_lines lines read_at x.recv_deq, d))
unfolding main_round
last_round lines key old_key clock read_at x prints up quits =
    let (ps, pings) = pinging (key.key_1 && not old_key.key_1) clock x in
    let (qs, asks) = asking (key.key_2 && not old_key.key_2) (with_posts ps x) in
    let reads = reading lines read_at x.recv_deq (with_posts qs x) prints up refl in
    (
      linked (record (with_posts qs x) { recv_deq = later_ones x.recv_deq }),
      rw (main_round, pings, asks, reads, quits) refl,
    )

main_loop_last :
    (r : Round) (rounds : List Round) (old_key : Keys) (c d : Client CustomMsgTypes)
    → (now : List Line)
    → main_round (if r.focused then r.down else old_key) old_key r.now r.read_at (meanwhile r c)
      ≡ some (true, now, d)
    → main_loop (r ∷ rounds) old_key c ≡ some (true, now, d)
unfolding main_loop
main_loop_last r rounds old_key c d now e =
    let key = if r.focused then r.down else old_key in
    ap
      (λ (o : Option (Bool × List Line × Client CustomMsgTypes)). o >>= λ p.
        elim p.0 as (λ b. Option (Bool × List Line × Client CustomMsgTypes)) [
          | true ↦ some p
          | false ↦ main_loop rounds key p.2 >>= λ q. some (q.0, p.1 ++ q.1, q.2)
        ])
      e

-- What the last round prints.
abbrev pub last_lines : Lines → Round → List (OwnedMessage CustomMsgTypes) → List Line
last_lines lines r ms =
    if r.closes then server_down ∷ [] else first_lines lines r.read_at (ms ++ r.came)

round_ends :
    (lines : Lines) (r : Round) (old_key : Keys)
    → (x : Connection CustomMsgTypes) → All (IsPrinted lines) (x.recv_deq ++ r.came)
    → x.is_open ≡ true
    → IsLast r old_key
    → let key = if r.focused then r.down else old_key in
      (d : Client CustomMsgTypes) × (main_round key old_key r.now r.read_at (meanwhile r (linked x))
        ≡ some (true, last_lines lines r x.recv_deq, d))
unfolding meanwhile
round_ends lines r old_key x prints up ends =
    let key = if r.focused then r.down else old_key in
    elim (Bool-cases r.closes) [
      | inl closes ↦
          let shut : Bool → Connection CustomMsgTypes =
            λ b. record (with_came r x) { is_open = if b then false else x.is_open } in
          let (d, goes) = closed_round key old_key r.now r.read_at (shut true) refl in
          (
            d,
            ap (λ b. main_round key old_key r.now r.read_at (linked (shut b))) closes
                ∙ goes
                ∙ rw closes refl,
          )
      | inr open_still ↦ elim ends [
        | inl closes ↦ absurd (cc)
        | inr quits ↦
            let (d, goes) =
              last_round lines key old_key r.now r.read_at (with_came r x) prints up quits in
            (
              d,
              ap (main_round key old_key r.now r.read_at) (meanwhile-linked r x open_still)
                  ∙ goes
                  ∙ rw open_still refl,
            )
      ]
    ]

-- What is printed after other lines.
abbrev after :
    List Line
    → Option (Bool × List Line × Client CustomMsgTypes)
    → Option (Bool × List Line × Client CustomMsgTypes)
after ls o = o >>= λ q. some (q.0, ls ++ q.1, q.2)

after_twice :
    (ls ms : List Line) (o : Option (Bool × List Line × Client CustomMsgTypes))
    → after ls (after ms o) ≡ after (ls ++ ms) o
after_twice ls ms none = refl
after_twice ls ms (some q) = ap (λ l. some (q.0, l, q.2)) (sym (append_assoc ls ms q.1))

after_nothing : (o : Option (Bool × List Line × Client CustomMsgTypes)) → after [] o ≡ o
after_nothing none = refl
after_nothing (some q) = refl

-- Messages that are left hold what those that came do.
All-left :
    (lines : Lines) (rounds : List Round) (ms : List (OwnedMessage CustomMsgTypes))
    → All (IsPrinted lines) (ms ++ arrivals rounds)
    → All (IsPrinted lines) (left rounds ms)
All-left lines [] ms prints = subst (All (IsPrinted lines)) (append-nil ms) prints
All-left lines (r ∷ rounds) ms prints =
    let P = IsPrinted lines in
    let here = ms ++ r.came in
    let (near, there) =
      All-split P here (arrivals rounds)
        (subst (All P) (sym (append_assoc ms r.came (arrivals rounds))) prints) in
    All-left lines rounds (later_ones here)
      (All-append P (later_ones here) (arrivals rounds) (All-later P here near) there)

-- Quiet rounds before others.
main_loop-append :
    (lines : Lines) (rounds : List Round) (more : List Round) (old_key : Keys)
    → (x : Connection CustomMsgTypes) → All (IsPrinted lines) (x.recv_deq ++ arrivals rounds)
    → x.is_open ≡ true
    → IsQuiet rounds old_key
    → (y : Connection CustomMsgTypes) × (main_loop (rounds ++ more) old_key (linked x)
        ≡ after
            (said lines rounds x.recv_deq)
            (main_loop more (keys_after rounds old_key) (linked y)))
      × (y.is_open ≡ true)
      × (y.recv_deq ≡ left rounds x.recv_deq)
main_loop-append lines [] more old_key x prints up stays =
    (x, sym (after_nothing (main_loop more old_key (linked x))), up, refl)
main_loop-append lines (r ∷ rounds) more old_key x prints up (quiet, kept_open, others) =
    let key = if r.focused then r.down else old_key in
    let later = arrivals rounds in
    let split = append_assoc x.recv_deq r.came later in
    let here = x.recv_deq ++ r.came in
    let (near, there) =
      All-split (IsPrinted lines) here later (subst (All (IsPrinted lines)) (sym split) prints) in
    let (y, goes, up', waits) =
      round_prints lines key old_key r.now r.read_at (with_came r x) near up quiet in
    let kept : All (IsPrinted lines) y.recv_deq =
      subst (All (IsPrinted lines)) (sym waits) (All-later (IsPrinted lines) here near) in
    let (z, goes', up'', rest) =
      main_loop-append lines rounds more key y
        (All-append (IsPrinted lines) y.recv_deq later kept there) up' others in
    let now = first_lines lines r.read_at here in
    let first =
      main_loop_cons r (rounds ++ more) old_key (linked x) (linked y) now
        (ap (main_round key old_key r.now r.read_at) (meanwhile-linked r x kept_open) ∙ goes) in
    let end = main_loop more (keys_after rounds key) (linked z) in
    (
      z,
      first
          ∙ ap (after now) goes'
          ∙ after_twice now (said lines rounds y.recv_deq) end
          ∙ ap (λ ms. after (now ++ said lines rounds ms) end) waits,
      up'',
      rest ∙ ap (left rounds) waits,
    )

-- The loop of main goes on until the first round in which the socket is closed or key 3 goes down,
-- and ends in that round, whatever rounds would follow. A key that was down in the round before
-- does not go down, nor does one that is pressed while another window is in front. Up to then it
-- prints one message in each round, as long as there is one, and in the last round "Server Down" if
-- the socket is closed. Each message must hold what it is printed from.
pub main_ends :
    (lines : Lines) (rounds : List Round) (r : Round)
    → (rest : List Round) (old_key : Keys) (x : Connection CustomMsgTypes)
    → All (IsPrinted lines) (x.recv_deq ++ (arrivals rounds ++ r.came))
    → x.is_open ≡ true
    → IsQuiet rounds old_key
    → IsLast r (keys_after rounds old_key)
    → let before = said lines rounds x.recv_deq in
      (y : Connection CustomMsgTypes) × (d : Client CustomMsgTypes) × (main_loop rounds old_key
          (linked x)
        ≡ some (false, before, linked y))
      × (main_loop (rounds ++ (r ∷ rest)) old_key (linked x)
          ≡ some (true, before ++ last_lines lines r (left rounds x.recv_deq), d))
main_ends lines rounds r rest old_key x prints up stays ends =
    let (here, there) = All-split (IsPrinted lines) (x.recv_deq ++ arrivals rounds) r.came (
      subst (All (IsPrinted lines)) (sym (append_assoc x.recv_deq (arrivals rounds) r.came))
        prints) in
    let (z, before, zu, zq) = main_prints lines rounds old_key x here up stays in
    let (y, goes, up', queue) = main_loop-append lines rounds (r ∷ rest) old_key x here up stays in
    let kept = subst (All (IsPrinted lines)) (sym queue) (All-left lines rounds x.recv_deq here) in
    let key = keys_after rounds old_key in
    let (d, last) =
      round_ends lines r key y (All-append (IsPrinted lines) y.recv_deq r.came kept there) up'
        ends in
    let now = last_lines lines r y.recv_deq in
    (
      z,
      d,
      before,
      goes
          ∙ ap (after (said lines rounds x.recv_deq))
              (main_loop_last r rest key (linked y) d now last)
          ∙ ap (λ ms. some (true, said lines rounds x.recv_deq ++ last_lines lines r ms, d)) queue,
    )
