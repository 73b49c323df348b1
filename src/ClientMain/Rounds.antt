-- ===== src/ClientMain/Rounds.antt =====
-- What the client of Client.cpp sends, round for round.
use network_study.Prelude.{
  ℕ, ◌≡◌, ◌≤◌, refl, sym, ap, ◌∙◌, Bool, false, List, [], ◌∷◌, ◌++◌, some, if◌then◌else◌,
  Bool-cases, inl, inr, append_assoc, append-nil, length, take, replicate, length-take, All, map,
  arith,
}
use network_study.Prelude.Int.{is_positive}
use network_study.Bytes.{padded, write-replicate, has_end-padded, read_start}
use network_study.Select.{Flow, go, ret, then_flow}
use network_study.ClientMain.{
  Event, printed, sent, reported, cleared, Round, print_received, receive, time_buffer, send_time,
  one_round, run, shout_error_and_close,
}

-- The buffers handed to `send`.
abbrev pub sends : List Event → List (List ℕ)
sends [] = []
sends (e ∷ es) = elim e [ sent b ↦ b ∷ sends es | _ ↦ sends es ]

sends-append : (es fs : List Event) → sends (es ++ fs) ≡ sends es ++ sends fs
sends-append [] fs = refl
sends-append (sent b ∷ es) fs = ap (λ bs. b ∷ bs) (sends-append es fs)
sends-append (_ ∷ es) fs = sends-append es fs

-- No failure of `select`, a message that leaves room for its end, and memory behind the text of the time
-- up to the size of a string object.
abbrev pub Sound : ℕ → Round → Type 0
Sound string_size r =
    (r.select_fails ≡ false)
    × (length r.received ≤ 2047)
    × (string_size ≤ length (r.time ++ (0 ∷ r.beyond)))

-- What one round sends: the time, its end and what lies behind it, and zeros.
abbrev pub time_packet : ℕ → Round → List ℕ
time_packet string_size r = padded 2048 (take string_size (r.time ++ (0 ∷ r.beyond)))

cleared_lem : cleared ≡ replicate 2048 0
unfolding cleared
cleared_lem = refl

print_received-sends :
    (got : List ℕ) (events : List Event)
    → length got ≤ 2047
    → (u : List Event) × (print_received got events ≡ go u) × (sends u ≡ sends events)
unfolding print_received
print_received-sends [] events fits = (events, refl, refl)
print_received-sends (x ∷ xs) events fits =
    let b = padded 2048 (x ∷ xs) in
    (
      events ++ (printed b ∷ []),
      rw
          (
            print_received,
            cleared_lem,
            write-replicate 2048 (x ∷ xs) (omega arith),
            has_end-padded 2048 (x ∷ xs) (omega arith),
          )
          refl,
      sends-append events (printed b ∷ []) ∙ append-nil (sends events),
    )

receive-sends :
    (r : Round) (events : List Event)
    → length r.received ≤ 2047
    → (u : List Event) × (receive r events ≡ go u) × (sends u ≡ sends events)
unfolding receive
receive-sends r events fits = elim (Bool-cases r.readable) [
  | inr quiet ↦ (events, rw quiet refl, refl)
  | inl reads ↦
      let (u, goes, same) = print_received-sends r.received events fits in (u, rw reads goes, same)
]

time_buffer_lem :
    (string_size : ℕ) (r : Round)
    → string_size ≤ 2048
    → string_size ≤ length (r.time ++ (0 ∷ r.beyond))
    → time_buffer string_size r ≡ some (time_packet string_size r)
unfolding time_buffer
time_buffer_lem string_size r small behind =
    let text = r.time ++ (0 ∷ r.beyond) in
    let bytes = take string_size text in
    let stored = write-replicate 2048 bytes (omega (arith, length-take string_size text)) in
    rw (time_buffer, read_start text string_size behind, cleared_lem) stored

send_time-sends :
    (string_size : ℕ) (r : Round) (events : List Event)
    → string_size ≤ 2048
    → string_size ≤ length (r.time ++ (0 ∷ r.beyond))
    → (u : List Event) × (send_time string_size r events ≡ go u)
      × (sends u ≡ sends events ++ (time_packet string_size r ∷ []))
unfolding send_time
send_time-sends string_size r events small behind =
    let sends_it = time_buffer_lem string_size r small behind in
    let b = time_packet string_size r in
    elim (Bool-cases (is_positive r.send_result)) [
      | inl reports ↦
          let es = sent b ∷ reported r.time ∷ [] in
          (events ++ es, rw (send_time, sends_it, reports) refl, sends-append events es)
      | inr fails ↦
          let es = sent b ∷ [] in
          (events ++ es, rw (send_time, sends_it, fails) refl, sends-append events es)
    ]

one_round-sends :
    (string_size sock : ℕ) (r : Round) (events : List Event)
    → string_size ≤ 2048
    → Sound string_size r
    → (u : List Event) × (one_round string_size sock r events ≡ go u)
      × (sends u ≡ sends events ++ (time_packet string_size r ∷ []))
unfolding one_round
one_round-sends string_size sock r events small (selects, fits, behind) =
    let (t, receives, same) = receive-sends r events fits in
    let (u, goes, adds) = send_time-sends string_size r t small behind in
    let branch : Bool → Flow (List Event) = λ b.
      if b
      then ret (events ++ shout_error_and_close sock)
      else then_flow (receive r events) (send_time string_size r) in
    (
      u,
      ap branch selects ∙ rw receives goes,
      adds ∙ ap (λ bs. bs ++ (time_packet string_size r ∷ [])) same,
    )

-- The client sends in every round, whether or not anything has come, and whatever `recv` and `send`
-- return: one buffer of 2048 bytes that starts with the time. Nothing but a failure of `select` ends it,
-- so it goes on when the server has left. This holds while the messages leave room for their end, and
-- the memory behind the text of the time is at least as large as a string object.
pub each_round_sends :
    (string_size sock : ℕ) (rounds : List Round) (events : List Event)
    → string_size ≤ 2048
    → All (Sound string_size) rounds
    → (u : List Event) × (run string_size sock rounds events ≡ go u)
      × (sends u ≡ sends events ++ map (time_packet string_size) rounds)
unfolding run
each_round_sends string_size sock [] events small sound =
    (events, refl, sym (append-nil (sends events)))
each_round_sends string_size sock (r ∷ rounds) events small (first, others) =
    let (t, goes, adds) = one_round-sends string_size sock r events small first in
    let (u, rest, all) = each_round_sends string_size sock rounds t small others in
    let packets = map (time_packet string_size) rounds in
    (
      u,
      rw goes rest,
      all
          ∙ ap (λ bs. bs ++ packets) adds
          ∙ append_assoc (sends events) (time_packet string_size r ∷ []) packets,
    )
