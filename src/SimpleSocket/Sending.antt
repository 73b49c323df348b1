-- ===== src/SimpleSocket/Sending.antt =====
-- `SendPacket` and the sending part of `UpdateServer` (SimpleSocket.cpp), by the bytes that they add
-- and take.
use network_study.Prelude.{
  ℕ, ◌+◌, ◌-◌, ◌≡◌, ◌≤◌, ◌<◌, inl, inr, refl, sym, ap, ap₂, subst, ◌∙◌, true, false, List, [], ◌∷◌,
  ◌++◌, Option, some, ◌>>=◌, if◌then◌else◌, length, take, drop, ◌==◌, arith, lt→ltb, length-take,
  length-drop, append_assoc, append-nil, take-append-drop, take-all, drop-take, drop-drop, All,
  All-append, Bool-cases,
}
use network_study.Prelude.Int.{ℤ, pos, is_positive, add_int}
use network_study.SimpleSocket.{
  SocketBuffer, SimpleSocket, zeros, send_packet, send_done, send_done_list, offered, same_int,
  advance, update_sending,
}
use network_study.SimpleSocket.Framing.{length-zeros, copy_lem}
use network_study.SimpleSocket.Pending.{
  Queued, Idle, Ready, waiting, unsent, pending, waiting-append, length-overwrite, take-overwrite,
  sending, Busy-sending, unsent_busy, offered-sending, send_done_list-pending,
}

-- A part of the unsent bytes, and what is then unsent.
cut_unsent :
    (t c j : ℕ) (xs : List ℕ)
    → take (t - c) (drop c xs)
      ≡ take j (take (t - c) (drop c xs)) ++ take (t - (c + j)) (drop (c + j) xs)
cut_unsent t c j xs =
    let bytes = take (t - c) (drop c xs) in
    let less : t - c - j ≡ t - (c + j) = omega arith in
    sym (take-append-drop j bytes)
    ∙ ap (λ ys. take j bytes ++ ys)
        (drop-take j (t - c) (drop c xs)
          ∙ ap (take (t - c - j)) (drop-drop j c xs)
          ∙ ap (λ k. take k (drop (c + j) xs)) less)

-- The bytes that `advance` counts as sent leave the front.
advance-pending :
    (t c j : ℕ) (s : SimpleSocket)
    → length s.send_buffer.buffer ≡ 4096
    → All Queued s.send_buffer_list
    → c < t
    → t ≤ 4096
    → j ≤ t - c
    → (u : SimpleSocket) × (advance (pos j) (sending t c s) ≡ some u)
      × Ready u
      × (pending (sending t c s) ≡ take j (take (t - c) (drop c s.send_buffer.buffer)) ++ pending u)
unfolding advance send_done same_int
advance-pending t c j s l q small bound most =
    let bytes = take (t - c) (drop c s.send_buffer.buffer) in
    let len : length bytes ≡ t - c = omega (
      arith,
      length-take (t - c) (drop c s.send_buffer.buffer),
      length-drop c s.send_buffer.buffer,
    ) in
    let next : add_int (pos c) (pos j) ≡ pos (c + j) = ground arith in
    let before : unsent (sending t c s).send_buffer ≡ bytes =
      unsent_busy (sending t c s).send_buffer t c refl refl (omega arith) in
    let after : ℤ → Option SimpleSocket = λ z.
      if same_int (pos t) z
      then send_done_list s.send_buffer_list (sending t c s)
      else some (record s {
        send_buffer = record {
          total_size = pos t;
          current_size = z;
          buffer = s.send_buffer.buffer;
        };
      }) in
    let step : advance (pos j) (sending t c s) ≡ after (pos (c + j)) = ap after next in
    elim (Bool-cases (t == c + j)) [
      | inl h ↦
          let (u, done, ready, queue) =
            send_done_list-pending s.send_buffer_list (sending t c s) refl l q in
          let end : after (pos (c + j)) ≡ some u = rw h done in
          let all : take j bytes ≡ bytes = take-all j bytes (ground arith) in
          (
            u,
            step ∙ end,
            ready,
            ap (λ x. x ++ waiting s.send_buffer_list) (before ∙ sym all)
                ∙ ap (λ x. take j bytes ++ x) (sym queue),
          )
      | inr h ↦
          let end : after (pos (c + j)) ≡ some (sending t (c + j) s) = rw h refl in
          let less : c + j < t = ground arith in
          let now : unsent (sending t (c + j) s).send_buffer
              ≡ take (t - (c + j)) (drop (c + j) s.send_buffer.buffer) =
            unsent_busy (sending t (c + j) s).send_buffer t (c + j) refl refl (omega arith) in
          (
            sending t (c + j) s,
            step ∙ end,
            (l, q, inr (t, c + j, refl, refl, less, bound)),
            ap (λ x. x ++ waiting s.send_buffer_list)
                  (before
                    ∙ cut_unsent t c j s.send_buffer.buffer
                    ∙ ap (λ x. take j bytes ++ x) (sym now))
                ∙ append_assoc (take j bytes) (unsent (sending t (c + j) s).send_buffer)
                    (waiting s.send_buffer_list),
          )
    ]

unsent-Idle : (s : SimpleSocket) → Idle s → unsent s.send_buffer ≡ []
unsent-Idle s (idle, none_waits) =
    let off : is_positive s.send_buffer.total_size ≡ false = ap is_positive idle in rw off refl

pending-Idle : (s : SimpleSocket) → Idle s → pending s ≡ []
pending-Idle s (idle, none_waits) =
    ap₂ (λ x y. x ++ y) (unsent-Idle s (idle, none_waits)) (ap waiting none_waits)

-- `SendPacket` never fails on a packet of 1 to 4096 bytes: while another packet is being sent it
-- waits behind it, and in every case its bytes are added at the end of those still to be sent.
pub send_packet-pending :
    (bytes : List ℕ) (n : ℕ) (s : SimpleSocket)
    → 0 < n
    → n ≤ 4096
    → n ≤ length bytes
    → Ready s
    → (u : SimpleSocket) × (send_packet bytes (pos n) s ≡ some u)
      × Ready u
      × (pending u ≡ pending s ++ take n bytes)
unfolding send_packet
send_packet-pending bytes n s some_bytes bound enough (l, q, inl (idle, none_waits)) =
    let next = take n bytes ++ drop n s.send_buffer.buffer in
    let now : SocketBuffer = record { total_size = pos n; current_size = pos 0; buffer = next } in
    let whole : n - 0 ≡ n = omega arith in
    let front : unsent now ≡ take n bytes =
      unsent_busy now n 0 refl refl some_bytes
      ∙ ap (λ k. take k next) whole
      ∙ take-overwrite bytes s.send_buffer.buffer n enough in
    let off : is_positive s.send_buffer.total_size ≡ false = ap is_positive idle in
    (
      record s { send_buffer = now },
      rw (off, copy_lem s.send_buffer.buffer bytes n enough (omega arith)) refl,
      (
        length-overwrite bytes s.send_buffer.buffer n enough (omega arith) ∙ l,
        q,
        inr (n, 0, refl, refl, some_bytes, bound),
      ),
      ap₂ (λ x y. x ++ y) front (ap waiting none_waits)
          ∙ append-nil (take n bytes)
          ∙ sym (ap (λ x. x ++ take n bytes) (pending-Idle s (idle, none_waits))),
    )
send_packet-pending bytes n s some_bytes bound enough (l, q, inr (t, c, e, f, small, most)) =
    let filled = take n bytes ++ drop n zeros in
    let last : SocketBuffer = record {
      total_size = pos n;
      current_size = pos 0;
      buffer = filled;
    } in
    let full : length filled ≡ 4096 =
      length-overwrite bytes zeros n enough (omega (arith, length-zeros)) ∙ length-zeros in
    let on : is_positive s.send_buffer.total_size ≡ true =
      ap is_positive e ∙ lt→ltb 0 t (omega arith) in
    let added : waiting (last ∷ []) ≡ take n bytes =
      append-nil (take n filled) ∙ take-overwrite bytes zeros n enough in
    (
      record s { send_buffer_list = s.send_buffer_list ++ (last ∷ []) },
      rw (on, copy_lem zeros bytes n enough (omega (arith, length-zeros))) refl,
      (
        l,
        All-append Queued s.send_buffer_list (last ∷ []) q ((n, refl, some_bytes, bound, full), tt),
        inr (t, c, e, f, small, most),
      ),
      ap (λ x. unsent s.send_buffer ++ x)
            (waiting-append s.send_buffer_list (last ∷ [])
              ∙ ap (λ x. waiting s.send_buffer_list ++ x) added)
          ∙ sym (append_assoc (unsent s.send_buffer) (waiting s.send_buffer_list) (take n bytes)),
    )

abbrev Sent : (List ℕ → ℕ) → SimpleSocket → Type 0
Sent taken s =
    (u : SimpleSocket) × (update_sending (λ bytes. pos (taken bytes)) s ≡ some u)
    × Ready u
    × (pending s ≡ take (taken (unsent s.send_buffer)) (unsent s.send_buffer) ++ pending u)

update_sending-busy :
    (taken : List ℕ → ℕ) (t c : ℕ) (s : SimpleSocket)
    → ((bytes : List ℕ) → taken bytes ≤ length bytes)
    → length s.send_buffer.buffer ≡ 4096
    → All Queued s.send_buffer_list
    → c < t
    → t ≤ 4096
    → Sent taken (sending t c s)
unfolding update_sending
update_sending-busy taken t c s h l q small bound =
    let bytes = take (t - c) (drop c s.send_buffer.buffer) in
    let before : unsent (sending t c s).send_buffer ≡ bytes =
      unsent_busy (sending t c s).send_buffer t c refl refl (omega arith) in
    let most : taken bytes ≤ t - c =
      omega (arith, h bytes, length-take (t - c) (drop c s.send_buffer.buffer)) in
    let (u, step, ready, order) = advance-pending t c (taken bytes) s l q small bound most in
    let first : (offered (sending t c s) >>= λ xs. advance (pos (taken xs)) (sending t c s))
        ≡ some u =
      ap (λ o. o >>= λ xs. advance (pos (taken xs)) (sending t c s))
        (offered-sending t c s l small bound)
      ∙ step in
    (
      u,
      rw (lt→ltb 0 t (omega arith)) first,
      ready,
      order ∙ ap (λ xs. take (taken xs) xs ++ pending u) (sym before),
    )

-- What `UpdateServer` sends, when `send` takes some of what it is offered, are the first bytes still
-- to be sent, and the rest is kept; nothing happens if nothing is left.
pub update_sending-pending :
    (taken : List ℕ → ℕ) (s : SimpleSocket)
    → ((bytes : List ℕ) → taken bytes ≤ length bytes)
    → Ready s
    → (u : SimpleSocket) × (update_sending (λ bytes. pos (taken bytes)) s ≡ some u)
      × Ready u
      × (pending s ≡ take (taken (unsent s.send_buffer)) (unsent s.send_buffer) ++ pending u)
unfolding update_sending
update_sending-pending taken s h (l, q, inl (idle, none_waits)) =
    let off : is_positive s.send_buffer.total_size ≡ false = ap is_positive idle in
    let nothing = unsent-Idle s (idle, none_waits) in
    (
      s,
      rw off refl,
      (l, q, inl (idle, none_waits)),
      sym (
          ap (λ x. take (taken x) x ++ pending s) nothing
          ∙ ap (λ x. x ++ pending s) (take-all (taken []) [] (omega arith))),
    )
update_sending-pending taken s h (l, q, inr (t, c, e, f, small, most)) =
    subst (λ x. Sent taken x) (sym (Busy-sending s (t, c, e, f, small, most)))
      (update_sending-busy taken t c s h l q small most)
