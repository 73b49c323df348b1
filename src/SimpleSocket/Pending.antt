-- ===== src/SimpleSocket/Pending.antt =====
-- The sending side of SimpleSocket.cpp: the bytes that wait in its buffers, in the order in which
-- they go out.
use network_study.Prelude.{
  ℕ, ◌-◌, ◌≡◌, ◌≤◌, ◌<◌, ◌⊎◌, inl, inr, refl, sym, ap, ap₂, ◌∙◌, List, [], ◌∷◌, ◌++◌, some,
  if◌then◌else◌, length, take, drop, arith, lt→ltb, length-take, length-drop, length-append,
  append_assoc, take-append, All,
}
use network_study.Prelude.Int.{pos, negsuc, is_positive, to_size, sub_int}
use network_study.Bytes.{read, read_in}
use network_study.SimpleSocket.{
  SocketBuffer, SimpleSocket, new_buffer, copy, send_done_list, offered,
}
use network_study.SimpleSocket.Framing.{length-zeros, copy_lem}

-- A buffer in the queue.
abbrev pub Queued : SocketBuffer → Type 0
Queued b = (t : ℕ) × (b.total_size ≡ pos t) × (0 < t) × (t ≤ 4096) × (length b.buffer ≡ 4096)

-- Nothing is being sent, and then nothing waits; or `c` of `t` bytes have been taken.
abbrev pub Idle : SimpleSocket → Type 0
Idle s = (s.send_buffer.total_size ≡ negsuc 0) × (s.send_buffer_list ≡ [])

abbrev pub Busy : SimpleSocket → Type 0
Busy s =
    (t : ℕ) × (c : ℕ) × (s.send_buffer.total_size ≡ pos t)
    × (s.send_buffer.current_size ≡ pos c)
    × (c < t)
    × (t ≤ 4096)

abbrev pub Ready : SimpleSocket → Type 0
Ready s = (length s.send_buffer.buffer ≡ 4096) × All Queued s.send_buffer_list × (Idle s ⊎ Busy s)

-- The bytes of the queue.
abbrev pub waiting : List SocketBuffer → List ℕ
waiting [] = []
waiting (b ∷ bs) = take (to_size b.total_size) b.buffer ++ waiting bs

-- What is left of the buffer that is being sent.
abbrev pub unsent : SocketBuffer → List ℕ
unsent b =
    if is_positive b.total_size
    then take (to_size b.total_size - to_size b.current_size)
        (drop (to_size b.current_size) b.buffer)
    else []

abbrev pub pending : SimpleSocket → List ℕ
pending s = unsent s.send_buffer ++ waiting s.send_buffer_list

pub waiting-append : (xs ys : List SocketBuffer) → waiting (xs ++ ys) ≡ waiting xs ++ waiting ys
waiting-append [] ys = refl
waiting-append (b ∷ xs) ys =
    rw
      (
        waiting-append xs ys,
        append_assoc (take (to_size b.total_size) b.buffer) (waiting xs) (waiting ys),
      )
      refl

pub length-overwrite :
    (xs ys : List ℕ) (n : ℕ)
    → n ≤ length xs
    → n ≤ length ys
    → length (take n xs ++ drop n ys) ≡ length ys
length-overwrite xs ys n h k =
    omega (arith, length-append (take n xs) (drop n ys), length-take n xs, length-drop n ys)

pub take-overwrite :
    (xs ys : List ℕ) (n : ℕ) → n ≤ length xs → take n (take n xs ++ drop n ys) ≡ take n xs
take-overwrite xs ys n h = take-append n (take n xs) (drop n ys) (omega (arith, length-take n xs))

-- The state when `c` of `t` bytes have been taken.
abbrev pub sending : ℕ → ℕ → SimpleSocket → SimpleSocket
sending t c s = record s {
  send_buffer = record { total_size = pos t; current_size = pos c; buffer = s.send_buffer.buffer };
}

pub Busy-sending : (s : SimpleSocket) (b : Busy s) → s ≡ sending b.0 b.1 s
Busy-sending s (t, c, e, f, small, bound) =
    ap₂
      (λ x y. record s {
        send_buffer = record { total_size = x; current_size = y; buffer = s.send_buffer.buffer };
      })
      e f

pub unsent_busy :
    (b : SocketBuffer) (t c : ℕ)
    → b.total_size ≡ pos t
    → b.current_size ≡ pos c
    → 0 < t
    → unsent b ≡ take (t - c) (drop c b.buffer)
unsent_busy b t c e f h =
    let same : b ≡ record { total_size = pos t; current_size = pos c; buffer = b.buffer } =
      ap₂ (λ x y. record { total_size = x; current_size = y; buffer = b.buffer }) e f in
    let first : unsent (record { total_size = pos t; current_size = pos c; buffer = b.buffer })
        ≡ take (t - c) (drop c b.buffer) =
      rw (lt→ltb 0 t h) refl in
    ap unsent same ∙ first

-- The offered bytes are those of the buffer that have not been sent.
pub offered-sending :
    (t c : ℕ) (s : SimpleSocket)
    → length s.send_buffer.buffer ≡ 4096
    → c < t
    → t ≤ 4096
    → offered (sending t c s) ≡ some (take (t - c) (drop c s.send_buffer.buffer))
unfolding offered
offered-sending t c s l small bound =
    let rest : to_size (sub_int (pos t) (pos c)) ≡ t - c = ground arith in
    ap (read s.send_buffer.buffer c) rest ∙ read_in s.send_buffer.buffer c (t - c) (omega arith)

-- `SendDone` takes the next buffer, all of which is still to be sent.
pub send_done_list-pending :
    (bs : List SocketBuffer) (s : SimpleSocket)
    → s.send_buffer_list ≡ bs
    → length s.send_buffer.buffer ≡ 4096
    → All Queued bs
    → (t : SimpleSocket) × (send_done_list bs s ≡ some t) × Ready t × (pending t ≡ waiting bs)
unfolding send_done_list
send_done_list-pending [] s e l q = (
  record s { send_buffer = new_buffer },
  refl,
  (length-zeros, rw e tt, inl (refl, e)),
  ap waiting e,
)
send_done_list-pending (b ∷ bs) s e l ((n, total, some_bytes, bound, full), qs) =
    let next = take n b.buffer ++ drop n s.send_buffer.buffer in
    let now : SocketBuffer = record {
      total_size = b.total_size;
      current_size = pos 0;
      buffer = next;
    } in
    let copied : copy s.send_buffer.buffer b.buffer b.total_size ≡ some next =
      ap (copy s.send_buffer.buffer b.buffer) total
      ∙ copy_lem s.send_buffer.buffer b.buffer n (omega arith) (omega arith) in
    let whole : n - 0 ≡ n = omega arith in
    let front : unsent now ≡ take (to_size b.total_size) b.buffer =
      unsent_busy now n 0 total refl some_bytes
      ∙ ap (λ k. take k next) whole
      ∙ take-overwrite b.buffer s.send_buffer.buffer n (omega arith)
      ∙ ap (λ z. take (to_size z) b.buffer) (sym total) in
    (
      record s { send_buffer = now; send_buffer_list = bs },
      rw copied refl,
      (
        length-overwrite b.buffer s.send_buffer.buffer n (omega arith) (omega arith) ∙ l,
        qs,
        inr (n, 0, total, refl, some_bytes, bound),
      ),
      ap (λ x. x ++ waiting bs) front,
    )
