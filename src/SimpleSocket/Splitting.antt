-- ===== src/SimpleSocket/Splitting.antt =====
-- A packet that comes in two parts (`UpdateServer` and `RecvDone`, SimpleSocket.cpp).
use network_study.Prelude.{
  ℕ, zero, suc, ◌+◌, ◌%◌, ◌^◌, ◌≡◌, ◌≤◌, ◌<◌, refl, sym, ap, ap₂, ◌∙◌, false, List, [], ◌∷◌, ◌++◌,
  some, ◌>>=◌, leb, length, take, drop, arith, length-drop, length-append, take-append,
  append_assoc, append-nil, drop-append, drop-drop, take_part, Bool-cases, inl, inr,
}
use network_study.Prelude.Int.{pos, is_positive, to_size, int_of_bits}
use network_study.Bytes.{read, uint32_of, read_start}
use network_study.SimpleSocket.{SimpleSocket, done, packet_size, recv_done, on_received}
use network_study.SimpleSocket.Framing.{recv_done_end, recv_done_short}
use network_study.SimpleSocket.Receiving.{
  message, packet_size-message, arrived, on_received-first, on_received-next,
}

packet_size-same :
    (b c : List ℕ)
    → 4 ≤ length b
    → 4 ≤ length c
    → take 4 b ≡ take 4 c
    → packet_size b ≡ packet_size c
unfolding packet_size
packet_size-same b c h k e =
    let same : read b 0 4 ≡ read c 0 4 = read_start b 4 h ∙ ap some e ∙ sym (read_start c 4 k) in
    ap (λ o. o >>= λ x. some ((5 + to_size (int_of_bits (uint32_of x))) % 2 ^ 64)) same

-- `RecvDone` waits while only a part of the packet is there.
pub recv_done_waits :
    (fuel size command : ℕ) (payload xs ys : List ℕ) (s : SimpleSocket)
    → length s.recv_buffer.buffer ≡ 4096
    → length xs < size + 5
    → size ≤ 4091
    → xs ++ ys ≡ message size command payload
    → recv_done (suc fuel) (arrived 0 xs s) ≡ done (arrived 0 xs s)
recv_done_waits fuel size command payload xs ys s l part bound whole =
    let n = length xs in
    let b = xs ++ drop (0 + n) s.recv_buffer.buffer in
    elim (Bool-cases (leb 5 n)) [
      | inl h ↦
          let header : take 4 b ≡ take 4 (message size command payload ++ []) =
            take_part 4 xs (drop (0 + n) s.recv_buffer.buffer) (ground arith)
            ∙ sym (take_part 4 xs ys (ground arith))
            ∙ ap (take 4) (whole ∙ sym (append-nil (message size command payload))) in
          let b_len : 4 ≤ length b =
            ground (arith, length-append xs (drop (0 + n) s.recv_buffer.buffer)) in
          let m_len : 4 ≤ length (message size command payload ++ []) = omega arith in
          let known =
            packet_size-same b (message size command payload ++ []) b_len m_len header
            ∙ packet_size-message size command payload [] bound in
          recv_done_end fuel (size + 5) (0 + n) (arrived 0 xs s) known refl (omega arith)
      | inr h ↦ recv_done_short fuel (0 + n) (arrived 0 xs s) refl (ground arith)
    ]

-- Two parts that come one after the other lie in the buffer as if they had come together.
pub arrived_twice :
    (xs ys : List ℕ) (s : SimpleSocket)
    → arrived (0 + length xs) ys (arrived 0 xs s) ≡ arrived 0 (xs ++ ys) s
arrived_twice xs ys s =
    let n = length xs in
    let buf = s.recv_buffer.buffer in
    let b = xs ++ drop (0 + n) buf in
    let front : take (0 + n) b ≡ xs = take-append (0 + n) xs (drop (0 + n) buf) (omega arith) in
    let count : 0 + n + length ys ≡ 0 + length (xs ++ ys) = omega (arith, length-append xs ys) in
    let back : drop (0 + n + length ys) b ≡ drop (0 + length (xs ++ ys)) buf =
      sym (drop-drop (length ys) (0 + n) b)
      ∙ ap (drop (length ys)) (drop-append (0 + n) xs (drop (0 + n) buf) (omega arith))
      ∙ drop-drop (length ys) (0 + n) buf
      ∙ ap (λ k. drop k buf) count in
    let all =
      ap₂ (λ u v. u ++ (ys ++ v)) front back
      ∙ sym (append_assoc xs ys (drop (0 + length (xs ++ ys)) buf)) in
    ap₂
      (λ k v. record s {
        recv_buffer = record {
          total_size = pos k;
          current_size = s.recv_buffer.current_size;
          buffer = v;
        };
      })
      count all

-- A packet with up to 4091 bytes of data may come in two parts, neither of them empty, while the
-- receive buffer counts no bytes: `RecvDone` waits for the second part, and the two together have the
-- effect of the whole packet. A bound of at least one round is enough.
on_received-split :
    (fuel size command x y : ℕ) (payload xs ys : List ℕ) (s : SimpleSocket)
    → length s.recv_buffer.buffer ≡ 4096
    → is_positive s.recv_buffer.total_size ≡ false
    → length payload ≡ size
    → size ≤ 4091
    → 0 < fuel
    → (x ∷ xs) ++ (y ∷ ys) ≡ message size command payload
    → (t : SimpleSocket) × (on_received fuel (x ∷ xs) s ≡ done t)
      × (on_received fuel (y ∷ ys) t ≡ on_received fuel (message size command payload) s)
on_received-split zero size command x y payload xs ys s l p e bound enough whole =
    absurd (omega arith)
on_received-split (suc fuel) size command x y payload xs ys s l p e bound enough whole =
    let first = x ∷ xs in
    let second = y ∷ ys in
    let t = arrived 0 first s in
    let lens : length first + length second ≡ size + 5 =
      sym (length-append first second) ∙ ap length whole ∙ omega arith in
    let full : length t.recv_buffer.buffer ≡ 4096 = omega (
      arith,
      length-append first (drop (0 + length first) s.recv_buffer.buffer),
      length-drop (0 + length first) s.recv_buffer.buffer,
    ) in
    (
      t,
      on_received-first (suc fuel) x xs s l p (omega arith)
          ∙ recv_done_waits fuel size command payload first second s l (omega arith) bound whole,
      on_received-next (suc fuel) (0 + length first) y ys t full refl (omega arith) (omega arith)
          ∙ ap (recv_done (suc fuel)) (arrived_twice first second s)
          ∙ sym (
              on_received-first (suc fuel) x (xs ++ second) s l p
                (omega (arith, length-append first second)))
          ∙ ap (λ bytes. on_received (suc fuel) bytes s) whole,
    )
