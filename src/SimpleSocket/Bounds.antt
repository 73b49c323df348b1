-- ===== src/SimpleSocket/Bounds.antt =====
-- When the receiving side of SimpleSocket.cpp ends, and when it writes past its buffer.
use network_study.Prelude.{
  ℕ, zero, suc, ◌+◌, ◌-◌, ◌%◌, ◌^◌, ◌≡◌, ◌≢◌, ◌≤◌, ◌<◌, ◌⊎◌, inl, inr, refl, sym, ap, ◌∙◌, false,
  List, [], ◌∷◌, ◌++◌, some, ltb, leb, if◌then◌else◌, length, take, drop, arith, lt→leb, Bool-cases,
  length-take, length-drop, length-append,
}
use network_study.Prelude.Int.{ℤ, pos, negsuc, is_positive, to_size, int_of_bits}
use network_study.Bytes.{write, uint32_of, read_start}
use network_study.SimpleSocket.{
  SocketBuffer, SimpleSocket, done, fault, packet_size, recv_done, place, on_received,
}
use network_study.SimpleSocket.Framing.{
  packet, received, received_none, received_twice, recv_done_round, recv_done_end, recv_done_short,
}
use network_study.SimpleSocket.Receiving.{arrived, place-arrived}

-- The receive buffer holds 4096 bytes, and counts `t` of them; -1 counts none.
abbrev pub counted : ℤ → ℕ
counted (pos n) = n
counted (negsuc n) = 0

abbrev pub Receives : SimpleSocket → Type 0
Receives s = (length s.recv_buffer.buffer ≡ 4096) × (counted s.recv_buffer.total_size ≤ 4096)

-- The sending sides of two states are the same.
abbrev pub SameSending : SimpleSocket → SimpleSocket → Type 0
SameSending u s = (u.send_buffer ≡ s.send_buffer) × (u.send_buffer_list ≡ s.send_buffer_list)

-- The bytes that some packets count.
abbrev pub sizes : List SocketBuffer → ℕ
sizes [] = 0
sizes (b ∷ bs) = counted b.total_size + sizes bs

-- `RecvDone` ends in time, without going out of bounds: of `t` bytes that are counted it files some as
-- packets, and still counts the others.
abbrev pub Ends : ℕ → ℕ → SimpleSocket → Type 0
Ends fuel t s =
    (ps : List SocketBuffer) × (r : ℕ) × (recv_done fuel s ≡ done (received s ps r))
    × (sizes ps + r ≡ t)

recv_done-Ends :
    (fuel t k : ℕ) (s : SimpleSocket)
    → length s.recv_buffer.buffer ≡ 4096
    → packet_size s.recv_buffer.buffer ≡ some k
    → 0 < k
    → s.recv_buffer.total_size ≡ pos t
    → t ≤ 4096
    → t < fuel
    → Ends fuel t s
recv_done-Ends zero t k s l p some_bytes e bound enough = absurd (omega arith)
recv_done-Ends (suc fuel) t k s l p some_bytes e bound enough =
    let stays : done s ≡ done (received s [] t) = ap done (received_none s t e) in
    elim (Bool-cases (leb 5 t)) [
      | inr few ↦ ([], t, recv_done_short fuel t s e (ground arith) ∙ stays, omega arith)
      | inl header ↦ elim (Bool-cases (leb k t)) [
        | inr part ↦ ([], t, recv_done_end fuel k t s p e (ground arith) ∙ stays, omega arith)
        | inl whole ↦
            let rest : k + (t - k) ≡ t = ground arith in
            let next = received s (packet k s.recv_buffer.buffer ∷ []) (t - k) in
            let round =
              recv_done_round fuel k (t - k) s l p (e ∙ ap pos (sym rest)) (ground arith)
                (ground arith) in
            let first = packet k s.recv_buffer.buffer in
            let (ps, r, ends, count) =
              recv_done-Ends fuel (t - k) k next l p some_bytes refl (omega arith) (omega arith) in
            (
              first ∷ ps,
              r,
              round ∙ ends ∙ ap done (received_twice s (first ∷ []) ps (t - k) r),
              omega arith,
            )
      ]
    ]

on_received-place :
    (fuel x : ℕ) (xs : List ℕ) (s : SimpleSocket) (z : ℤ)
    → (if is_positive z then place fuel z (x ∷ xs) s else place fuel (pos 0) (x ∷ xs) s)
      ≡ place fuel (pos (counted z)) (x ∷ xs) s
on_received-place fuel x xs s (negsuc n) = refl
on_received-place fuel x xs s (pos n) = elim (Bool-cases (ltb 0 n)) [
  | inl h ↦ rw h refl
  | inr h ↦ let e : n ≡ 0 = ground arith in rw (h, e) refl
]

place_overflow :
    (fuel t : ℕ) (bytes : List ℕ) (s : SimpleSocket)
    → length s.recv_buffer.buffer ≡ 4096
    → 4096 < t + length bytes
    → place fuel (pos t) bytes s ≡ fault
unfolding place write
place_overflow fuel t bytes s l over =
    let out : leb (t + length bytes) (length s.recv_buffer.buffer) ≡ false =
      lt→leb (t + length bytes) (length s.recv_buffer.buffer) (omega arith) in
    rw (place, out) refl

packet_size-some : (b : List ℕ) → 4 ≤ length b → (k : ℕ) × (packet_size b ≡ some k)
unfolding packet_size
packet_size-some b h =
    ((5 + to_size (int_of_bits (uint32_of (take 4 b)))) % 2 ^ 64, rw (read_start b 4 h) refl)

pub length-arrived :
    (t : ℕ) (bytes : List ℕ) (s : SimpleSocket)
    → length s.recv_buffer.buffer ≡ 4096
    → t + length bytes ≤ 4096
    → length (arrived t bytes s).recv_buffer.buffer ≡ 4096
length-arrived t bytes s l fits =
    let b = s.recv_buffer.buffer in
    let n = t + length bytes in
    omega (
      arith,
      length-append (take t b) (bytes ++ drop n b),
      length-append bytes (drop n b),
      length-take t b,
      length-drop n b,
    )

some_bytes : (k : ℕ) → some k ≢ some 0 → 0 < k
some_bytes zero h = absurd (h refl)
some_bytes (suc k) h = omega arith

-- The bytes that have come, at least one, are taken in full if they fit behind those that are counted
-- and the size field of the first packet is then not -5. They are all written behind the others, and
-- nothing else in the buffer changes; then `RecvDone` ends, within as many rounds as bytes are counted
-- and one more. It files packets and counts what is left: the sizes of those packets and what is left are
-- together the bytes that were counted and those that have come, and nothing else of the socket changes.
-- If the bytes do not fit, they are written past the end of the buffer.
pub on_received_outcome :
    (fuel x : ℕ) (xs : List ℕ) (s : SimpleSocket)
    → Receives s
    → let t = counted s.recv_buffer.total_size in
      packet_size (arrived t (x ∷ xs) s).recv_buffer.buffer ≢ some 0
      → counted s.recv_buffer.total_size + length (x ∷ xs) < fuel
      → ((4096 < counted s.recv_buffer.total_size + length (x ∷ xs))
          × (on_received fuel (x ∷ xs) s ≡ fault))
        ⊎ ((counted s.recv_buffer.total_size + length (x ∷ xs) ≤ 4096)
            × (ps : List SocketBuffer) × (r : ℕ) × (on_received fuel (x ∷ xs) s
                ≡ done (received (arrived (counted s.recv_buffer.total_size) (x ∷ xs) s) ps r))
            × (sizes ps + r ≡ counted s.recv_buffer.total_size + length (x ∷ xs)))
unfolding on_received
on_received_outcome fuel x xs s (l, few) ends enough =
    let t = counted s.recv_buffer.total_size in
    let n = t + length (x ∷ xs) in
    let placed = on_received-place fuel x xs s s.recv_buffer.total_size in
    elim (Bool-cases (leb n 4096)) [
      | inr over ↦ inl (ground arith, placed ∙ place_overflow fuel t (x ∷ xs) s l (ground arith))
      | inl fits ↦
          let next = arrived t (x ∷ xs) s in
          let full = length-arrived t (x ∷ xs) s l (ground arith) in
          let (k, size) = packet_size-some next.recv_buffer.buffer (omega arith) in
          let (ps, r, ended, count) =
            recv_done-Ends fuel n k next full size (some_bytes k (λ e. ends (size ∙ e))) refl
              (ground arith) (ground arith) in
          inr (
            ground arith,
            ps,
            r,
            placed ∙ place-arrived fuel t (x ∷ xs) s l (ground arith) ∙ ended,
            count,
          )
    ]
