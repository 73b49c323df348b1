-- ===== src/SimpleSocket/Framing.antt =====
-- The receiving side of SimpleSocket.cpp: what `RecvDone` makes of the bytes in the buffer.
use network_study.Prelude.{
  ℕ, zero, suc, ◌+◌, ◌*◌, ◌≡◌, ◌≤◌, ◌<◌, refl, sym, ap, ◌∙◌, true, false, List, [], ◌∷◌, ◌++◌, none,
  some, ◌>>=◌, ltb, leb, if◌then◌else◌, length, take, drop, replicate, arith, le→leb, lt→leb,
  length-take, length-drop, length-replicate, append_assoc, append-nil,
}
use network_study.Prelude.Int.{pos, to_size, int_of_size, sub_int}
use network_study.Bytes.{read, write, read_start, write_start, read_in}
use network_study.SimpleSocket.{
  SocketBuffer, SimpleSocket, Outcome, done, fault, running, zeros, copy, copy_rest, take_packet,
  packet_size, recv_done,
}

pub length-zeros : length zeros ≡ 4096
unfolding zeros
length-zeros = length-replicate {A = ℕ} 4096 0

pub copy_lem :
    (dst src : List ℕ) (n : ℕ)
    → n ≤ length src
    → n ≤ length dst
    → copy dst src (pos n) ≡ some (take n src ++ drop n dst)
unfolding copy
copy_lem dst src n h k =
    let e : length (take n src) ≡ n = omega (arith, length-take n src) in
    rw (read_start src n h, write_start dst (take n src) (omega arith), e)

copy_rest-some :
    (buffer : List ℕ) (at left : ℕ)
    → at + left ≤ length buffer
    → length buffer ≡ 4096
    → (r : List ℕ) × (copy_rest buffer at (pos left) ≡ some r)
unfolding copy_rest
copy_rest-some buffer at left h l =
    let small : length (take left (drop at buffer)) ≤ 4096 =
      omega (arith, length-take left (drop at buffer), length-drop at buffer) in
    elim (ltb 0 left)
      as (λ b.
        (r : List ℕ) × ((if b then (read buffer at left >>= write zeros 0) else some [])
          ≡ some r)) [
            | true ↦
                let d = take left (drop at buffer) in
                (
                  d ++ drop (length d) zeros,
                  ap (λ o. o >>= write zeros 0) (read_in buffer at left h)
                      ∙ write_start zeros d (omega (arith, length-zeros)),
                )
            | false ↦ ([], refl)
          ]

-- The first packet of the buffer, `k` bytes long, as `RecvDone` files it.
abbrev pub packet : ℕ → List ℕ → SocketBuffer
packet k buffer = record {
  total_size = pos k;
  current_size = pos 0;
  buffer = take k buffer ++ drop k zeros;
}

-- The state with `t` bytes in the receive buffer and one more list of packets.
abbrev pub received : SimpleSocket → List SocketBuffer → ℕ → SimpleSocket
received s ps t = record s {
  recv_buffer_list = s.recv_buffer_list ++ ps;
  recv_buffer = record {
    total_size = pos t;
    current_size = s.recv_buffer.current_size;
    buffer = s.recv_buffer.buffer;
  };
}

take_packet_lem :
    (s : SimpleSocket) (k t : ℕ)
    → length s.recv_buffer.buffer ≡ 4096
    → s.recv_buffer.total_size ≡ pos (k + t)
    → k + t ≤ 4096
    → take_packet (pos k) s ≡ some (received s (packet k s.recv_buffer.buffer ∷ []) t)
unfolding take_packet
take_packet_lem s k t l e h =
    let (r, rest) = copy_rest-some s.recv_buffer.buffer k t (omega arith) l in
    let left : sub_int (pos (k + t)) (pos k) ≡ pos t = ground arith in
    let c = copy_lem zeros s.recv_buffer.buffer k (omega arith) (omega (arith, length-zeros)) in
    rw (c, e, left, rest)

int_small : (k : ℕ) → k ≤ 4096 → int_of_size k ≡ pos k
int_small k h = ground arith

-- A round that files a packet.
pub recv_done_round :
    (fuel k t : ℕ) (s : SimpleSocket)
    → length s.recv_buffer.buffer ≡ 4096
    → packet_size s.recv_buffer.buffer ≡ some k
    → s.recv_buffer.total_size ≡ pos (k + t)
    → 5 ≤ k + t
    → k + t ≤ 4096
    → recv_done (suc fuel) s ≡ recv_done fuel (received s (packet k s.recv_buffer.buffer ∷ []) t)
unfolding recv_done
recv_done_round fuel k t s l p e five bound =
    let size : to_size s.recv_buffer.total_size ≡ k + t = ap to_size e in
    let a : leb 5 (to_size s.recv_buffer.total_size) ≡ true = rw size (le→leb 5 (k + t) five) in
    let b : leb k (to_size s.recv_buffer.total_size) ≡ true =
      rw size (le→leb k (k + t) (omega arith)) in
    let step : take_packet (int_of_size k) s
        ≡ some (received s (packet k s.recv_buffer.buffer ∷ []) t) =
      rw (int_small k (omega arith)) (take_packet_lem s k t l e bound) in
    rw (recv_done, a, p, b, step)

-- The loop ends when less than a packet is left.
pub recv_done_end :
    (fuel k r : ℕ) (s : SimpleSocket)
    → packet_size s.recv_buffer.buffer ≡ some k
    → s.recv_buffer.total_size ≡ pos r
    → r < k
    → recv_done (suc fuel) s ≡ done s
unfolding recv_done
recv_done_end fuel k r s p e small =
    let size : to_size s.recv_buffer.total_size ≡ r = ap to_size e in
    let b : leb k (to_size s.recv_buffer.total_size) ≡ false = rw size (lt→leb k r small) in
    elim (leb 5 (to_size s.recv_buffer.total_size))
      as (λ c.
        (elim c as (λ _. Outcome SimpleSocket) [
          | false ↦ done s
          | true ↦ elim (packet_size s.recv_buffer.buffer) [
            | none ↦ fault
            | some need ↦ elim (leb need (to_size s.recv_buffer.total_size)) [
              | false ↦ done s
              | true ↦ elim (take_packet (int_of_size need) s) [
                | none ↦ fault
                | some t ↦ recv_done fuel t
              ]
            ]
          ]
        ])
        ≡ done s) [ false ↦ refl | true ↦ rw (p, b) ]

-- Fewer bytes than a header are left alone.
pub recv_done_short :
    (fuel t : ℕ) (s : SimpleSocket)
    → s.recv_buffer.total_size ≡ pos t
    → t < 5
    → recv_done (suc fuel) s ≡ done s
unfolding recv_done
recv_done_short fuel t s e small =
    let size : to_size s.recv_buffer.total_size ≡ t = ap to_size e in
    let a : leb 5 (to_size s.recv_buffer.total_size) ≡ false = rw size (lt→leb 5 t small) in
    rw (recv_done, a) refl

pub received_none :
    (s : SimpleSocket) (r : ℕ) → s.recv_buffer.total_size ≡ pos r → s ≡ received s [] r
received_none s r e =
    ap (λ ps. record s { recv_buffer_list = ps }) (sym (append-nil s.recv_buffer_list))
    ∙ ap
        (λ t. record (received s [] r) {
          recv_buffer = record {
            total_size = t;
            current_size = s.recv_buffer.current_size;
            buffer = s.recv_buffer.buffer;
          };
        })
        e

pub received_twice :
    (s : SimpleSocket) (ps qs : List SocketBuffer) (t r : ℕ)
    → received (received s ps t) qs r ≡ received s (ps ++ qs) r
received_twice s ps qs t r = rw (append_assoc s.recv_buffer_list ps qs)

-- While packets of `k` bytes lie in the receive buffer, `k` at least 5 as the first of them states,
-- `RecvDone` files a packet for each, and every one of them is a copy of the first: the bytes that are
-- left are not moved to the front. It ends with the `r` bytes that are less than a packet counted and
-- the buffer as it was, whatever bound greater than the number of packets is set to its rounds.
pub recv_done_copies :
    (q fuel k r : ℕ) (s : SimpleSocket)
    → length s.recv_buffer.buffer ≡ 4096
    → packet_size s.recv_buffer.buffer ≡ some k
    → 5 ≤ k
    → s.recv_buffer.total_size ≡ pos (q * k + r)
    → r < k
    → q * k + r ≤ 4096
    → q < fuel
    → recv_done fuel s ≡ done (received s (replicate q (packet k s.recv_buffer.buffer)) r)
recv_done_copies q zero k r s l p five e small bound enough = absurd (omega arith)
recv_done_copies zero (suc fuel) k r s l p five e small bound enough =
    let left : s.recv_buffer.total_size ≡ pos r = e ∙ ap pos (omega arith) in
    recv_done_end fuel k r s p left small ∙ ap done (received_none s r left)
recv_done_copies (suc q) (suc fuel) k r s l p five e small bound enough =
    let rest = q * k + r in
    let first = packet k s.recv_buffer.buffer ∷ [] in
    let t : s.recv_buffer.total_size ≡ pos (k + rest) = e ∙ ap pos (omega arith) in
    recv_done_round fuel k rest s l p t (omega arith) (omega arith)
    ∙ recv_done_copies q fuel k r (received s first rest) l p five refl small (omega arith)
        (omega arith)
    ∙ ap done (received_twice s first (replicate q (packet k s.recv_buffer.buffer)) rest r)

-- If the size field of the first packet is -5, so that its size comes out as 0, and from 5 to 4096
-- bytes are counted, `RecvDone` does not end within any bound on its rounds: each round files an empty
-- packet and takes nothing from the buffer.
pub recv_done_endless :
    (fuel t : ℕ) (s : SimpleSocket)
    → length s.recv_buffer.buffer ≡ 4096
    → packet_size s.recv_buffer.buffer ≡ some 0
    → s.recv_buffer.total_size ≡ pos t
    → 5 ≤ t
    → t ≤ 4096
    → recv_done fuel s ≡ running
unfolding recv_done
recv_done_endless zero t s l p e five bound = refl
recv_done_endless (suc fuel) t s l p e five bound =
    recv_done_round fuel 0 t s l p (e ∙ ap pos (omega arith)) (omega arith) (omega arith)
    ∙ recv_done_endless fuel t (received s (packet 0 s.recv_buffer.buffer ∷ []) t) l p refl five
        bound
