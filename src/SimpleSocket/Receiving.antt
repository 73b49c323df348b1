-- ===== src/SimpleSocket/Receiving.antt =====
-- The branch of `UpdateServer` (SimpleSocket.cpp) for the bytes that `recv` has returned.
use network_study.Prelude.{
  ℕ, ◌+◌, ◌*◌, ◌%◌, ◌^◌, ◌≡◌, ◌≤◌, ◌<◌, refl, ap, ◌∙◌, true, false, List, [], ◌∷◌, ◌++◌, some,
  ◌>>=◌, leb, length, take, drop, arith, le→leb, lt→ltb, length-drop, length-append, take-append,
}
use network_study.Prelude.Int.{pos, is_positive, to_size, int_of_bits, add_int}
use network_study.Bytes.{write, uint32_of, uint32_bytes, uint32_of-bytes, read_start}
use network_study.SimpleSocket.{
  SimpleSocket, done, zeros, packet_size, recv_done, place, on_received,
}
use network_study.SimpleSocket.Framing.{received, recv_done_copies}

-- The bytes of a packet: its size field, its command and what it carries.
abbrev pub message : ℕ → ℕ → List ℕ → List ℕ
message size command payload = uint32_bytes size ++ (command ∷ payload)

pub packet_size-message :
    (size command : ℕ) (payload rest : List ℕ)
    → size ≤ 4091
    → packet_size (message size command payload ++ rest) ≡ some (size + 5)
unfolding packet_size
packet_size-message size command payload rest bound =
    let xs = message size command payload ++ rest in
    let enough : 4 ≤ length xs = omega arith in
    let whole : (5 + to_size (int_of_bits size)) % 2 ^ 64 ≡ size + 5 = ground arith in
    ap (λ o. o >>= λ h. some ((5 + to_size (int_of_bits (uint32_of h))) % 2 ^ 64))
      (read_start xs 4 enough)
    ∙ ap (λ n. some ((5 + to_size (int_of_bits n)) % 2 ^ 64)) (uint32_of-bytes size (omega arith))
    ∙ ap some whole

-- The state in which `bytes` have been copied behind `t` bytes of the receive buffer.
abbrev pub arrived : ℕ → List ℕ → SimpleSocket → SimpleSocket
arrived t bytes s = record s {
  recv_buffer = record {
    total_size = pos (t + length bytes);
    current_size = s.recv_buffer.current_size;
    buffer = take t s.recv_buffer.buffer ++ (bytes ++ drop (t + length bytes) s.recv_buffer.buffer);
  };
}

pub place-arrived :
    (fuel t : ℕ) (bytes : List ℕ) (s : SimpleSocket)
    → length s.recv_buffer.buffer ≡ 4096
    → t + length bytes ≤ 4096
    → place fuel (pos t) bytes s ≡ recv_done fuel (arrived t bytes s)
unfolding place write
place-arrived fuel t bytes s l bound =
    let fits : leb (t + length bytes) (length s.recv_buffer.buffer) ≡ true =
      le→leb (t + length bytes) (length s.recv_buffer.buffer) (omega arith) in
    let count : add_int (pos t) (pos (length bytes)) ≡ pos (t + length bytes) = ground arith in
    rw (place, fits, count) refl

pub on_received-first :
    (fuel x : ℕ) (xs : List ℕ) (s : SimpleSocket)
    → length s.recv_buffer.buffer ≡ 4096
    → is_positive s.recv_buffer.total_size ≡ false
    → length (x ∷ xs) ≤ 4096
    → on_received fuel (x ∷ xs) s ≡ recv_done fuel (arrived 0 (x ∷ xs) s)
unfolding on_received
on_received-first fuel x xs s l p bound = rw p (place-arrived fuel 0 (x ∷ xs) s l (omega arith))

pub on_received-next :
    (fuel t x : ℕ) (xs : List ℕ) (s : SimpleSocket)
    → length s.recv_buffer.buffer ≡ 4096
    → s.recv_buffer.total_size ≡ pos t
    → 0 < t
    → t + length (x ∷ xs) ≤ 4096
    → on_received fuel (x ∷ xs) s ≡ recv_done fuel (arrived t (x ∷ xs) s)
unfolding on_received
on_received-next fuel t x xs s l e some_bytes bound =
    let on : is_positive s.recv_buffer.total_size ≡ true =
      ap is_positive e ∙ lt→ltb 0 t some_bytes in
    let now : on_received fuel (x ∷ xs) s ≡ place fuel s.recv_buffer.total_size (x ∷ xs) s =
      rw on refl in
    now ∙ ap (λ z. place fuel z (x ∷ xs) s) e ∙ place-arrived fuel t (x ∷ xs) s l bound

-- A packet with up to 4091 bytes of data that comes as a whole while the receive buffer counts no
-- bytes is filed as it is, and the buffer counts no bytes again. A bound of two rounds is enough.
pub on_received-whole :
    (fuel size command : ℕ) (payload : List ℕ) (s : SimpleSocket)
    → length s.recv_buffer.buffer ≡ 4096
    → is_positive s.recv_buffer.total_size ≡ false
    → length payload ≡ size
    → size ≤ 4091
    → 1 < fuel
    → (b : List ℕ) × (length b ≡ 4096)
      × (on_received fuel (message size command payload) s
          ≡ done (record s {
            recv_buffer_list =
                s.recv_buffer_list
                ++ (record {
                  total_size = pos (size + 5);
                  current_size = pos 0;
                  buffer = message size command payload ++ drop (size + 5) zeros;
                }
                    ∷ []);
            recv_buffer = record {
              total_size = pos 0;
              current_size = s.recv_buffer.current_size;
              buffer = b;
            };
          }))
on_received-whole fuel size command payload s l p e bound enough =
    let bytes = message size command payload in
    let b = bytes ++ drop (0 + length bytes) s.recv_buffer.buffer in
    let k = size + 5 in
    let len : length bytes ≡ k = omega arith in
    let full : length b ≡ 4096 = omega (
      arith,
      len,
      length-append bytes (drop (0 + length bytes) s.recv_buffer.buffer),
      length-drop (0 + length bytes) s.recv_buffer.buffer,
    ) in
    let count : 0 + length bytes ≡ 1 * k + 0 = omega arith in
    let filed =
      recv_done_copies 1 fuel k 0 (arrived 0 bytes s) full
        (packet_size-message size command payload (drop (0 + length bytes) s.recv_buffer.buffer)
          bound)
        (omega arith) (ap pos count) (omega arith) (omega arith) enough in
    let same : take k b ≡ bytes =
      take-append k bytes (drop (0 + length bytes) s.recv_buffer.buffer) len in
    (
      b,
      full,
      on_received-first fuel (size % 256) (drop 1 bytes) s l p (omega arith)
          ∙ filed
          ∙ ap
              (λ xs. done (record (received (arrived 0 bytes s) [] 0) {
                recv_buffer_list =
                    s.recv_buffer_list
                    ++ (record {
                      total_size = pos k;
                      current_size = pos 0;
                      buffer = xs ++ drop k zeros;
                    }
                        ∷ []);
              }))
              same,
    )
