-- ===== src/Network/Commands.antt =====
-- What `Write` puts on the wire and what `Read` makes of it (Network.cpp).
use network_study.Prelude.{
  ℕ, ◌+◌, ◌*◌, ◌%◌, ◌^◌, ◌≡◌, ◌≤◌, ◌<◌, refl, sym, ap, ◌∙◌, true, false, List, [], ◌∷◌, ◌++◌,
  Option, some, length, drop, arith, le→leb, length-append, length-drop, take-all, take-append,
  drop-append, drop-drop,
}
use network_study.Prelude.Int.{pos, is_positive, int_of_size}
use network_study.Bytes.{read, write, uint32_bytes, read_start, read_in}
use network_study.SimpleSocket.{SocketBuffer, SimpleSocket, done, zeros, recv_packet, on_received}
use network_study.SimpleSocket.Framing.{length-zeros}
use network_study.SimpleSocket.Pending.{Ready, pending}
use network_study.SimpleSocket.Sending.{send_packet-pending}
use network_study.SimpleSocket.Receiving.{message, on_received-whole}
use network_study.Network.{
  Command, Network, add_command, packet_of, write_packet, parse_packet, parse_next, read_packet,
}

write-after :
    (xs ys d : List ℕ)
    → length d ≤ length ys
    → write (xs ++ ys) (length xs) d ≡ some (xs ++ (d ++ drop (length d) ys))
unfolding write
write-after xs ys d h =
    let back : drop (length xs + length d) (xs ++ ys) ≡ drop (length d) ys =
      sym (drop-drop (length d) (length xs) (xs ++ ys))
      ∙ ap (drop (length d)) (drop-append (length xs) xs ys refl) in
    rw (
      le→leb (length xs + length d) (length (xs ++ ys)) (omega (arith, length-append xs ys)),
      take-append (length xs) xs ys refl,
      back,
    )

-- The bytes behind the packet.
abbrev pub padding : List ℕ → List ℕ
padding payload = drop (length payload) (drop 1 (drop 4 zeros))

pub packet_of-message :
    (packet n : ℕ) (payload : List ℕ)
    → length payload ≡ n
    → n ≤ 4091
    → packet_of packet payload (pos n) ≡ some (message n packet payload ++ padding payload)
unfolding packet_of
packet_of-message packet n payload e bound =
    let head = uint32_bytes n in
    let five = head ++ (packet ∷ []) in
    let small : n % 2 ^ 32 ≡ n = omega arith in
    let room : length (drop 4 zeros) ≡ 4092 = omega (arith, length-drop 4 zeros, length-zeros) in
    let room' : length (drop 1 (drop 4 zeros)) ≡ 4091 =
      omega (arith, length-drop 1 (drop 4 zeros)) in
    let a : write zeros 0 (uint32_bytes (n % 2 ^ 32)) ≡ some (head ++ drop 4 zeros) =
      ap (λ k. write zeros 0 (uint32_bytes k)) small
      ∙ write-after [] zeros head (omega (arith, length-zeros)) in
    let b : write (head ++ drop 4 zeros) 4 (packet ∷ [])
        ≡ some (head ++ (packet ∷ drop 1 (drop 4 zeros))) =
      write-after head (drop 4 zeros) (packet ∷ []) (omega arith) in
    let c : write (five ++ drop 1 (drop 4 zeros)) 5 payload
        ≡ some (five ++ (payload ++ padding payload)) =
      write-after five (drop 1 (drop 4 zeros)) payload (omega arith) in
    let d : read payload 0 n ≡ some payload =
      read_start payload n (omega arith) ∙ ap some (take-all n payload (omega arith)) in
    rw (packet_of, a, b, d) c

-- While a network is enabled and the sending side of its socket is in order, `Write` succeeds for up
-- to 4091 bytes of data: it adds the bytes of one packet, header first, to those to be sent.
pub write_packet-pending :
    (packet n : ℕ) (payload : List ℕ) (s : SimpleSocket) (commander : Option (List Command))
    → length payload ≡ n
    → n ≤ 4091
    → Ready s
    → (t : SimpleSocket) × (write_packet packet payload
          (pos n)
          (record { enable = true; commander = commander; socket = some s })
        ≡ some (true, record { enable = true; commander = commander; socket = some t }))
      × Ready t
      × (pending t ≡ pending s ++ message n packet payload)
unfolding write_packet
write_packet-pending packet n payload s commander e bound r =
    let bytes = message n packet payload ++ padding payload in
    let size : int_of_size ((n + 5) % 2 ^ 64) ≡ pos (n + 5) = ground arith in
    let len : length (message n packet payload) ≡ n + 5 = omega arith in
    let (t, sent, ready, added) =
      send_packet-pending bytes (n + 5) s (omega arith) (omega arith)
        (omega (arith, length-append (message n packet payload) (padding payload))) r in
    (
      t,
      rw (write_packet, packet_of-message packet n payload e bound, size, sent) refl,
      ready,
      added
          ∙ ap (λ x. pending s ++ x)
              (take-append (n + 5) (message n packet payload) (padding payload) len),
    )

-- A packet that comes as a whole, while no other is there, is handed on by `Read` with its command,
-- but without its data: the command that is added has 4096 zeros in their place.
pub read_packet-received :
    (fuel size packet : ℕ) (payload : List ℕ) (s : SimpleSocket) (commands : List Command)
    → length s.recv_buffer.buffer ≡ 4096
    → is_positive s.recv_buffer.total_size ≡ false
    → s.recv_buffer_list ≡ []
    → length payload ≡ size
    → size ≤ 4091
    → 1 < fuel
    → (t : SimpleSocket) × (u : SimpleSocket) × (on_received fuel (message size packet payload) s
        ≡ done t)
      × (read_packet (record { enable = true; commander = some commands; socket = some t })
          ≡ some (
            true,
            record {
              enable = true;
              commander = some (commands ++ (record { packet = packet; payload = zeros } ∷ []));
              socket = some u;
            },
          ))
      × (u.recv_buffer_list ≡ [])
unfolding read_packet parse_next parse_packet add_command recv_packet
read_packet-received fuel size packet payload s commands l p none_before e bound enough =
    let (b, full, came) = on_received-whole fuel size packet payload s l p e bound enough in
    let bytes = message size packet payload ++ drop (size + 5) zeros in
    let filed : SocketBuffer = record {
      total_size = pos (size + 5);
      current_size = pos 0;
      buffer = bytes;
    } in
    let state : List SocketBuffer → SimpleSocket = λ ps. record s {
      recv_buffer_list = ps;
      recv_buffer = record {
        total_size = pos 0;
        current_size = s.recv_buffer.current_size;
        buffer = b;
      };
    } in
    let only : s.recv_buffer_list ++ (filed ∷ []) ≡ filed ∷ [] =
      ap (λ ps. ps ++ (filed ∷ [])) none_before in
    let byte : packet + 256 * 0 ≡ packet = omega arith in
    let with : SimpleSocket → Network =
      λ x. record { enable = true; commander = some commands; socket = some x } in
    (
      state (s.recv_buffer_list ++ (filed ∷ [])),
      state [],
      came,
      ap (λ ps. read_packet (with (state ps))) only
          ∙ rw (read_in bytes 0 4 (omega arith), read_in bytes 4 1 (omega arith), byte) refl,
      refl,
    )
