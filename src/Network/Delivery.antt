-- ===== src/Network/Delivery.antt =====
-- From `Write` of one network to `Read` of another (Network.cpp, SimpleSocket.cpp).
use network_study.Prelude.{
  ℕ, ◌+◌, ◌-◌, ◌%◌, ◌^◌, ◌≡◌, ◌≤◌, ◌<◌, refl, ap, ◌∙◌, true, false, List, [], ◌∷◌, ◌++◌, Option,
  some, length, take, drop, arith, length-append, take-append,
}
use network_study.Prelude.Int.{pos, is_positive, int_of_size}
use network_study.SimpleSocket.{SimpleSocket, done, zeros, send_packet, offered, on_received}
use network_study.SimpleSocket.Framing.{copy_lem}
use network_study.SimpleSocket.Pending.{Idle, offered-sending, length-overwrite, take-overwrite}
use network_study.SimpleSocket.Receiving.{message}
use network_study.Network.{Command, Network, write_packet, read_packet}
use network_study.Network.Commands.{padding, packet_of-message, read_packet-received}

-- The state in which a packet of `n` bytes is to be sent, and none of it has been.
abbrev loaded : List ℕ → ℕ → SimpleSocket → SimpleSocket
loaded bytes n s = record s {
  send_buffer = record {
    total_size = pos n;
    current_size = pos 0;
    buffer = take n bytes ++ drop n s.send_buffer.buffer;
  };
}

send_packet-Idle :
    (bytes : List ℕ) (n : ℕ) (s : SimpleSocket)
    → length s.send_buffer.buffer ≡ 4096
    → Idle s
    → n ≤ 4096
    → n ≤ length bytes
    → send_packet bytes (pos n) s ≡ some (loaded bytes n s)
unfolding send_packet
send_packet-Idle bytes n s l (idle, none_waits) bound enough =
    let off : is_positive s.send_buffer.total_size ≡ false = ap is_positive idle in
    rw (off, copy_lem s.send_buffer.buffer bytes n enough (omega arith)) refl

offered-loaded :
    (bytes : List ℕ) (n : ℕ) (s : SimpleSocket)
    → length s.send_buffer.buffer ≡ 4096
    → 0 < n
    → n ≤ 4096
    → n ≤ length bytes
    → offered (loaded bytes n s) ≡ some (take n bytes)
offered-loaded bytes n s l some_bytes bound enough =
    let b = take n bytes ++ drop n s.send_buffer.buffer in
    let whole : n - 0 ≡ n = omega arith in
    let len : length b ≡ 4096 =
      length-overwrite bytes s.send_buffer.buffer n enough (omega arith) ∙ l in
    offered-sending n 0 (loaded bytes n s) len some_bytes bound
    ∙ ap (λ k. some (take k b)) whole
    ∙ ap some (take-overwrite bytes s.send_buffer.buffer n enough)

-- A network that is enabled and has nothing to send.
abbrev with : Option (List Command) → SimpleSocket → Network
with commander s = record { enable = true; commander = commander; socket = some s }

-- What one network writes another reads, but for the data. If the sender has nothing else to send,
-- `Write` of up to 4091 bytes makes its socket offer the bytes of one packet to `send`; if they come to
-- the other network as a whole, while it holds no packet and counts no bytes, its `Read` adds one
-- command, which has the same number and 4096 zeros for its data.
delivered :
    (fuel packet n : ℕ) (payload : List ℕ) (s r : SimpleSocket) (commander : Option (List Command))
    → (commands : List Command) → length payload ≡ n
    → n ≤ 4091
    → length s.send_buffer.buffer ≡ 4096
    → Idle s
    → length r.recv_buffer.buffer ≡ 4096
    → is_positive r.recv_buffer.total_size ≡ false
    → r.recv_buffer_list ≡ []
    → 1 < fuel
    → (t : SimpleSocket) × (bytes : List ℕ) × (u : SimpleSocket) × (v : SimpleSocket)
      × (write_packet packet payload (pos n) (with commander s) ≡ some (true, with commander t))
      × (offered t ≡ some bytes)
      × (on_received fuel bytes r ≡ done u)
      × (read_packet (with (some commands) u)
          ≡ some (
            true,
            with (some (commands ++ (record { packet = packet; payload = zeros } ∷ []))) v,
          ))
unfolding write_packet
delivered fuel packet n payload s r commander commands e bound l idle l' p none_before enough =
    let whole = message n packet payload in
    let bytes = whole ++ padding payload in
    let size : int_of_size ((n + 5) % 2 ^ 64) ≡ pos (n + 5) = ground arith in
    let len : length whole ≡ n + 5 = omega arith in
    let long : n + 5 ≤ length bytes = omega (arith, length-append whole (padding payload)) in
    let (u, v, came, reads, none_after) =
      read_packet-received fuel n packet payload r commands l' p none_before e bound enough in
    (
      loaded bytes (n + 5) s,
      whole,
      u,
      v,
      rw
          (
            write_packet,
            packet_of-message packet n payload e bound,
            size,
            send_packet-Idle bytes (n + 5) s l idle (omega arith) long,
          )
          refl,
      offered-loaded bytes (n + 5) s l (omega arith) (omega arith) long
          ∙ ap some (take-append (n + 5) whole (padding payload) len),
      came,
      reads,
    )
