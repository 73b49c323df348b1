-- ===== src/Tests/Packets.antt =====
-- A packet socket that sends and receives small packets.
use network_study.Prelude.{ℕ, ◌≡◌, refl, List, [], ◌∷◌, ◌++◌, some, replicate, arith}
use network_study.Prelude.Int.{pos}
use network_study.SimpleSocket.{
  SimpleSocket, done, running, new_socket, packet_size, recv_done, on_received,
}
use network_study.SimpleSocket.Framing.{
  packet, received, length-zeros, recv_done_copies, recv_done_endless,
}
use network_study.SimpleSocket.Pending.{Ready, pending}
use network_study.SimpleSocket.Stream.{Call, new_socket-Ready, run, run-stream}
use network_study.SimpleSocket.Receiving.{message}
use network_study.SimpleSocket.Parts.{Part, receive_all, receive_all_lem}

abbrev fresh : SimpleSocket
unfolding new_socket
fresh = new_socket

-- A socket with `t` bytes in its receive buffer.
abbrev holding : ℕ → List ℕ → SimpleSocket
holding t buffer = record fresh {
  recv_buffer = record { total_size = pos t; current_size = pos 0; buffer = buffer };
}

-- Two packets of six bytes, and room up to 4096.
abbrev two_packets : List ℕ
two_packets = message 1 7 (65 ∷ []) ++ (message 1 8 (66 ∷ []) ++ replicate 4084 0)

recv_done_copies_example :
    recv_done 3 (holding 12 two_packets)
    ≡ done (received (holding 12 two_packets) (replicate 2 (packet 6 two_packets)) 0)
unfolding packet_size
recv_done_copies_example =
    recv_done_copies 2 3 6 0 (holding 12 two_packets) refl refl (omega arith) refl (omega arith)
      (omega arith) (omega arith)

-- Eight bytes, the first four of which are those of -5.
abbrev backwards : List ℕ
backwards = 251 ∷ 255 ∷ 255 ∷ 255 ∷ replicate 4092 0

recv_done_endless_example : recv_done 1000 (holding 8 backwards) ≡ running
unfolding packet_size
recv_done_endless_example =
    recv_done_endless 1000 8 (holding 8 backwards) refl refl refl (omega arith) (omega arith)

-- The packet comes in a part of three bytes, one of one and one of three.
abbrev parts : List Part
parts = (2, 0 ∷ 0 ∷ []) ∷ (0, []) ∷ (7, 65 ∷ 66 ∷ []) ∷ []

receive_all_lem_example :
    (t : SimpleSocket) × (receive_all 2 parts fresh ≡ done t)
    × (on_received 2 (message 2 7 (65 ∷ 66 ∷ [])) fresh ≡ done t)
unfolding new_socket
receive_all_lem_example =
    receive_all_lem 2 2 7 (65 ∷ 66 ∷ []) parts fresh length-zeros refl refl (omega arith)
      (omega arith) refl

abbrev calls : List Call
calls = Call.packet (1 ∷ 2 ∷ []) ∷ Call.update 1 ∷ Call.packet (3 ∷ []) ∷ Call.update 5 ∷ []

run-stream_example :
    (out : List ℕ) × (u : SimpleSocket) × (run calls fresh ≡ some (out, u))
    × Ready u
    × (out ++ pending u ≡ 1 ∷ 2 ∷ 3 ∷ [])
unfolding new_socket
run-stream_example =
    run-stream calls fresh new_socket-Ready
      ((omega arith, omega arith), (tt, ((omega arith, omega arith), (tt, tt))))
