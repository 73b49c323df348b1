-- ===== src/Tests/Listeners.antt =====
-- A packet socket that listens, and a network in the same build.
use network_study.Prelude.{
  ℕ, ◌+◌, List, ◌+◌, ◌≡◌, ◌≢◌, ◌≤◌, ◌<◌, ◌⊎◌, refl, false, [], ◌∷◌, some, length, arith, drop,
}
use network_study.Prelude.Int.{pos, negsuc}
use network_study.SimpleSocket.{
  SocketBuffer, SimpleSocket, done, fault, invalid_socket, new_socket, zeros, packet_size,
  on_received,
}
use network_study.SimpleSocket.Receiving.{packet_size-message}
use network_study.SimpleSocket.Framing.{length-zeros}
use network_study.SimpleSocket.Stream.{new_socket-Ready}
use network_study.SimpleSocket.Framing.{received}
use network_study.SimpleSocket.Receiving.{arrived}
use network_study.SimpleSocket.Bounds.{counted, sizes, on_received_outcome}
use network_study.SimpleSocket.Server.{Calls, Updated, update_server}
use network_study.SimpleSocket.Listener.{Works, update_server-Works}
use network_study.Network.{new_network, init_network}
use network_study.Network.Idle.{connects, updates, reads, writes, all_calls, never_enabled}

abbrev fresh : SimpleSocket
unfolding new_socket
fresh = new_socket

-- It listens on 3, and 5 is its client.
abbrev serving : SimpleSocket
serving = record fresh { server_sock = 3; client_sock = 5 }

-- Its size field is not -5.
sized : packet_size (2 ∷ 0 ∷ 0 ∷ 0 ∷ 7 ∷ 65 ∷ 66 ∷ drop 7 zeros) ≢ some 0
sized e =
    let size : packet_size (2 ∷ 0 ∷ 0 ∷ 0 ∷ 7 ∷ 65 ∷ 66 ∷ drop 7 zeros) ≡ some 7 =
      packet_size-message 2 7 (65 ∷ 66 ∷ []) (drop 7 zeros) (omega arith) in
    cc (size, e)

on_received_outcome_example :
    ((4096 < counted (negsuc 0) + 7)
      × (on_received 4097 (2 ∷ 0 ∷ 0 ∷ 0 ∷ 7 ∷ 65 ∷ 66 ∷ []) serving ≡ fault))
    ⊎ ((counted (negsuc 0) + 7 ≤ 4096)
        × (ps : List SocketBuffer) × (n : ℕ) × (on_received 4097
              (2 ∷ 0 ∷ 0 ∷ 0 ∷ 7 ∷ 65 ∷ 66 ∷ [])
              serving
            ≡ done (received (arrived 0 (2 ∷ 0 ∷ 0 ∷ 0 ∷ 7 ∷ 65 ∷ 66 ∷ []) serving) ps n))
        × (sizes ps + n ≡ counted (negsuc 0) + 7))
unfolding new_socket packet_size
on_received_outcome_example =
    on_received_outcome 4097 2 (0 ∷ 0 ∷ 0 ∷ 7 ∷ 65 ∷ 66 ∷ []) serving (length-zeros, omega arith)
      (λ e. sized e) (omega arith)

-- Seven bytes come, and all that is offered is sent.
abbrev coming : Calls
coming = record {
  accepted = invalid_socket;
  ioctl_fails = false;
  greeting_fails = false;
  select_fails = false;
  received = some (2 ∷ 0 ∷ 0 ∷ 0 ∷ 7 ∷ 65 ∷ 66 ∷ []);
  taken = λ bytes. pos (length bytes);
}

update_server-Works_example :
    (r : Updated) × (update_server 4097 coming serving ≡ done r) × Works r.socket
unfolding new_socket packet_size
update_server-Works_example =
    update_server-Works 4097 coming (λ bytes. length bytes) serving refl (λ bytes. omega arith)
      (new_socket-Ready, (length-zeros, omega arith)) (omega arith, λ e. sized e) (omega arith)

-- It is asked to connect, to write and to read.
never_enabled_example :
    let net = init_network false 3 false fresh new_network in
    all_calls (connects ∷ writes 7 (65 ∷ []) (pos 1) ∷ updates 1 coming ∷ reads ∷ []) net
    ≡ done ((false ∷ []) ∷ (false ∷ []) ∷ [] ∷ (false ∷ []) ∷ [], net)
never_enabled_example =
    never_enabled false 3 false fresh
      (connects ∷ writes 7 (65 ∷ []) (pos 1) ∷ updates 1 coming ∷ reads ∷ [])
