-- ===== src/SimpleSocket/Listener.antt =====
-- What `UpdateServer` (SimpleSocket.cpp) keeps, and what becomes of its two sockets.
use network_study.Prelude.{
  ℕ, ◌+◌, ◌≡◌, ◌≢◌, ◌≤◌, ◌<◌, inl, inr, refl, ap, Bool, true, false, List, [], ◌∷◌, Option, none,
  some, if◌then◌else◌, length, take, not, ◌==◌, Bool-cases, arith,
}
use network_study.Prelude.Int.{ℤ, pos}
use network_study.Bytes.{read}
use network_study.SimpleSocket.{
  SimpleSocket, done, invalid_socket, packet_size, on_received, update_sending, SocketBuffer,
  send_done, send_done_list, advance, update_connected,
}
use network_study.SimpleSocket.Pending.{Ready}
use network_study.SimpleSocket.Sending.{update_sending-pending}
use network_study.SimpleSocket.Receiving.{arrived}
use network_study.SimpleSocket.Framing.{received}
use network_study.SimpleSocket.Bounds.{
  counted, Receives, SameSending, on_received_outcome, length-arrived,
}
use network_study.SimpleSocket.Server.{
  Calls, Updated, accept_client, leaves, update_server, greeting_text,
}

-- Both sides are in order.
abbrev pub Works : SimpleSocket → Type 0
Works s = Ready s × Receives s

-- What has come fits the receive buffer, and leaves no first packet of size -5.
abbrev pub Comes : Option (List ℕ) → SimpleSocket → Type 0
Comes none s = Unit {0}
Comes (some []) s = Unit {0}
Comes (some (x ∷ xs)) s =
    (counted s.recv_buffer.total_size + length (x ∷ xs) ≤ 4096)
    × (packet_size (arrived (counted s.recv_buffer.total_size) (x ∷ xs) s).recv_buffer.buffer
        ≢ some 0)

same-Ready : (u s : SimpleSocket) → SameSending u s → Ready s → Ready u
same-Ready u s (e, f) r = rw (e, f) r

-- Sending leaves the receiving side and the sockets alone.
abbrev pub SameReceiving : SimpleSocket → SimpleSocket → Type 0
SameReceiving t s =
    (t.recv_buffer ≡ s.recv_buffer)
    × (t.client_sock ≡ s.client_sock)
    × (t.server_sock ≡ s.server_sock)

send_done_same :
    (bs : List SocketBuffer) (s : SimpleSocket) {t : SimpleSocket}
    → send_done_list bs s ≡ some t
    → SameReceiving t s
unfolding send_done_list
send_done_same [] s h = ground arith
send_done_same (b ∷ bs) s h = ground arith

update_sending_same :
    (send : List ℕ → ℤ) (s : SimpleSocket) {t : SimpleSocket}
    → update_sending send s ≡ some t
    → SameReceiving t s
unfolding update_sending advance send_done
update_sending_same send s h = ground (arith, send_done_same s.send_buffer_list s)

sending-Works :
    (k : List ℕ → ℕ) (s : SimpleSocket)
    → ((bytes : List ℕ) → k bytes ≤ length bytes)
    → Works s
    → (t : SimpleSocket) × (update_sending (λ bytes. pos (k bytes)) s ≡ some t) × Works t
sending-Works k s fits (ready, receives) =
    let (t, sent, ready', order) = update_sending-pending k s fits ready in
    let (same, client, server) = update_sending_same (λ bytes. pos (k bytes)) s sent in
    (t, sent, (ready', rw same receives))

update_connected-Works :
    (fuel : ℕ) (select_fails : Bool) (received : Option (List ℕ)) (k : List ℕ → ℕ)
    (s : SimpleSocket)
    → ((bytes : List ℕ) → k bytes ≤ length bytes)
    → Works s
    → Comes received s
    → 4096 < fuel
    → (t : SimpleSocket) × (update_connected fuel select_fails received (λ bytes. pos (k bytes)) s
        ≡ done t)
      × Works t
unfolding update_connected on_received
update_connected-Works fuel true received k s fits w c enough = (s, refl, w)
update_connected-Works fuel false none k s fits w c enough =
    let (t, sent, w') = sending-Works k s fits w in (t, rw sent refl, w')
update_connected-Works fuel false (some []) k s fits w c enough =
    (record s { client_sock = invalid_socket }, refl, w)
update_connected-Works fuel false (some (x ∷ xs)) k s fits w c enough =
    elim (on_received_outcome fuel x xs s w.1 c.1 (omega arith)) [
      | inl (over, bad) ↦ absurd (omega arith)
      | inr (small, ps, n, ended, count) ↦
          let at = counted s.recv_buffer.total_size in
          let u = received (arrived at (x ∷ xs) s) ps n in
          let receives : Receives u = (length-arrived at (x ∷ xs) s w.1.0 small, omega arith) in
          let (t, sent, w') = sending-Works k u fits (same-Ready u s (refl, refl) w.0, receives) in
          (t, rw (ended, sent) refl, w')
    ]

accept_client-Works :
    (calls : Calls) (s : SimpleSocket)
    → Works s
    → (r : Updated) × (accept_client calls s ≡ some r) × Works r.socket
unfolding accept_client read
accept_client-Works calls s w =
    let t = record s { client_sock = calls.accepted } in
    elim (Bool-cases (calls.accepted == invalid_socket)) [
      | inl failed ↦ (
        record { closed = s.server_sock ∷ []; greeting = []; result = false; socket = t },
        rw failed refl,
        w,
      )
      | inr came ↦ elim (Bool-cases calls.ioctl_fails) [
        | inl failed ↦ (
          record { closed = []; greeting = []; result = false; socket = t },
          rw (came, failed) refl,
          w,
        )
        | inr listens ↦ (
          record {
            closed = [];
            greeting = take 8 greeting_text;
            result = not calls.greeting_fails;
            socket = t;
          },
          rw (came, listens) refl,
          w,
        )
      ]
    ]

-- `UpdateServer` keeps both sides in order, whether it waits for a client, loses one, or serves one: it
-- ends, in bounds, if the bytes that have come fit the receive buffer and do not leave a first packet
-- that states the size -5, and if `send` does not fail and takes at most what it is offered. All other
-- calls may fail.
pub update_server-Works :
    (fuel : ℕ) (calls : Calls) (k : List ℕ → ℕ) (s : SimpleSocket)
    → calls.taken ≡ (λ bytes. pos (k bytes))
    → ((bytes : List ℕ) → k bytes ≤ length bytes)
    → Works s
    → Comes calls.received s
    → 4096 < fuel
    → (r : Updated) × (update_server fuel calls s ≡ done r) × Works r.socket
unfolding update_server
update_server-Works fuel calls k s takes fits w c enough =
    elim (Bool-cases (s.client_sock == invalid_socket)) [
      | inl alone ↦
          let (r, accepts, works) = accept_client-Works calls s w in
          (r, rw (alone, accepts) refl, works)
      | inr serves ↦
          let (t, ended, works) =
            update_connected-Works fuel calls.select_fails calls.received k s fits w c enough in
          let taking =
            ap (λ f. update_connected fuel calls.select_fails calls.received f s) takes in
          (
            record {
              closed = if leaves calls then s.client_sock ∷ [] else [];
              greeting = [];
              result = true;
              socket = t;
            },
            rw (update_server, serves, taking, ended) refl,
            works,
          )
    ]
