-- ===== src/SimpleSocket/Stream.antt =====
-- Runs of `SendPacket` and of the sending part of `UpdateServer` (SimpleSocket.cpp).
use network_study.Prelude.{
  ℕ, ◌-◌, ◌≡◌, ◌≤◌, ◌<◌, inl, inr, refl, sym, ap, ◌∙◌, ◌^◌, subst, ◌==◌, true, false, List, [], ◌∷◌,
  ◌++◌, Option, none, some, ◌>>=◌, ltb, length, take, take-all, arith, lt→ltb, append_assoc,
  append-nil, All, min, if◌then◌else◌,
}
use network_study.Prelude.Int.{ℤ, pos, negsuc, is_positive, to_size, sub_int}
use network_study.Bytes.{read, read_out}
use network_study.SimpleSocket.{
  SimpleSocket, new_socket, send_packet, offered, same_int, advance, update_sending,
}
use network_study.SimpleSocket.Pending.{
  sending, Busy-sending, offered-sending, Ready, pending, unsent,
}
use network_study.SimpleSocket.Sending.{send_packet-pending, update_sending-pending}
use network_study.SimpleSocket.Framing.{length-zeros}

-- A packet to send, or an update in which `send` takes at most `most` of what it is offered.
pub data Call : Type 0 where
  packet : List ℕ → Call
  update : (most : ℕ) → Call

abbrev pub Fits : Call → Type 0
Fits (packet bytes) = (0 < length bytes) × (length bytes ≤ 4096)
Fits (update most) = Unit

abbrev pub packets : List Call → List ℕ
packets [] = []
packets (packet bytes ∷ calls) = bytes ++ packets calls
packets (update most ∷ calls) = packets calls

-- What the network takes of the bytes that it is offered.
abbrev accepted : ℕ → List ℕ → List ℕ
accepted most bytes = take (min most (length bytes)) bytes

-- What the network gets in an update: some of what is handed to `send`, if `send` is called.
abbrev sent : ℕ → SimpleSocket → Option (List ℕ)
sent most s =
    if is_positive s.send_buffer.total_size
    then (offered s >>= λ bytes. some (accepted most bytes))
    else some []

-- The bytes that the network gets, and the state that is reached.
pub run : List Call → SimpleSocket → Option (List ℕ × SimpleSocket)
unfolding send_packet update_sending offered
run [] s = some ([], s)
run (packet bytes ∷ calls) s = send_packet bytes (pos (length bytes)) s >>= λ u. run calls u
run (update most ∷ calls) s = do
  bytes ← sent most s
  u ← update_sending (λ bytes. pos (min most (length bytes))) s
  rest ← run calls u
  some (bytes ++ rest.0, rest.1)

pub new_socket-Ready : Ready new_socket
unfolding new_socket
new_socket-Ready = (length-zeros, tt, inl (refl, refl))

-- What is handed to `send` are the bytes that are still to be sent.
sent_lem :
    (most : ℕ) (s : SimpleSocket)
    → Ready s
    → sent most s ≡ some (accepted most (unsent s.send_buffer))
unfolding offered
sent_lem most s (l, q, inl (idle, none_waits)) =
    let off : is_positive s.send_buffer.total_size ≡ false = ap is_positive idle in
    rw off (ap some (sym (take-all (min most 0) [] (omega arith))))
sent_lem most s (l, q, inr (t, c, e, f, small, bound)) =
    let on : ltb 0 t ≡ true = lt→ltb 0 t (omega arith) in
    let busy : sent most (sending t c s)
        ≡ some (accepted most (unsent (sending t c s).send_buffer)) =
      rw on (
        ap (λ o. o >>= λ bytes. some (accepted most bytes))
          (offered-sending t c s l small bound)) in
    subst (λ x. sent most x ≡ some (accepted most (unsent x.send_buffer)))
      (sym (Busy-sending s (t, c, e, f, small, bound))) busy

-- From a state in which the sending side is in order, no call fails, whatever portions the network
-- takes; what it has got by the end, followed by what is still to be sent, are the bytes that were
-- to be sent at the start and then those of the packets, in order.
pub run-stream :
    (calls : List Call) (s : SimpleSocket)
    → Ready s
    → All Fits calls
    → (out : List ℕ) × (u : SimpleSocket) × (run calls s ≡ some (out, u))
      × Ready u
      × (out ++ pending u ≡ pending s ++ packets calls)
unfolding run
run-stream [] s r f = ([], s, refl, r, sym (append-nil (pending s)))
run-stream (packet bytes ∷ calls) s r ((some_bytes, bound), fs) =
    let (t, done, ready, added) =
      send_packet-pending bytes (length bytes) s some_bytes bound (omega arith) r in
    let (out, u, rest, last, order) = run-stream calls t ready fs in
    (
      out,
      u,
      rw done rest,
      last,
      order
          ∙ ap (λ x. x ++ packets calls)
              (added ∙ ap (λ x. pending s ++ x) (take-all (length bytes) bytes (omega arith)))
          ∙ append_assoc (pending s) bytes (packets calls),
    )
run-stream (update most ∷ calls) s r (f, fs) =
    let (t, done, ready, gone) =
      update_sending-pending (λ bytes. min most (length bytes)) s (λ bytes. omega arith) r in
    let (out, u, rest, last, order) = run-stream calls t ready fs in
    (
      accepted most (unsent s.send_buffer) ++ out,
      u,
      rw (sent_lem most s r, done, rest) refl,
      last,
      append_assoc (accepted most (unsent s.send_buffer)) out (pending u)
          ∙ ap (λ x. accepted most (unsent s.send_buffer) ++ x) order
          ∙ sym (append_assoc (accepted most (unsent s.send_buffer)) (pending t) (packets calls))
          ∙ ap (λ x. x ++ packets calls) (sym gone),
    )

abbrev ThenOutOfBounds : (List ℕ → ℤ) → SimpleSocket → Type 0
ThenOutOfBounds send s =
    (u : SimpleSocket) × (update_sending (λ bytes. negsuc 0) s ≡ some u)
    × (update_sending send u ≡ none)

update_sending_failed-busy :
    (send : List ℕ → ℤ) (t : ℕ) (s : SimpleSocket)
    → length s.send_buffer.buffer ≡ 4096
    → 0 < t
    → t ≤ 4096
    → ThenOutOfBounds send (sending t 0 s)
unfolding update_sending advance offered same_int read
update_sending_failed-busy send t s l some_bytes bound =
    let on : ltb 0 t ≡ true = lt→ltb 0 t some_bytes in
    let after : SimpleSocket = record s {
      send_buffer = record {
        total_size = pos t;
        current_size = negsuc 0;
        buffer = s.send_buffer.buffer;
      };
    } in
    let more : (t == 2 ^ 64 - 1) ≡ false = ground arith in
    let counted : advance (negsuc 0) (sending t 0 s) ≡ some after = rw more refl in
    let outside : offered after ≡ none =
      let n = to_size (sub_int (pos t) (negsuc 0)) in
      read_out s.send_buffer.buffer (2 ^ 64 - 1) n (omega arith) in
    (
      after,
      rw on (
          ap (λ o. o >>= λ bytes. advance (negsuc 0) (sending t 0 s))
            (offered-sending t 0 s l some_bytes bound)
          ∙ counted),
      rw on (ap (λ o. o >>= λ bytes. advance (send bytes) after) outside),
    )

-- If the sending side is in order and `send` fails when none of a packet has been sent, its -1 is
-- added to the count, and the next update, whatever `send` would return in it, reads out of bounds.
update_sending_failed :
    (send : List ℕ → ℤ) (s : SimpleSocket)
    → Ready s
    → is_positive s.send_buffer.total_size ≡ true
    → s.send_buffer.current_size ≡ pos 0
    → (u : SimpleSocket) × (update_sending (λ bytes. negsuc 0) s ≡ some u)
      × (update_sending send u ≡ none)
unfolding update_sending
update_sending_failed send s (l, q, inl (idle, none_waits)) p z =
    let off : is_positive s.send_buffer.total_size ≡ false = ap is_positive idle in absurd (cc)
update_sending_failed send s (l, q, inr (t, c, e, f, small, most)) p z =
    subst (λ x. ThenOutOfBounds send x) (sym (Busy-sending s (t, 0, e, z, omega arith, most)))
      (update_sending_failed-busy send t s l (omega arith) most)
