-- ===== src/Connection/Sending.antt =====
-- What `Send` promises over every run of a connection.
use network_study.Prelude.{
  ℕ, ◌≤◌, ◌≡◌, ◌≢◌, refl, ◌∙◌, inl, inr, Bool, true, false, List, [], ◌∷◌, ◌++◌, append-nil, none,
  some, length, arith, ◌↔◌,
}
use network_study.Message.{Message}
use network_study.Connection.{
  Codec, Owner, OwnedMessage, WriteOp, Connection, new_connection, close, on_connect,
  connect_to_client, connect_to_server, disconnect, send, write_next, on_write_header,
  on_write_body,
}
use network_study.Connection.System.{
  Net, Step, sends, disconnects, accepts, connects, arrive, connected, run_send, run_close,
  wrote_header, wrote_body, header_failed, body_failed, read, read_failed, Reach, here, next, fresh,
  read_step, fail_read,
}
use network_study.Connection.Writing.{
  frames, Phase, quiet, in_header, in_body, broken, PhaseOf, on_send-Phase, wrote_header-Phase,
  wrote_body-Phase, failed-Phase,
}

module _ {ℓ} {T : Type ℓ} (codec : Codec T) where
  -- The steps that leave the sending side alone.
  abbrev SameSending : Connection T → Connection T → Type ℓ
  SameSending c d = (d.writes ≡ c.writes) × (d.send_deq ≡ c.send_deq)

  same-Phase :
      (c d : Connection T) {failed : Bool} {out : List ℕ} {acc : List (Message T)}
      → SameSending c d
      → Phase codec failed c.writes c.send_deq out acc
      → Phase codec failed d.writes d.send_deq out acc
  same-Phase c d (w, q) p = rw (w, q) p

  read_step-Same :
      (c d : Connection T) (input rest : List ℕ)
      → read_step codec c input ≡ some (d, rest)
      → SameSending c d
  unfolding read_step
  read_step-Same c d input rest h = ground arith

  -- Every event keeps the sending side in one of its phases.
  pub Step-Phase : {s t : Net T} → Step codec s t → PhaseOf codec s → PhaseOf codec t
  unfolding send disconnect connect_to_client connect_to_server on_connect close fail_read
      on_write_header on_write_body
  Step-Phase (sends msg) v = v
  Step-Phase {s} disconnects v = same-Phase s.peer (disconnect s.peer) (ground arith) v
  Step-Phase {s} (accepts uid) v = same-Phase s.peer (connect_to_client uid s.peer) (ground arith) v
  Step-Phase {s} (connects opened) v =
      same-Phase s.peer (connect_to_server opened s.peer) (ground arith) v
  Step-Phase (arrive bytes) v = v
  Step-Phase {s} (connected {n} ec p) v =
      same-Phase s.peer (on_connect ec (record s.peer { connecting = n })) (ground arith) v
  Step-Phase {s} (run_send {msg} {ps} {c} p h) v =
      on_send-Phase codec (record s.peer { posts = ps }) {d = c} msg s.out s.accepted v h
  Step-Phase (run_close p) v = v
  Step-Phase {s} (wrote_header {c = c} p h) v =
      wrote_header-Phase codec s.peer {d = c} s.out s.accepted v p h
  Step-Phase {s} (wrote_body {c = c} p h) v =
      wrote_body-Phase codec s.peer {d = c} s.out s.accepted v p h
  Step-Phase {s} (header_failed {b} {ws} {c} k p h) v =
      same-Phase (record s.peer { writes = ws }) c (ground arith)
        (failed-Phase codec s.peer {b = b} k s.out s.accepted v p (inl refl))
  Step-Phase {s} (body_failed {b} {ws} {c} k p h) v =
      same-Phase (record s.peer { writes = ws }) c (ground arith)
        (failed-Phase codec s.peer {b = b} k s.out s.accepted v p (inr refl))
  Step-Phase {s} (read {c} {rest} h) v =
      same-Phase s.peer c (read_step-Same s.peer c s.input rest h) v
  Step-Phase {s} (read_failed {op} {rs} t p) v =
      same-Phase s.peer (fail_read codec op (record s.peer { reads = rs; temp_msg = t }))
        (ground arith) v

  Reach-Phase : {s t : Net T} → Reach codec s t → PhaseOf codec s → PhaseOf codec t
  Reach-Phase here v = v
  Reach-Phase (next r st) v = Step-Phase st (Reach-Phase r v)

  phase_stream :
      (s : Net T)
      → PhaseOf codec s
      → ((rest : List ℕ) × (s.out ++ rest ≡ frames codec s.accepted))
        × (s.peer.send_deq ≡ [] → s.out ≡ frames codec s.accepted)
  phase_stream s (quiet f w q e) = (([], append-nil s.out ∙ e), λ _. e)
  phase_stream s (in_header m r f w q e) = ((frames codec (m ∷ r), e), λ z. cc)
  phase_stream s (in_body m r f w q e) = ((m.body ++ frames codec r, e), λ z. cc)
  phase_stream s (broken rest m r f w q e) = ((rest, e), λ z. cc)

  phase_writes :
      (s : Net T)
      → PhaseOf codec s
      → (length s.peer.writes ≤ 1)
        × (s.failed ≡ false → (s.peer.writes ≡ []) ↔ (s.peer.send_deq ≡ []))
        × (s.failed ≡ true → (s.peer.writes ≡ []) × (s.peer.send_deq ≢ []))
  phase_writes s (quiet f w q e) = ground arith
  phase_writes s (in_header m r f w q e) = ground arith
  phase_writes s (in_body m r f w q e) = ground arith
  phase_writes s (broken rest m r f w q e) = ground arith

  -- What the handlers of a write need to find: a message at the front of the queue.
  phase_front :
      (s : Net T) (op : WriteOp) (ws : List WriteOp)
      → PhaseOf codec s
      → s.peer.writes ≡ op ∷ ws
      → (m : Message T) × (r : List (Message T)) × (s.peer.send_deq ≡ m ∷ r)
  phase_front s op ws (quiet f w q e) p = cc
  phase_front s op ws (in_header m r f w q e) p = (m, r, q)
  phase_front s op ws (in_body m r f w q e) p = (m, r, q)
  phase_front s op ws (broken rest m r f w q e) p = cc

  write_next-ne-none :
      (c : Connection T) (m : Message T) (r : List (Message T))
      → c.send_deq ≡ m ∷ r
      → write_next codec c ≢ none
  unfolding write_next
  write_next-ne-none c m [] q = ground arith
  write_next-ne-none c m (n ∷ r) q = ground arith

  on_write_header-ne-none :
      (c : Connection T) (m : Message T) (r : List (Message T))
      → c.send_deq ≡ m ∷ r
      → on_write_header codec false c ≢ none
  unfolding on_write_header
  on_write_header-ne-none c m [] q = ground arith
  on_write_header-ne-none c m (n ∷ r) q = ground arith

  module _ (parent : Owner) (self : ℕ) (is_open : Bool) (q_in : List (OwnedMessage T))
      (no_id : T) where
    -- A run of a new connection.
    abbrev pub Run : Net T → Type ℓ
    Run s = Reach codec (fresh codec parent self is_open q_in no_id) s

    Run-Phase : {s : Net T} → Run s → PhaseOf codec s
    unfolding new_connection
    Run-Phase r = Reach-Phase r (quiet refl refl refl refl)

    -- The bytes that went out are the frames of the messages whose `Send` has run, in order and
    -- without a gap: a prefix of them at any time, and all of them when the queue is empty.
    pub out_is_prefix :
        (s : Net T)
        → Run s
        → ((rest : List ℕ) × (s.out ++ rest ≡ frames codec s.accepted))
          × (s.peer.send_deq ≡ [] → s.out ≡ frames codec s.accepted)
    out_is_prefix s r = phase_stream s (Run-Phase r)

    -- At most one write is outstanding. Until a write fails there is one exactly while messages wait;
    -- after a failure there is none, and the messages that wait are never sent.
    pub one_write :
        (s : Net T)
        → Run s
        → (length s.peer.writes ≤ 1)
          × (s.failed ≡ false → (s.peer.writes ≡ []) ↔ (s.peer.send_deq ≡ []))
          × (s.failed ≡ true → (s.peer.writes ≡ []) × (s.peer.send_deq ≢ []))
    one_write s r = phase_writes s (Run-Phase r)

    -- No handler of a write that has completed reads the front of an empty queue.
    write_handlers_defined :
        (s : Net T) (op : WriteOp) (ws : List WriteOp)
        → Run s
        → s.peer.writes ≡ op ∷ ws
        → let c = record s.peer { writes = ws } in
          (on_write_header codec false c ≢ none) × (on_write_body codec false c ≢ none)
    unfolding on_write_body
    write_handlers_defined s op ws r p =
        let (m, rest, q) = phase_front s op ws (Run-Phase r) p in
        (
          on_write_header-ne-none (record s.peer { writes = ws }) m rest q,
          write_next-ne-none (record s.peer { writes = ws }) m rest q,
        )
