-- ===== src/Connection/Returning.antt =====
-- The handlers of a write and the posted ones of net_connection.h return, and leave the connection in order.
use network_study.Prelude.{
  ℕ, ◌≡◌, refl, ap, ◌>>=◌, ◌∙◌, Bool, true, false, List, [], ◌∷◌, ◌++◌, Option, some, if◌then◌else◌,
  arith, All, Bool-cases, inl, inr, ltb, length,
}
use network_study.TsQueue.{front}
use network_study.Message.{Message}
use network_study.Connection.{
  Codec, server, OwnedMessage, Post, post_send, post_close, WriteOp, writing_header, writing_body,
  Connection, close, write_next, write_body, on_write_header, on_write_body, on_send,
}
use network_study.Connection.Handlers.{run_posts, run_writes, run_post, run_write}

module _ {ℓ} {T : Type ℓ} where
  -- At most one write is under way, and its message is at the front of the queue.
  pub data Sending (writes : List WriteOp) (q : List (Message T)) : Type ℓ where
    idle : writes ≡ [] → Sending writes q
    busy :
        (op : WriteOp) (m : Message T) (r : List (Message T))
        → writes ≡ op ∷ []
        → q ≡ m ∷ r
        → Sending writes q

  -- A message whose sender is known.
  abbrev pub HasSender : OwnedMessage T → Type 0
  HasSender m = (p : ℕ) × (m.remote ≡ some p)

  -- A connection of a server that is in order.
  pub record Fit (c : Connection T) : Type ℓ where
    pub owned : c.owner_type ≡ server
    pub sending : Sending c.writes c.send_deq

  -- The handler returns, and leaves the connection in order, with its id.
  abbrev pub Returns : Connection T → Option (Connection T) → Type ℓ
  Returns c o = (d : Connection T) × (o ≡ some d) × Fit d × (d.id ≡ c.id) × All HasSender d.recv_deq

module _ {ℓ} {T : Type ℓ} (codec : Codec T) where
  write_next-Returns :
      (c : Connection T) (m : Message T) (r : List (Message T))
      → c.owner_type ≡ server
      → All HasSender c.recv_deq
      → c.writes ≡ []
      → c.send_deq ≡ m ∷ r
      → Returns c (write_next codec c)
  unfolding write_next
  write_next-Returns c m [] owned senders w q = (
    record c { send_deq = [] },
    rw q refl,
    record { owned = owned; sending = idle w },
    refl,
    senders,
  )
  write_next-Returns c m (n ∷ r) owned senders w q =
      let op = writing_header (codec.encode n.header) in
      (
        record c { send_deq = n ∷ r; writes = c.writes ++ (op ∷ []) },
        rw q refl,
        record { owned = owned; sending = busy op n r (ap (λ ws. ws ++ (op ∷ [])) w) refl },
        refl,
        senders,
      )

  on_send-Returns :
      (c : Connection T) (msg : Message T)
      → c.owner_type ≡ server
      → All HasSender c.recv_deq
      → (q : List (Message T)) → c.send_deq ≡ q
      → Sending c.writes q
      → Returns c (on_send codec msg c)
  unfolding on_send
  on_send-Returns c msg owned senders [] e (idle w) =
      let op = writing_header (codec.encode msg.header) in
      (
        record c { send_deq = msg ∷ []; writes = c.writes ++ (op ∷ []) },
        rw (on_send, e) refl,
        record { owned = owned; sending = busy op msg [] (ap (λ ws. ws ++ (op ∷ [])) w) refl },
        refl,
        senders,
      )
  on_send-Returns c msg owned senders [] e (busy op m r w q) = absurd (cc)
  on_send-Returns c msg owned senders (n ∷ ns) e (idle w) = (
    record c { send_deq = (n ∷ ns) ++ (msg ∷ []) },
    rw (on_send, e) refl,
    record { owned = owned; sending = idle w },
    refl,
    senders,
  )
  on_send-Returns c msg owned senders (n ∷ ns) e (busy op m r w q) = (
    record c { send_deq = (n ∷ ns) ++ (msg ∷ []) },
    rw (on_send, e) refl,
    record { owned = owned; sending = busy op n (ns ++ (msg ∷ [])) w refl },
    refl,
    senders,
  )

  write_last :
      (c : Connection T) (m : Message T) (r : List (Message T))
      → c.send_deq ≡ m ∷ r
      → ltb 0 (length m.body) ≡ false
      → on_write_header codec false c ≡ write_next codec c
  unfolding on_write_header front
  write_last c m r q last =
      ap
        (λ ms. front ms >>= λ n.
          if ltb 0 (length n.body) then write_body codec c else write_next codec c)
        q
      ∙ ap (λ b. if b then write_body codec c else write_next codec c) last

  -- The handlers of a write that has completed or failed, at the front of the queue.
  on_write_header-Returns :
      (error : Bool) (c : Connection T) (m : Message T) (r : List (Message T))
      → c.owner_type ≡ server
      → All HasSender c.recv_deq
      → c.writes ≡ []
      → c.send_deq ≡ m ∷ r
      → Returns c (on_write_header codec error c)
  unfolding on_write_header close write_body
  on_write_header-Returns true c m r owned senders w q =
      (close c, refl, record { owned = owned; sending = idle w }, refl, senders)
  on_write_header-Returns false c m r owned senders w q =
      elim (Bool-cases (ltb 0 (length m.body))) [
        | inl more ↦
            let op = writing_body m.body in
            (
              record c { writes = c.writes ++ (op ∷ []) },
              rw (on_write_header, q, more) refl,
              record { owned = owned; sending = busy op m r (ap (λ ws. ws ++ (op ∷ [])) w) q },
              refl,
              senders,
            )
        | inr last ↦
            let (d, goes, fit, same_id, known) = write_next-Returns c m r owned senders w q in
            (d, write_last c m r q last ∙ goes, fit, same_id, known)
      ]

  on_write_body-Returns :
      (error : Bool) (c : Connection T) (m : Message T) (r : List (Message T))
      → c.owner_type ≡ server
      → All HasSender c.recv_deq
      → c.writes ≡ []
      → c.send_deq ≡ m ∷ r
      → Returns c (on_write_body codec error c)
  unfolding on_write_body close
  on_write_body-Returns true c m r owned senders w q =
      (close c, refl, record { owned = owned; sending = idle w }, refl, senders)
  on_write_body-Returns false c m r owned senders w q = write_next-Returns c m r owned senders w q

  run_writes-Returns :
      (error : Bool) (ops : List WriteOp) (c : Connection T)
      → c.writes ≡ ops
      → Fit c
      → All HasSender c.recv_deq
      → Returns c (run_writes codec error ops c)
  unfolding run_writes
  run_writes-Returns error [] c w fit senders = (c, refl, fit, refl, senders)
  run_writes-Returns error (op ∷ ops) c w fit senders = elim fit.sending [
    | idle none_now ↦ absurd (cc)
    | busy one m r now q ↦
        let rest : ops ≡ [] = ground arith in
        let next = record c { writes = ops } in
        elim op as (λ o. Returns c (run_writes codec error (o ∷ ops) c)) [
          | writing_header bytes ↦ on_write_header-Returns error next m r fit.owned senders rest q
          | writing_body bytes ↦ on_write_body-Returns error next m r fit.owned senders rest q
        ]
  ]

  pub run_write-Returns :
      (error : Bool) (c : Connection T)
      → Fit c
      → All HasSender c.recv_deq
      → Returns c (run_write codec error c)
  unfolding run_write
  run_write-Returns error c = run_writes-Returns error c.writes c refl

  run_posts-Returns :
      (ps : List (Post T)) (c : Connection T)
      → Fit c
      → All HasSender c.recv_deq
      → Returns c (run_posts codec ps c)
  unfolding run_posts close
  run_posts-Returns [] c fit senders = (c, refl, fit, refl, senders)
  run_posts-Returns (post_send msg ∷ ps) c fit senders =
      on_send-Returns (record c { posts = ps }) msg fit.owned senders c.send_deq refl fit.sending
  run_posts-Returns (post_close ∷ ps) c fit senders = (
    close (record c { posts = ps }),
    refl,
    record { owned = fit.owned; sending = fit.sending },
    refl,
    senders,
  )

  pub run_post-Returns :
      (c : Connection T) → Fit c → All HasSender c.recv_deq → Returns c (run_post codec c)
  unfolding run_post
  run_post-Returns c = run_posts-Returns c.posts c
