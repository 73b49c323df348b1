-- ===== src/Connection/Receiving.antt =====
-- What arrives at an end of a connection, and between two ends.
use network_study.Prelude.{
  ℕ, suc, ◌≡◌, refl, sym, ap, ap₂, ◌∙◌, Bool, List, [], ◌∷◌, ◌++◌, map, append_assoc, append-nil,
  length, ltb, nil_of_length, Bool-cases, inl, inr,
}
use network_study.Message.{Message}
use network_study.Connection.{Codec, OwnedMessage, reading_header, Connection}
use network_study.Connection.System.{Net}
use network_study.Connection.Writing.{frame, frames}
use network_study.Connection.Reading.{
  Fits, AllFit, landed, landings, reads_of, receive, owned, arrived, receive_short, receive_long,
}
use network_study.Connection.Sending.{Run, out_is_prefix}
use network_study.Connection.{Owner}

module _ {ℓ} {T : Type ℓ} (codec : Codec T) where
  abbrev after : Connection T → List (Message T) → Connection T
  after c [] = c
  after c (m ∷ ms) = after (arrived codec c m) ms

  pub receive_one :
      (ms : List (Message T)) (c : Connection T) (m : Message T) (rest : List ℕ)
      → c.reads ≡ reading_header ∷ []
      → Fits m
      → receive codec (reads_of (m ∷ ms)) c (frame codec m ++ rest)
        ≡ receive codec (reads_of ms) (arrived codec c m) rest
  receive_one ms c m rest r f = elim (Bool-cases (ltb 0 (length m.body))) [
    | inl e ↦
        let two : reads_of (m ∷ ms) ≡ suc (suc (reads_of ms)) = rw e in
        ap (λ n. receive codec n c (frame codec m ++ rest)) two
        ∙ receive_long codec (reads_of ms) c m rest r f e
    | inr e ↦
        let one : reads_of (m ∷ ms) ≡ suc (reads_of ms) = rw e in
        ap (λ n. receive codec n c (frame codec m ++ rest)) one
        ∙ receive_short codec (reads_of ms) c m rest r f e
  ]

  receive-frames_lem :
      (ms : List (Message T)) (c : Connection T) (rest : List ℕ)
      → c.reads ≡ reading_header ∷ []
      → AllFit ms
      → receive codec (reads_of ms) c (frames codec ms ++ rest) ≡ (after c ms, rest)
  receive-frames_lem [] c rest r f = unfold receive in refl
  receive-frames_lem (m ∷ ms) c rest r f =
      ap (receive codec (reads_of (m ∷ ms)) c) (append_assoc (frame codec m) (frames codec ms) rest)
      ∙ receive_one ms c m (frames codec ms ++ rest) r f.0
      ∙ receive-frames_lem ms (arrived codec c m) rest refl f.1

  recv_deq-after :
      (ms : List (Message T)) (c : Connection T)
      → (after c ms).recv_deq ≡ c.recv_deq ++ map (owned codec c) (landings c.temp_msg.body ms)
  recv_deq-after [] c = sym (append-nil c.recv_deq)
  recv_deq-after (m ∷ ms) c = recv_deq-after ms (arrived codec c m) ∙ append_assoc c.recv_deq _ _

  after_waits :
      (ms : List (Message T)) (c : Connection T)
      → c.reads ≡ reading_header ∷ []
      → (after c ms).reads ≡ reading_header ∷ []
  after_waits [] c r = r
  after_waits (m ∷ ms) c r = after_waits ms (arrived codec c m) refl

  -- An end that waits for a header and gets the frames of some messages, and more behind them, puts
  -- one message for each into the incoming queue, in order: the message itself if it has a body, and
  -- else its header with the body that came last. It takes no byte of what follows, and waits for
  -- the next header. Each message must state the size of its body, which fits in 32 bits.
  pub receive-frames :
      (ms : List (Message T)) (c : Connection T) (rest : List ℕ)
      → c.reads ≡ reading_header ∷ []
      → AllFit ms
      → let (d, left) = receive codec (reads_of ms) c (frames codec ms ++ rest) in
        (d.recv_deq ≡ c.recv_deq ++ map (owned codec c) (landings c.temp_msg.body ms))
        × (d.reads ≡ reading_header ∷ [])
        × (left ≡ rest)
  receive-frames ms c rest r f =
      rw (receive-frames_lem ms c rest r f) (recv_deq-after ms c, after_waits ms c r, refl)

  -- No message without a body comes after one that had a body (`b` is the body before the first).
  abbrev pub NoStale : List ℕ → List (Message T) → Type 0
  NoStale b [] = Unit {0}
  NoStale b (m ∷ ms) = (m.body ≡ [] → b ≡ []) × NoStale m.body ms

  landed_self : (b : List ℕ) (m : Message T) → (m.body ≡ [] → b ≡ []) → landed b m ≡ m
  landed_self b m h = elim (Bool-cases (ltb 0 (length m.body))) [
    | inl e ↦ rw e
    | inr e ↦
        let none_left : m.body ≡ [] = nil_of_length m.body e in
        rw e (ap (λ x. record { header = m.header; body = x }) (h none_left ∙ sym none_left))
  ]

  landings_self : (b : List ℕ) (ms : List (Message T)) → NoStale b ms → landings b ms ≡ ms
  landings_self b [] h = refl
  landings_self b (m ∷ ms) h =
      let same = landed_self b m h.0 in
      ap₂ ◌∷◌ same (ap (λ x. landings x.body ms) same ∙ landings_self m.body ms h.1)

  module _ (parent : Owner) (self : ℕ) (is_open : Bool) (q_in : List (OwnedMessage T))
      (no_id : T) where
    -- Two ends of one stream: if the sender has sent all that was given to `Send`, and each message
    -- states the size of its body, which fits in 32 bits, and no message without a body follows one
    -- with a body, then a receiver that waits for a header gets exactly those messages, in order.
    pub transfer :
        (s : Net T) (c : Connection T)
        → Run codec parent self is_open q_in no_id s
        → s.peer.send_deq ≡ []
        → AllFit s.accepted
        → NoStale c.temp_msg.body s.accepted
        → c.reads ≡ reading_header ∷ []
        → let (d, left) = receive codec (reads_of s.accepted) c s.out in
          (d.recv_deq ≡ c.recv_deq ++ map (owned codec c) s.accepted)
          × (d.reads ≡ reading_header ∷ [])
          × (left ≡ [])
    transfer s c r q f h w =
        let sent = (out_is_prefix codec parent self is_open q_in no_id s r).1 q in
        rw
          (
            sent ∙ sym (append-nil (frames codec s.accepted)),
            receive-frames_lem s.accepted c [] w f,
          )
          (
            recv_deq-after s.accepted c
                ∙ ap (λ l. c.recv_deq ++ map (owned codec c) l)
                    (landings_self c.temp_msg.body s.accepted h),
            after_waits s.accepted c w,
            refl,
          )
