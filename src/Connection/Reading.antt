-- ===== src/Connection/Reading.antt =====
-- The receiving side of net_connection.h: `ReadHeader`, `ReadBody`, `AddToIncomingMessageQueue`.
use network_study.Prelude.{
  ℕ, zero, suc, ◌-◌, ◌^◌, ◌<◌, ◌≤◌, ◌≡◌, refl, ap, ◌∙◌, true, false, List, [], ◌∷◌, ◌++◌,
  append_assoc, none, some, length, arith, take, take-append, drop-append, ltb, le→leb,
  if◌then◌else◌, length-append, nil_of_length, length-take, replicate, length-replicate,
}
use network_study.Bytes.{resize}
use network_study.Message.{Message}
use network_study.TsQueue.{push_back}
use network_study.Connection.{
  Codec, OwnedMessage, ReadOp, reading_header, reading_body, Connection, remote_of, on_read_header,
  on_read_body,
}
use network_study.Connection.System.{complete_read, read_ops, read_step}
use network_study.Connection.Writing.{frame}

length-resize : (xs : List ℕ) (n : ℕ) → length (resize xs n) ≡ n
unfolding resize
length-resize xs n = omega (
  arith,
  length-append (take n xs) (replicate (n - length xs) 0),
  length-take n xs,
  length-replicate {A = ℕ} (n - length xs) 0,
)

-- The header states the size of the body, which fits in its 32 bits.
abbrev pub Fits {ℓ} : {T : Type ℓ} → Message T → Type 0
Fits m = (m.header.size ≡ length m.body) × (length m.body < 2 ^ 32)

abbrev pub AllFit {ℓ} : {T : Type ℓ} → List (Message T) → Type 0
AllFit [] = Unit {0}
AllFit (m ∷ ms) = Fits m × AllFit ms

-- What the receiver makes of a message when `b` is the body that it received last.
abbrev pub landed {ℓ} : {T : Type ℓ} → List ℕ → Message T → Message T
landed b m = if ltb 0 (length m.body) then m else record { header = m.header; body = b }

abbrev pub landings {ℓ} : {T : Type ℓ} → List ℕ → List (Message T) → List (Message T)
landings b [] = []
landings b (m ∷ ms) = landed b m ∷ landings (landed b m).body ms

abbrev pub reads_of {ℓ} : {T : Type ℓ} → List (Message T) → ℕ
reads_of [] = 0
reads_of (m ∷ ms) = let n = reads_of ms in if ltb 0 (length m.body) then suc (suc n) else suc n

module _ {ℓ} {T : Type ℓ} (codec : Codec T) where
  -- The first `n` reads that the stream can complete.
  unfoldable pub receive : ℕ → Connection T → List ℕ → Connection T × List ℕ
  receive zero c input = (c, input)
  receive (suc n) c input = elim (read_step codec c input) [
    | none ↦ (c, input)
    | some (d, rest) ↦ receive n d rest
  ]

  abbrev pub owned : Connection T → Message T → OwnedMessage T
  owned c m = record { remote = remote_of c.owner_type c.self; msg = m }

  abbrev pub arrived : Connection T → Message T → Connection T
  arrived c m = record c {
    reads = reading_header ∷ [];
    temp_msg = landed c.temp_msg.body m;
    recv_deq = c.recv_deq ++ (owned c (landed c.temp_msg.body m) ∷ []);
  }

  complete_header :
      (c : Connection T) (m : Message T) (rest : List ℕ)
      → Fits m
      → complete_read codec reading_header c (frame codec m ++ rest)
        ≡ some (
          on_read_header false
              (record c { temp_msg = record { header = m.header; body = c.temp_msg.body } }),
          m.body ++ rest,
        )
  unfolding complete_read
  complete_header c m rest f =
      let h = codec.encode m.header in
      let tail = m.body ++ rest in
      let whole : codec.header_size ≤ length (h ++ tail) =
        omega (arith, length-append h tail, codec.length-encode m.header) in
      rw (
        append_assoc h m.body rest,
        le→leb codec.header_size (length (h ++ tail)) whole,
        take-append codec.header_size h tail (codec.length-encode m.header),
        drop-append codec.header_size h tail (codec.length-encode m.header),
        codec.decode-encode m.header (omega arith),
      )

  complete_body :
      (c : Connection T) (body rest : List ℕ)
      → complete_read codec (reading_body (length body)) c (body ++ rest)
        ≡ some (
          on_read_body false
              (record c { temp_msg = record { header = c.temp_msg.header; body = body } }),
          rest,
        )
  unfolding complete_read
  complete_body c body rest = rw (
    le→leb (length body) (length (body ++ rest)) (omega (arith, length-append body rest)),
    take-append (length body) body rest refl,
    drop-append (length body) body rest refl,
  )

  read_step_one :
      (c : Connection T) (op : ReadOp) (input : List ℕ)
      → c.reads ≡ op ∷ []
      → read_step codec c input ≡ complete_read codec op (record c { reads = [] }) input
  unfolding read_step
  read_step_one c op input r = rw (r, read_ops)

  -- Before the body of `m` comes, its header has replaced the last one.
  abbrev headed : Connection T → Message T → Connection T
  headed c m = record c {
    reads = [];
    temp_msg = record { header = m.header; body = c.temp_msg.body };
  }

  abbrev awaiting : Connection T → Message T → Connection T
  awaiting c m = record c {
    reads = reading_body (length m.body) ∷ [];
    temp_msg = record { header = m.header; body = resize c.temp_msg.body (length m.body) };
  }

  on_read_header_short :
      (c : Connection T) (m : Message T)
      → Fits m
      → ltb 0 (length m.body) ≡ false
      → on_read_header false (headed c m) ≡ arrived c m
  unfolding on_read_header push_back
  on_read_header_short c m f e = rw (e, f.0, e)

  on_read_header_long :
      (c : Connection T) (m : Message T)
      → Fits m
      → ltb 0 (length m.body) ≡ true
      → on_read_header false (headed c m) ≡ awaiting c m
  unfolding on_read_header
  on_read_header_long c m f e = rw (f.0, e, length-resize c.temp_msg.body (length m.body))

  on_read_body_long :
      (c : Connection T) (m : Message T)
      → ltb 0 (length m.body) ≡ true
      → on_read_body false
          (record c { reads = []; temp_msg = record { header = m.header; body = m.body } })
        ≡ arrived c m
  unfolding on_read_body push_back
  on_read_body_long c m e = rw e

  receive_next :
      (n : ℕ) (c d : Connection T) (input rest : List ℕ)
      → read_step codec c input ≡ some (d, rest)
      → receive (suc n) c input ≡ receive n d rest
  unfolding receive
  receive_next n c d input rest h = rw (h, receive)

  read_header_step :
      (c d : Connection T) (m : Message T) (rest : List ℕ)
      → c.reads ≡ reading_header ∷ []
      → Fits m
      → on_read_header false (headed c m) ≡ d
      → read_step codec c (frame codec m ++ rest) ≡ some (d, m.body ++ rest)
  read_header_step c d m rest r f h =
      read_step_one c reading_header (frame codec m ++ rest) r
      ∙ complete_header (record c { reads = [] }) m rest f
      ∙ ap (λ x. some (x, m.body ++ rest)) h

  -- One read for a message without a body, and two for one with a body.
  pub receive_short :
      (n : ℕ) (c : Connection T) (m : Message T) (rest : List ℕ)
      → c.reads ≡ reading_header ∷ []
      → Fits m
      → ltb 0 (length m.body) ≡ false
      → receive (suc n) c (frame codec m ++ rest) ≡ receive n (arrived c m) rest
  receive_short n c m rest r f e = receive_next n c (arrived c m) (frame codec m ++ rest) rest (
      read_header_step c (arrived c m) m rest r f (on_read_header_short c m f e)
      ∙ ap (λ x. some (arrived c m, x ++ rest)) (nil_of_length m.body e))

  pub receive_long :
      (n : ℕ) (c : Connection T) (m : Message T) (rest : List ℕ)
      → c.reads ≡ reading_header ∷ []
      → Fits m
      → ltb 0 (length m.body) ≡ true
      → receive (suc (suc n)) c (frame codec m ++ rest) ≡ receive n (arrived c m) rest
  receive_long n c m rest r f e =
      receive_next (suc n) c (awaiting c m) (frame codec m ++ rest) (m.body ++ rest)
        (read_header_step c (awaiting c m) m rest r f (on_read_header_long c m f e))
      ∙ receive_next n (awaiting c m) (arrived c m) (m.body ++ rest) rest (
          read_step_one (awaiting c m) (reading_body (length m.body)) (m.body ++ rest) refl
          ∙ complete_body (record (awaiting c m) { reads = [] }) m.body rest
          ∙ ap (λ x. some (x, rest)) (on_read_body_long c m e))
