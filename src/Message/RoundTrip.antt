-- ===== src/Message/RoundTrip.antt =====
-- `<<` and `>>` of net_message.h undo each other, last in, first out.
use network_study.Prelude.{
  ℕ, ◌^◌, ◌<◌, ◌≡◌, ◌↔◌, refl, sym, ap, ◌∙◌, List, [], ◌∷◌, ◌++◌, none, some, ◌>>=◌, append_assoc,
  append-nil, map, reverse, reverse-cons, reverse-reverse, length, length-append, length-replicate,
  replicate, arith,
}
use network_study.Bytes.{read, resize-grow, resize-shrink, write-end, read-end}
use network_study.Message.{Message, to_uint32, sub_size, push, pull, push_all, pull_all}

-- The header states the size of the body.
abbrev pub IsSized {ℓ} : {T : Type ℓ} → Message T → Type 0
IsSized msg = msg.header.size ≡ to_uint32 (length msg.body)

abbrev bytes_of : List (List ℕ) → List ℕ
bytes_of [] = []
bytes_of (d ∷ ds) = d ++ bytes_of ds

bytes_of-append : (ds es : List (List ℕ)) → bytes_of (ds ++ es) ≡ bytes_of ds ++ bytes_of es
bytes_of-append [] es = refl
bytes_of-append (d ∷ ds) es =
    rw (bytes_of-append ds es) (sym (append_assoc d (bytes_of ds) (bytes_of es)))

bytes_of-reverse :
    (b e : List ℕ) (es : List (List ℕ))
    → b ++ bytes_of (reverse (e ∷ es)) ≡ (b ++ bytes_of (reverse es)) ++ e
bytes_of-reverse b e es =
    ap (λ l. b ++ bytes_of l) (reverse-cons e es)
    ∙ ap (◌++◌ b)
        (bytes_of-append (reverse es) (e ∷ []) ∙ ap (◌++◌ (bytes_of (reverse es))) (append-nil e))
    ∙ sym (append_assoc b (bytes_of (reverse es)) e)

module _ {ℓ} {T : Type ℓ} where
  -- The message with another body, its header restated.
  abbrev pub with_body : Message T → List ℕ → Message T
  with_body msg b = record {
    header = record { id = msg.header.id; size = to_uint32 (length b) };
    body = b;
  }

  with_body_self : (msg : Message T) → IsSized msg → with_body msg msg.body ≡ msg
  with_body_self msg h = ground arith

  -- `<<` never leaves the buffer: it appends the bytes of the value and restates the size.
  pub push_lem : (msg : Message T) (d : List ℕ) → push msg d ≡ some (with_body msg (msg.body ++ d))
  unfolding push
  push_lem msg d = rw (
    resize-grow msg.body (length d),
    write-end msg.body (replicate (length d) 0) d (length-replicate (length d) 0),
  )

  pub pull_lem :
      (msg : Message T) (xs d : List ℕ)
      → length (xs ++ d) < 2 ^ 64
      → pull (length d) (with_body msg (xs ++ d)) ≡ some (d, with_body msg xs)
  unfolding pull
  pull_lem msg xs d h =
      let e : sub_size (length (xs ++ d)) (length d) ≡ length xs =
        omega (arith, length-append xs d) in
      rw (e, read-end xs d, resize-shrink xs d)

  push_all_lem :
      (msg : Message T) (ds : List (List ℕ)) (b : List ℕ)
      → push_all (with_body msg b) ds ≡ some (with_body msg (b ++ bytes_of ds))
  unfolding push_all
  push_all_lem msg [] b = rw (append-nil b)
  push_all_lem msg (d ∷ ds) b =
      rw (push_lem (with_body msg b) d, push_all_lem msg ds (b ++ d), append_assoc)

  pull_all_lem :
      (msg : Message T) (es : List (List ℕ)) (b : List ℕ)
      → length (b ++ bytes_of (reverse es)) < 2 ^ 64
      → pull_all (map length es) (with_body msg (b ++ bytes_of (reverse es)))
        ≡ some (es, with_body msg b)
  unfolding pull_all
  pull_all_lem msg [] b h = rw (append-nil b)
  pull_all_lem msg (e ∷ es) b h =
      let front = b ++ bytes_of (reverse es) in
      let E = bytes_of-reverse b e es in
      let fits : length (front ++ e) < 2 ^ 64 = rw E at h in
      let small : length front < 2 ^ 64 = omega (arith, length-append front e) in
      rw (E, pull_lem msg front e fits, pull_all_lem msg es b small)

  -- Values pushed one after another are pulled in the opposite order, each with its own bytes, and
  -- leave the message as it was, if the message states its size and the whole body fits in memory.
  pub pull_all-push_all :
      (msg : Message T) (ds : List (List ℕ))
      → IsSized msg
      → length (msg.body ++ bytes_of ds) < 2 ^ 64
      → (push_all msg ds >>= pull_all (map length (reverse ds))) ≡ some (reverse ds, msg)
  pull_all-push_all msg ds h k =
      let whole = rw (with_body_self msg h) at (push_all_lem msg ds msg.body) in
      let back =
        rw (reverse-reverse ds, with_body_self msg h) at (pull_all_lem msg (reverse ds) msg.body) in
      rw whole (back k)

  -- `>>` succeeds exactly when the body holds enough bytes; otherwise it reads out of the buffer.
  pull_short :
      (n : ℕ) (msg : Message T)
      → length msg.body < 2 ^ 64
      → n < 2 ^ 64
      → (pull n msg ≡ none) ↔ (length msg.body < n)
  unfolding pull read
  pull_short n msg h k = ground arith
