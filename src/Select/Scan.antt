-- ===== src/Select/Scan.antt =====
-- The walk over the sockets visits exactly those that are ready.
use network_study.Prelude.{
  ℕ, zero, suc, ◌+◌, ◌≡◌, ◌≤◌, ◌<◌, refl, ap, ◌∙◌, Bool, true, false, leb, le→leb, leb→le, ◌==◌,
  Bool-cases, ◌⊎◌, inl, inr, arith,
}
use network_study.Select.{int_max, Flow, go, ret, fault, running, for_fds, ready_from, serve_each}

-- To split on how a step ends.
Flow-cases {ℓ} :
    {S : Type ℓ} (f : Flow S)
    → ((t : S) × (f ≡ go t)) ⊎ ((t : S) × (f ≡ ret t)) ⊎ (f ≡ fault) ⊎ (f ≡ running)
Flow-cases (go t) = inl (t, refl)
Flow-cases (ret t) = inr (inl (t, refl))
Flow-cases fault = inr (inr (inl refl))
Flow-cases running = inr (inr (inr refl))

module _ {ℓ} {S : Type ℓ} (maxfd : S → ℕ) (ready : ℕ → Bool) (step : ℕ → S → Flow S) where
  -- Where no socket is ready the walk only counts up to maxfd.
  pub for_fds_quiet :
      (limit fuel i : ℕ) (s : S)
      → ((a : ℕ) → i ≤ a → a ≤ maxfd s → ready a ≡ false)
      → maxfd s ≤ limit
      → i ≤ limit + 1
      → limit < int_max
      → limit + 1 < fuel + i
      → for_fds maxfd ready step fuel i s ≡ go s
  unfolding for_fds
  for_fds_quiet limit zero i s none bound start int enough = absurd (omega arith)
  for_fds_quiet limit (suc fuel) i s none bound start int enough =
      let small : leb i int_max ≡ true = le→leb i int_max (omega arith) in
      elim (Bool-cases (leb i (maxfd s))) [
        | inr past ↦ rw (for_fds, small, past) refl
        | inl more ↦
            rw (for_fds, small, more, none i (omega arith) (leb→le i (maxfd s) more))
              (for_fds_quiet limit fuel (i + 1) s (λ a h k. none a (omega arith) k) bound
                (ground arith) int (omega arith))
      ]

module _ {ℓ κ} {S : Type ℓ} (maxfd : S → ℕ) (ready : ℕ → Bool) (step : ℕ → S → Flow S)
    (P : S → Type κ) (top limit : ℕ) where
  -- The walk serves the sockets that are ready, each once, in order, if every step keeps maxfd between
  -- the greatest of them and a limit.
  pub for_fds-serve_each :
      (count fuel i : ℕ) (s : S)
      → ((a : ℕ) → top < a → ready a ≡ false)
      → ((t : S) → P t → (top ≤ maxfd t) × (maxfd t ≤ limit))
      → ((a : ℕ) (t u : S) → P t → step a t ≡ go u → P u)
      → P s
      → i + count ≡ suc top
      → limit < int_max
      → limit + 1 < fuel + i
      → for_fds maxfd ready step fuel i s ≡ serve_each step (ready_from ready count i) s
  unfolding for_fds serve_each
  for_fds-serve_each zero fuel i s none between keep p e int enough =
      let (low, high) = between s p in
      for_fds_quiet maxfd ready step limit fuel i s (λ a h k. none a (omega arith)) high
        (omega arith) int enough
  for_fds-serve_each (suc count) zero i s none between keep p e int enough =
      let (low, high) = between s p in absurd (omega arith)
  for_fds-serve_each (suc count) (suc fuel) i s none between keep p e int enough =
      let (low, high) = between s p in
      let small : leb i int_max ≡ true = le→leb i int_max (omega arith) in
      let more : leb i (maxfd s) ≡ true = le→leb i (maxfd s) (omega arith) in
      elim (Bool-cases (ready i)) [
        | inr quiet ↦
            rw (for_fds, small, more, quiet)
              (for_fds-serve_each count fuel (i + 1) s none between keep p (omega arith) int
                (omega arith))
        | inl comes ↦ elim (Flow-cases (step i s)) [
          | inl (t, goes) ↦
              rw (for_fds, small, more, comes, goes)
                (for_fds-serve_each count fuel (i + 1) t none between keep (keep i s t p goes)
                  (omega arith) int (omega arith))
          | inr (inl (t, returns)) ↦ rw (for_fds, small, more, comes, returns) refl
          | inr (inr (inl bad)) ↦ rw (for_fds, small, more, comes, bad) refl
          | inr (inr (inr late)) ↦ rw (for_fds, small, more, comes, late) refl
        ]
      ]

module _ {ℓ} {S : Type ℓ} (maxfd : S → ℕ) (ready : ℕ → Bool) (step : ℕ → S → Flow S) where
  -- The walk returns when the first socket that is ready makes the code around it return.
  pub for_fds_first :
      (fuel fd i : ℕ) (s u : S)
      → ((a : ℕ) → a < fd → ready a ≡ false)
      → ready fd ≡ true
      → step fd s ≡ ret u
      → i ≤ fd
      → fd ≤ maxfd s
      → fd ≤ int_max
      → fd < fuel + i
      → for_fds maxfd ready step fuel i s ≡ ret u
  unfolding for_fds
  for_fds_first zero fd i s u none comes returns start top int enough = absurd (omega arith)
  for_fds_first (suc fuel) fd i s u none comes returns start top int enough =
      let small : leb i int_max ≡ true = le→leb i int_max (omega arith) in
      let more : leb i (maxfd s) ≡ true = le→leb i (maxfd s) (omega arith) in
      elim (Bool-cases (i == fd)) [
        | inl here ↦
            let e : i ≡ fd = ground arith in
            rw (for_fds, small, more, ap ready e ∙ comes, ap (λ a. step a s) e ∙ returns) refl
        | inr later ↦
            rw (for_fds, small, more, none i (ground arith))
              (for_fds_first fuel fd (i + 1) s u none comes returns (ground arith) top int
                (omega arith))
      ]
