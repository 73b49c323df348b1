-- ===== src/Server/Listed.antt =====
-- How often `MessageAllClients` of net_server.h sends to a connection.
use network_study.Prelude.{
  ℕ, suc, ◌≡◌, ◌<◌, refl, sym, ap, ◌∙◌, Bool, true, false, List, [], ◌∷◌, some, ◌≢◌, if◌then◌else◌,
  arith, ==_self, ◌==◌, Bool-cases, inl, inr,
}
use network_study.Server.Broadcast.{survivors, hits}

-- How often a connection is listed.
abbrev pub times : ℕ → List ℕ → ℕ
times q [] = 0
times q (p ∷ ps) = let rest = times q ps in if p == q then suc rest else rest

pub times_apart : (p q : ℕ) (ps : List ℕ) → times p ps ≡ 0 → times q ps ≡ 1 → (p == q) ≡ false
times_apart p q ps gone once = elim (Bool-cases (p == q)) [
  | inr different ↦ different
  | inl same ↦
      let e : p ≡ q = ground arith in
      let moved : times q ps ≡ 0 = ap (λ a. times a ps) (sym e) ∙ gone in absurd (omega arith)
]

-- Nobody leaves while all that are listed are open.
pub survivors_all :
    (is_open : ℕ → Bool) (ps : List ℕ)
    → ((q : ℕ) → 0 < times q ps → is_open q ≡ true)
    → survivors is_open ps ≡ ps
unfolding survivors
survivors_all is_open [] up = refl
survivors_all is_open (p ∷ ps) up =
    let self : (p == p) ≡ true = ==_self p in
    let here : is_open p ≡ true = up p (rw self (omega arith)) in
    let rest = survivors_all is_open ps (λ q listed. up q (ground arith)) in
    rw here (ap (◌∷◌ p) rest)

-- A message to all but `p` is posted to `q` once for each entry, and not to `p`.
pub hits-times :
    (is_open : ℕ → Bool) (p q : ℕ) (ps : List ℕ)
    → is_open q ≡ true
    → q ≢ p
    → hits is_open (some p) q ps ≡ times q ps
unfolding hits
hits-times is_open p q [] up other = refl
hits-times is_open p q (r ∷ ps) up other =
    let rest = hits-times is_open p q ps up other in
    elim (Bool-cases (r == q)) [
      | inr different ↦ rw different rest
      | inl same ↦
          let e : r ≡ q = ground arith in
          let apart : (r == p) ≡ false = ground arith in
          rw (same, ap is_open e ∙ up, apart) (ap suc rest)
    ]

pub hits_ignored : (is_open : ℕ → Bool) (p : ℕ) (ps : List ℕ) → hits is_open (some p) p ps ≡ 0
unfolding hits
hits_ignored is_open p [] = refl
hits_ignored is_open p (r ∷ ps) =
    let rest = hits_ignored is_open p ps in
    elim (Bool-cases (r == p)) [
      | inr different ↦ rw different rest
      | inl same ↦ elim (Bool-cases (is_open r)) [
        | inl up ↦ rw (same, up) rest
        | inr down ↦ rw (same, down) rest
      ]
    ]
