-- ===== src/Room/Others.antt =====
-- How often a connection is among the others.
use network_study.Prelude.{
  ℕ, suc, ◌<◌, ◌≤◌, ◌≡◌, refl, subst, ap, false, List, [], ◌∷◌, ◌==◌, arith, Bool-cases, inl, inr,
}
use network_study.Server.Listed.{times}
use network_study.Room.{others}

pub times-others_self : (p : ℕ) (ps : List ℕ) → times p (others p ps) ≡ 0
times-others_self p [] = refl
times-others_self p (q ∷ qs) =
    let rest = times-others_self p qs in
    elim (Bool-cases (p == q)) [
      | inl same ↦ rw same rest
      | inr different ↦ let turned : (q == p) ≡ false = ground arith in rw (different, turned) rest
    ]

pub times-others : (p q : ℕ) (ps : List ℕ) → (p == q) ≡ false → times q (others p ps) ≡ times q ps
times-others p q [] apart = refl
times-others p q (r ∷ rs) apart =
    let rest = times-others p q rs apart in
    elim (Bool-cases (p == r)) [
      | inl same ↦ let turned : (r == q) ≡ false = ground arith in rw (same, turned) rest
      | inr different ↦ elim (Bool-cases (r == q)) [
        | inl here ↦ rw (different, here) (ap suc rest)
        | inr there ↦ rw (different, there) rest
      ]
    ]

pub others_apart : (p q : ℕ) (ps : List ℕ) → 0 < times q (others p ps) → (p == q) ≡ false
others_apart p q ps listed = elim (Bool-cases (p == q)) [
  | inr different ↦ different
  | inl same ↦
      let e : p ≡ q = ground arith in
      let vanished : times q (others p ps) ≡ 0 =
        subst (λ a. times a (others p ps) ≡ 0) e (times-others_self p ps) in
      absurd (omega arith)
]

pub times-others_le : (p q : ℕ) (ps : List ℕ) → times q ps ≤ 1 → times q (others p ps) ≤ 1
times-others_le p q ps most = elim (Bool-cases (p == q)) [
  | inr there ↦ omega (arith, times-others p q ps there)
  | inl same ↦
      let e : p ≡ q = ground arith in
      let vanished : times q (others p ps) ≡ 0 =
        subst (λ a. times a (others p ps) ≡ 0) e (times-others_self p ps) in
      omega (arith, vanished)
]
