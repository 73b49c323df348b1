-- ===== src/MemDb/Values.antt =====
-- What is set under a key is what is got under it (MemDB.cpp).
use network_study.Prelude.{
  ◌≡◌, ◌≢◌, inl, inr, refl, sym, ap, ap₂, ◌∙◌, Bool, true, false, List, [], ◌∷◌, Option, none, some,
  if◌then◌else◌, ◌==◌, ◌&&◌, ==_self, Bool-cases, Option-cases, arith,
}
use network_study.MemDb.{
  Str, same_str, MemDb, find, overwrite, get_value, set_value, typed, get_number, set_number,
}

pub same_str_refl : (a : Str) → same_str a a ≡ true
unfolding same_str
same_str_refl [] = refl
same_str_refl (a ∷ xs) = rw (==_self a) (same_str_refl xs)

and_true : (p q : Bool) → (p && q) ≡ true → (p ≡ true) × (q ≡ true)
and_true true q h = (refl, h)
and_true false q h = absurd (cc)

same_str-eq : (a b : Str) → same_str a b ≡ true → a ≡ b
unfolding same_str
same_str-eq [] [] h = refl
same_str-eq [] (b ∷ ys) h = absurd (cc)
same_str-eq (a ∷ xs) [] h = absurd (cc)
same_str-eq (a ∷ xs) (b ∷ ys) h =
    let (p, q) = and_true (a == b) (same_str xs ys) h in
    let e : a ≡ b = ground arith in ap₂ (λ c cs. c ∷ cs) e (same_str-eq xs ys q)

-- Two entries that both match a key have the same key.
pub same_str-join : (a b c : Str) → same_str a c ≡ true → same_str b c ≡ true → same_str a b ≡ true
same_str-join a b c h k =
    ap (same_str a) (same_str-eq b c k ∙ sym (same_str-eq a c h)) ∙ same_str_refl a

find-overwrite :
    (key value other : Str) (kvs : List (Str × Str))
    → find other (overwrite key value kvs) ≡ (elim (find key kvs) [
      | none ↦ find other kvs
      | some v ↦ if same_str key other then some value else find other kvs
    ])
unfolding find overwrite
find-overwrite key value other [] = refl
find-overwrite key value other ((k, v) ∷ kvs) = elim (Bool-cases (same_str k key)) [
  | inl h ↦
      let same : same_str k other ≡ same_str key other =
        ap (λ x. same_str x other) (same_str-eq k key h) in
      rw h (elim (Bool-cases (same_str key other)) [
        | inl q ↦ rw (find, same, q) refl
        | inr q ↦ rw (find, same, q) refl
      ])
  | inr h ↦ rw h (elim (Bool-cases (same_str k other)) [
    | inl p ↦ elim (Bool-cases (same_str key other)) [
      | inl q ↦ absurd (cc (h, same_str-join k key other p q))
      | inr q ↦ elim (Option-cases (find key kvs)) [
        | inl n ↦ rw (n, p) refl
        | inr (w, n) ↦ rw (n, q, p) refl
      ]
    ]
    | inr p ↦
        let skip : find other ((k, v) ∷ kvs) ≡ find other kvs = rw (find, p) refl in
        let result : Option Str → Option Str = λ o. elim (find key kvs) [
          | none ↦ o
          | some w ↦ if same_str key other then some value else o
        ] in
        rw p (find-overwrite key value other kvs ∙ ap result (sym skip))
  ])
]

-- After `SetValue`, `GetValue` gives the new value under the same key, and under every other key
-- what it gave before.
pub get_value-set_value :
    (key value other : Str) (db : MemDb)
    → get_value other (set_value key value db)
      ≡ (if same_str key other then value else get_value other db)
unfolding get_value set_value
get_value-set_value key value other db = elim (Option-cases (find key db.key_value)) [
  | inl n ↦ elim (Bool-cases (same_str key other)) [
    | inl q ↦ rw (set_value, n, get_value, q) refl
    | inr q ↦ rw (set_value, n, get_value, q) refl
  ]
  | inr (w, n) ↦
      let now = find-overwrite key value other db.key_value in
      elim (Bool-cases (same_str key other)) [
        | inl q ↦ rw (set_value, n, get_value, now, n, q) refl
        | inr q ↦ rw (set_value, n, get_value, now, n, q) refl
      ]
]

pub get_value-set_value_self :
    (key value : Str) (db : MemDb) → get_value key (set_value key value db) ≡ value
get_value-set_value_self key value db =
    get_value-set_value key value key db
    ∙ ap (λ same. if same then value else get_value key db) (same_str_refl key)

typed_some {ℓ} :
    {A : Type ℓ} (parse : Str → A) (d : A) (text : Str)
    → text ≢ []
    → typed parse d text ≡ parse text
unfolding typed
typed_some parse d [] h = absurd (h refl)
typed_some parse d (c ∷ cs) h = refl

-- A number that is set is got back, whatever the default, if what is printed is not empty and is read
-- back as the number.
get_number-set_number {ℓ} :
    {A : Type ℓ} (print : A → Str) (parse : Str → A) (key : Str) (value d : A) (db : MemDb)
    → parse (print value) ≡ value
    → print value ≢ []
    → get_number parse key d (set_number print key value db) ≡ value
unfolding get_number set_number typed
get_number-set_number print parse key value d db back some_text =
    let now = get_value-set_value_self key (print value) db in
    ap (typed parse d) now ∙ typed_some parse d (print value) some_text ∙ back
