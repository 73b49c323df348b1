-- ===== src/MemDb/View.antt =====
-- The store of MemDB.cpp as its callers see it: by what is read under each key. std::map keeps its entries
-- in the order of the keys; in the model two lists of entries are the same store if they read the same.
use mathlib.Core.Quot
use mathlib.Core.Quot.{Quot, Quot-set}
use native.Mathlib.Nat.{ℕ_set}
use network_study.Prelude.{◌≡◌, inl, inr, refl, sym, ap, ◌∙◌, false, if◌then◌else◌, Bool-cases}
use network_study.MemDb.{Str, same_str, MemDb, get_value, set_value}
use network_study.MemDb.Values.{same_str-join, get_value-set_value, get_value-set_value_self}

-- The same value under every key.
abbrev pub SameValues : MemDb → MemDb → Type 0
SameValues a b = (key : Str) → get_value key a ≡ get_value key b

abbrev pub View : Type 0
View = Quot SameValues

abbrev pub view_of : MemDb → View
view_of db = Quot.mk db

Str-set : IsSet Str
Str-set = hlevel (ℕ_set)

pub view_get : Str → View → Str
view_get key = Quot.lift Str-set (get_value key) (λ a b h. h key)

SameValues-set_value :
    (key value : Str) (a b : MemDb)
    → SameValues a b
    → SameValues (set_value key value a) (set_value key value b)
SameValues-set_value key value a b h other =
    get_value-set_value key value other a
    ∙ ap (λ v. if same_str key other then value else v) (h other)
    ∙ sym (get_value-set_value key value other b)

pub view_set : Str → Str → View → View
view_set key value =
    Quot.lift Quot-set (λ db. view_of (set_value key value db))
      (λ a b h. Quot.sound (SameValues-set_value key value a b h))

get_value-set_value_twice :
    (k v k' v' other : Str) (db : MemDb)
    → get_value other (set_value k v (set_value k' v' db))
      ≡ (if same_str k other then v else (if same_str k' other then v' else get_value other db))
get_value-set_value_twice k v k' v' other db =
    get_value-set_value k v other (set_value k' v' db)
    ∙ ap (λ x. if same_str k other then v else x) (get_value-set_value k' v' other db)

set_value_comm :
    (k v k' v' : Str) (db : MemDb)
    → same_str k k' ≡ false
    → SameValues (set_value k v (set_value k' v' db)) (set_value k' v' (set_value k v db))
set_value_comm k v k' v' db differ other =
    let rest = get_value other db in
    let either : (if same_str k other then v else (if same_str k' other then v' else rest))
        ≡ (if same_str k' other then v' else (if same_str k other then v else rest)) =
      elim (Bool-cases (same_str k other)) [
        | inr p ↦ rw p refl
        | inl p ↦ elim (Bool-cases (same_str k' other)) [
          | inr q ↦ rw (p, q) refl
          | inl q ↦ absurd (cc (same_str-join k k' other p q, differ))
        ]
      ] in
    get_value-set_value_twice k v k' v' other db
    ∙ either
    ∙ sym (get_value-set_value_twice k' v' k v other db)

set_value_again :
    (k v v' : Str) (db : MemDb) → SameValues (set_value k v (set_value k v' db)) (set_value k v db)
set_value_again k v v' db other =
    let rest = get_value other db in
    let again : (if same_str k other then v else (if same_str k other then v' else rest))
        ≡ (if same_str k other then v else rest) =
      elim (Bool-cases (same_str k other)) [ inl p ↦ rw p refl | inr p ↦ rw p refl ] in
    get_value-set_value_twice k v k v' other db ∙ again ∙ sym (get_value-set_value k v other db)

same_reads : (s t : View) → ((key : Str) → view_get key s ≡ view_get key t) → s ≡ t
unfolding view_get
same_reads =
    Quot.ind (λ s. hlevel (Quot-set)) (λ a. Quot.ind (λ t. hlevel (Quot-set)) (λ b h. Quot.sound h))

view_set_comm :
    (k v k' v' : Str)
    → same_str k k' ≡ false
    → (s : View) → view_set k v (view_set k' v' s) ≡ view_set k' v' (view_set k v s)
unfolding view_set
view_set_comm k v k' v' differ =
    Quot.ind (λ t. Quot-set _ _) (λ db. Quot.sound (set_value_comm k v k' v' db differ))

view_set_again : (k v v' : Str) (s : View) → view_set k v (view_set k v' s) ≡ view_set k v s
unfolding view_set
view_set_again k v v' = Quot.ind (λ t. Quot-set _ _) (λ db. Quot.sound (set_value_again k v v' db))

view_get-set : (k v : Str) (s : View) → view_get k (view_set k v s) ≡ v
unfolding view_get view_set
view_get-set k v = Quot.ind (λ t. hlevel (Str-set)) (λ db. get_value-set_value_self k v db)

view_get-set_other :
    (k v k' : Str)
    → same_str k k' ≡ false
    → (s : View) → view_get k' (view_set k v s) ≡ view_get k' s
unfolding view_get view_set
view_get-set_other k v k' differ =
    Quot.ind (λ t. hlevel (Str-set)) (λ db. get_value-set_value k v k' db ∙ rw differ refl)

-- A store is a function from keys to values. `SetValue` changes what is read under its key, to the value
-- given, and nothing else. Stores that read the same are equal. Of two calls of `SetValue` under
-- different
-- keys the order does not matter, and of two under the same key the later one counts.
pub view_laws :
    (k v k' v' : Str) (s t : View)
    → same_str k k' ≡ false
    → ((key : Str) → view_get key s ≡ view_get key t)
    → (s ≡ t)
      × (view_get k (view_set k v s) ≡ v)
      × (view_get k' (view_set k v s) ≡ view_get k' s)
      × (view_set k v (view_set k' v' s) ≡ view_set k' v' (view_set k v s))
      × (view_set k v (view_set k v' s) ≡ view_set k v s)
view_laws k v k' v' s t differ reads = (
  same_reads s t reads,
  view_get-set k v s,
  view_get-set_other k v k' differ s,
  view_set_comm k v k' v' differ s,
  view_set_again k v v' s,
)
