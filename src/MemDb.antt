-- ===== src/MemDb.antt =====
-- MemDB.cpp and MemDB.h: values under keys, all strings. A string is the list of its characters, and
-- the map the list of its entries. What the C library reads and prints is a parameter.
pub mod Values
pub mod View
pub mod Replay
use network_study.Prelude.{
  ℕ, Bool, true, false, List, [], ◌∷◌, Option, none, some, if◌then◌else◌, ◌==◌, ◌&&◌,
}

abbrev pub Str : Type 0
Str = List ℕ

unfoldable pub same_str : Str → Str → Bool
same_str [] [] = true
same_str [] (b ∷ ys) = false
same_str (a ∷ xs) [] = false
same_str (a ∷ xs) (b ∷ ys) = (a == b) && same_str xs ys

pub record MemDb : Type 0 where
  pub key_value : List (Str × Str)

abbrev pub reset : MemDb → MemDb
reset db = record { key_value = [] }

unfoldable pub find : Str → List (Str × Str) → Option Str
unfolding same_str
find key [] = none
find key ((k, v) ∷ kvs) = let rest = find key kvs in if same_str k key then some v else rest

-- `iter->second = value`
unfoldable pub overwrite : Str → Str → List (Str × Str) → List (Str × Str)
unfolding same_str
overwrite key value [] = []
overwrite key value ((k, v) ∷ kvs) =
    let rest = overwrite key value kvs in
    if same_str k key then (k, value) ∷ kvs else ((k, v) ∷ rest)

unfoldable pub get_value : Str → MemDb → Str
unfolding find
get_value key db = elim (find key db.key_value) [ none ↦ [] | some v ↦ v ]

unfoldable pub set_value : Str → Str → MemDb → MemDb
unfolding find overwrite
set_value key value db = elim (find key db.key_value) [
  | none ↦ record { key_value = (key, value) ∷ db.key_value }
  | some v ↦ record { key_value = overwrite key value db.key_value }
]

-- "true"
abbrev pub true_str : Str
true_str = 116 ∷ 114 ∷ 117 ∷ 101 ∷ []

-- A typed value: the default if the string is empty, and else what is read from the string.
unfoldable pub typed {ℓ} : {A : Type ℓ} → (Str → A) → A → Str → A
typed parse default [] = default
typed parse default (c ∷ cs) = parse (c ∷ cs)

unfoldable pub get_bool_value : Str → Bool → MemDb → Bool
unfolding typed get_value same_str
get_bool_value key d db = typed (same_str true_str) d (get_value key db)

-- `GetIntValue` with `atoi`, and `GetFloatValue` with `atof`.
unfoldable pub get_number {ℓ} : {A : Type ℓ} → (Str → A) → Str → A → MemDb → A
unfolding typed get_value
get_number parse key d db = typed parse d (get_value key db)

-- `SetValue` for an int and for a float, with what `snprintf` prints.
unfoldable pub set_number {ℓ} : {A : Type ℓ} → (A → Str) → Str → A → MemDb → MemDb
unfolding set_value
set_number print key value db = set_value key (print value) db
