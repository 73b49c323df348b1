-- ===== src/Tests/Commands.antt =====
-- A store with two values.
use network_study.Prelude.{
  ℕ, ◌+◌, ◌-◌, ◌≡◌, inl, inr, refl, Bool-cases, if◌then◌else◌, true, List, [], ◌∷◌,
}
use network_study.MemDb.{Str, same_str, MemDb, find, typed, get_value}
use network_study.MemDb.Replay.{
  Call, resets, sets_number, gets, gets_bool, gets_number, nothing, text, flag, number, answers,
  answers-replay,
}
use network_study.MemDb.View.{view_of, view_get, view_set, view_laws}

abbrev store : MemDb
store = record { key_value = (1 ∷ [], 5 ∷ []) ∷ (2 ∷ [], 6 ∷ []) ∷ [] }

-- A number below ten is printed as its digit.
abbrev print_digit : ℕ → Str
print_digit n = (48 + n) ∷ []

abbrev read_digit : Str → ℕ
read_digit [] = 0
read_digit (c ∷ cs) = c - 48

-- The function that stands for the store.
abbrev stored : Str → Str
stored key =
    if same_str (1 ∷ []) key then 5 ∷ [] else (if same_str (2 ∷ []) key then 6 ∷ [] else [])

abbrev calls : List (Call ℕ)
calls =
    gets (2 ∷ [])
    ∷ sets_number (2 ∷ []) 4
    ∷ gets_number (2 ∷ []) 0
    ∷ resets
    ∷ gets_bool (1 ∷ []) true
    ∷ []

stored_reads : (key : Str) → get_value key store ≡ stored key
unfolding get_value find
stored_reads key = elim (Bool-cases (same_str (1 ∷ []) key)) [
  | inl one ↦ rw (get_value, find, one) refl
  | inr other ↦ elim (Bool-cases (same_str (2 ∷ []) key)) [
    | inl two ↦ rw (get_value, find, other, two) refl
    | inr none_of_them ↦ rw (get_value, find, other, none_of_them) refl
  ]
]

answers-replay_example :
    answers print_digit read_digit calls store
    ≡ (text (6 ∷ []) ∷ nothing ∷ number 4 ∷ nothing ∷ flag true ∷ [])
unfolding same_str typed
answers-replay_example = answers-replay print_digit read_digit calls store stored stored_reads

view_laws_example :
    let s = view_of store in
    (s ≡ s)
    × (view_get (1 ∷ []) (view_set (1 ∷ []) (7 ∷ []) s) ≡ 7 ∷ [])
    × (view_get (2 ∷ []) (view_set (1 ∷ []) (7 ∷ []) s) ≡ view_get (2 ∷ []) s)
    × (view_set (1 ∷ []) (7 ∷ []) (view_set (2 ∷ []) (8 ∷ []) s)
        ≡ view_set (2 ∷ []) (8 ∷ []) (view_set (1 ∷ []) (7 ∷ []) s))
    × (view_set (1 ∷ []) (7 ∷ []) (view_set (1 ∷ []) (8 ∷ []) s) ≡ view_set (1 ∷ []) (7 ∷ []) s)
unfolding same_str
view_laws_example =
    view_laws (1 ∷ []) (7 ∷ []) (2 ∷ []) (8 ∷ []) (view_of store) (view_of store) refl (λ key. refl)
