-- ===== src/MemDb/Replay.antt =====
-- Any calls of the store of MemDB.cpp give what a function from keys to values gives.
use network_study.Prelude.{◌≡◌, refl, ap, ap₂, ◌∙◌, Bool, List, [], ◌∷◌, if◌then◌else◌}
use network_study.MemDb.{
  Str, same_str, true_str, MemDb, reset, typed, get_value, get_bool_value, get_number, set_value,
  set_number,
}
use network_study.MemDb.Values.{get_value-set_value}

-- A call of a method, where `A` stands for the numbers.
pub data Call {ℓ} (A : Type ℓ) : Type ℓ where
  resets : Call A
  sets : (key value : Str) → Call A
  sets_number : (key : Str) (value : A) → Call A
  gets : (key : Str) → Call A
  gets_bool : (key : Str) (default : Bool) → Call A
  gets_number : (key : Str) (default : A) → Call A

-- What a call returns.
pub data Answer {ℓ} (A : Type ℓ) : Type ℓ where
  nothing : Answer A
  text : Str → Answer A
  flag : Bool → Answer A
  number : A → Answer A

module _ {ℓ} {A : Type ℓ} (print : A → Str) (parse : Str → A) where
  abbrev pub one_call : Call A → MemDb → Answer A × MemDb
  one_call resets db = (nothing, reset db)
  one_call (sets key value) db = (nothing, set_value key value db)
  one_call (sets_number key value) db = (nothing, set_number print key value db)
  one_call (gets key) db = (text (get_value key db), db)
  one_call (gets_bool key default) db = (flag (get_bool_value key default db), db)
  one_call (gets_number key default) db = (number (get_number parse key default db), db)

  -- The answers, one after another.
  abbrev pub answers : List (Call A) → MemDb → List (Answer A)
  answers [] db = []
  answers (c ∷ cs) db = let (answer, next) = one_call c db in answer ∷ answers cs next

  -- The same calls on a function from keys to values, where no value is the empty text.
  abbrev pub one_replay : Call A → (Str → Str) → Answer A × (Str → Str)
  one_replay resets f = (nothing, λ key. [])
  one_replay (sets key value) f = (nothing, λ other. if same_str key other then value else f other)
  one_replay (sets_number key value) f =
      (nothing, λ other. if same_str key other then print value else f other)
  one_replay (gets key) f = (text (f key), f)
  one_replay (gets_bool key default) f = (flag (typed (same_str true_str) default (f key)), f)
  one_replay (gets_number key default) f = (number (typed parse default (f key)), f)

  abbrev pub replay : List (Call A) → (Str → Str) → List (Answer A)
  replay [] f = []
  replay (c ∷ cs) f = let (answer, next) = one_replay c f in answer ∷ replay cs next

  -- The function stands for the store.
  abbrev pub Reads : MemDb → (Str → Str) → Type 0
  Reads db f = (key : Str) → get_value key db ≡ f key

  one_call-Reads :
      (c : Call A) (db : MemDb) (f : Str → Str)
      → Reads db f
      → ((one_call c db).0 ≡ (one_replay c f).0) × Reads (one_call c db).1 (one_replay c f).1
  unfolding get_value set_number get_bool_value get_number
  one_call-Reads resets db f reads = (refl, λ key. refl)
  one_call-Reads (sets key value) db f reads = (
    refl,
    λ other.
        get_value-set_value key value other db
        ∙ ap (λ v. if same_str key other then value else v) (reads other),
  )
  one_call-Reads (sets_number key value) db f reads = (
    refl,
    λ other.
        get_value-set_value key (print value) other db
        ∙ ap (λ v. if same_str key other then print value else v) (reads other),
  )
  one_call-Reads (gets key) db f reads = (ap text (reads key), reads)
  one_call-Reads (gets_bool key default) db f reads =
      (ap (λ v. flag (typed (same_str true_str) default v)) (reads key), reads)
  one_call-Reads (gets_number key default) db f reads =
      (ap (λ v. number (typed parse default v)) (reads key), reads)

  -- Whatever methods are called in whatever order, the store answers as a function from keys to values
  -- does that `SetValue` changes at one key: the entries it keeps, their order and those that have been
  -- overwritten cannot be seen. The function must read as the store does at the start.
  pub answers-replay :
      (cs : List (Call A)) (db : MemDb) (f : Str → Str) → Reads db f → answers cs db ≡ replay cs f
  answers-replay [] db f reads = refl
  answers-replay (c ∷ cs) db f reads =
      let (answer, next) = one_call-Reads c db f reads in
      ap₂ (λ a as_after. a ∷ as_after) answer
        (answers-replay cs (one_call c db).1 (one_replay c f).1 next)
