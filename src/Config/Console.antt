-- ===== src/Config/Console.antt =====
-- The loop of main.cpp that reads the console.
use network_study.Prelude.{
  ℕ, zero, suc, ◌+◌, ◌≡◌, ◌≤◌, ◌<◌, refl, ap, ◌∙◌, true, false, List, [], ◌∷◌, ◌++◌, length, take,
  leb, le→leb, lt→leb, arith, All, codes, length-take,
}
use network_study.MemDb.{Str, same_str}
use network_study.SimpleSocket.{Outcome, done, fault, running}
use network_study.Config.{console}

-- A line that fits and does not end the loop.
abbrev pub GoesOn : Str → Type 0
GoesOn line = (length line ≤ 15) × (same_str line (codes "q") ≡ false)

-- One more prompt.
abbrev one_more : Outcome ℕ → Outcome ℕ
one_more o = elim o [ done n ↦ done (n + 1) | fault ↦ fault | running ↦ running ]

console_cons :
    (fuel : ℕ) (line : Str) (lines : List Str)
    → GoesOn line
    → console (suc fuel) false (line ∷ lines) ≡ one_more (console fuel false lines)
unfolding console
console_cons fuel line lines (fits, other) =
    let short : leb (length line) 15 ≡ true = le→leb (length line) 15 fits in
    rw (console, short, other) refl

broken_spins : (fuel : ℕ) (lines : List Str) → console fuel true lines ≡ running
unfolding console same_str
broken_spins zero lines = refl
broken_spins (suc fuel) lines = ap one_more (broken_spins fuel lines)

-- Fifteen characters are not "q".
long_other : (line : Str) → 1 < length line → same_str line (codes "q") ≡ false
unfolding same_str
long_other [] long = absurd (omega arith)
long_other (c ∷ []) long = absurd (omega arith)
long_other (c ∷ d ∷ cs) long = ground arith

long_spins :
    (fuel : ℕ) (line : Str) (lines : List Str)
    → 15 < length line
    → console fuel false (line ∷ lines) ≡ running
unfolding console
long_spins zero line lines long = refl
long_spins (suc fuel) line lines long =
    let breaks : leb (length line) 15 ≡ false = lt→leb (length line) 15 long in
    let other : same_str (take 15 line) (codes "q") ≡ false =
      long_other (take 15 line) (omega (arith, length-take 15 line)) in
    rw (console, breaks, other, broken_spins fuel lines) refl

console_ends :
    (fuel : ℕ) (before rest : List Str)
    → All GoesOn before
    → length before < fuel
    → console fuel false (before ++ (codes "q" ∷ rest)) ≡ done (length before + 1)
unfolding console same_str
console_ends zero before rest goes enough = absurd (omega arith)
console_ends (suc fuel) [] rest goes enough = refl
console_ends (suc fuel) (line ∷ before) rest (one, goes) enough =
    console_cons fuel line (before ++ (codes "q" ∷ rest)) one
    ∙ ap one_more (console_ends fuel before rest goes (omega arith))
    ∙ ap done (omega arith)

console_spins :
    (rounds : ℕ) (before rest : List Str) (long : Str)
    → All GoesOn before
    → 15 < length long
    → console rounds false (before ++ (long ∷ rest)) ≡ running
console_spins rounds [] rest long goes big = long_spins rounds long rest big
console_spins zero (line ∷ before) rest long goes big = unfold console in refl
console_spins (suc rounds) (line ∷ before) rest long (one, goes) big =
    console_cons rounds line (before ++ (long ∷ rest)) one
    ∙ ap one_more (console_spins rounds before rest long goes big)

-- The loop of `__main` ends at the first line "q", after a prompt for each line up to it, if no line before
-- it has more than 15 characters; as many rounds as lines are enough. After a line of 16 characters or
-- more it does not end within any number of rounds, whatever is typed then, "q" included.
pub console_lem :
    (fuel rounds : ℕ) (before rest : List Str) (long : Str)
    → All GoesOn before
    → 15 < length long
    → length before < fuel
    → (console fuel false (before ++ (codes "q" ∷ rest)) ≡ done (length before + 1))
      × (console rounds false (before ++ (long ∷ rest)) ≡ running)
console_lem fuel rounds before rest long goes big enough =
    (console_ends fuel before rest goes enough, console_spins rounds before rest long goes big)
