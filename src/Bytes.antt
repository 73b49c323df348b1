-- ===== src/Bytes.antt =====
-- Blocks of memory as lists of bytes: `std::vector<uint8_t>::resize` and the two directions of
-- `memcpy`. A copy that leaves its block is undefined behaviour, and `none` here.
use network_study.Prelude.{
  ℕ, ◌+◌, ◌-◌, ◌*◌, ◌/◌, ◌%◌, ◌^◌, [], ◌∷◌, ◌<◌, ◌≡◌, refl, List, ◌++◌, append-nil, Option, none,
  some, arith, leb, if◌then◌else◌, le→leb, lt→leb, length, take, drop, replicate, length-append,
  length-replicate, take-append, drop-append, take-all, drop-all, Bool, true, false, Bool-cases,
  inl, inr, zero, suc, ◌==◌, ap, ◌∙◌, ◌≤◌,
}

-- New bytes are 0.
unfoldable pub resize : List ℕ → ℕ → List ℕ
resize xs n = take n xs ++ replicate (n - length xs) 0

-- `memcpy(&dst, xs + i, n)`
unfoldable pub read : List ℕ → ℕ → ℕ → Option (List ℕ)
read xs i n = if leb (i + n) (length xs) then some (take n (drop i xs)) else none

-- `memcpy(xs + i, d, length d)`
unfoldable pub write : List ℕ → ℕ → List ℕ → Option (List ℕ)
write xs i d =
    if leb (i + length d) (length xs)
    then some (take i xs ++ (d ++ drop (i + length d) xs))
    else none

pub resize-grow : (xs : List ℕ) (k : ℕ) → resize xs (length xs + k) ≡ xs ++ replicate k 0
unfolding resize
resize-grow xs k =
    let e : length xs + k - length xs ≡ k = omega arith in
    rw (take-all (length xs + k) xs (omega arith), e)

pub resize-shrink : (xs ys : List ℕ) → resize (xs ++ ys) (length xs) ≡ xs
unfolding resize
resize-shrink xs ys =
    let e : length xs - length (xs ++ ys) ≡ 0 = omega (arith, length-append xs ys) in
    rw (take-append (length xs) xs ys refl, e) (append-nil xs)

pub write-end :
    (xs ys d : List ℕ) → length ys ≡ length d → write (xs ++ ys) (length xs) d ≡ some (xs ++ d)
unfolding write
write-end xs ys d e = rw (
  le→leb (length xs + length d) (length (xs ++ ys)) (omega (arith, length-append xs ys)),
  take-append (length xs) xs ys refl,
  drop-all (length xs + length d) (xs ++ ys) (omega (arith, length-append xs ys)),
  append-nil d,
)

pub read-end : (xs d : List ℕ) → read (xs ++ d) (length xs) (length d) ≡ some d
unfolding read
read-end xs d = rw (
  le→leb (length xs + length d) (length (xs ++ d)) (omega (arith, length-append xs d)),
  drop-append (length xs) xs d refl,
  take-all (length d) d (omega arith),
)

pub read_start : (xs : List ℕ) (n : ℕ) → n ≤ length xs → read xs 0 n ≡ some (take n xs)
unfolding read
read_start xs n h = rw (le→leb (0 + n) (length xs) (omega arith))

pub write_start :
    (xs d : List ℕ) → length d ≤ length xs → write xs 0 d ≡ some (d ++ drop (length d) xs)
unfolding write
write_start xs d h =
    let e : 0 + length d ≡ length d = omega arith in rw (e, le→leb (length d) (length xs) h)

pub read_in : (xs : List ℕ) (i n : ℕ) → i + n ≤ length xs → read xs i n ≡ some (take n (drop i xs))
unfolding read
read_in xs i n h = rw (le→leb (i + n) (length xs) h)

pub read_out : (xs : List ℕ) (i n : ℕ) → length xs < i + n → read xs i n ≡ none
unfolding read
read_out xs i n h = rw (lt→leb (i + n) (length xs) h)

-- The bytes of a uint32_t, which lie in memory the lowest first.
abbrev pub uint32_bytes : ℕ → List ℕ
uint32_bytes n = n % 256 ∷ n / 256 % 256 ∷ n / 65536 % 256 ∷ n / 16777216 % 256 ∷ []

-- The number that four bytes stand for.
abbrev pub uint32_of : List ℕ → ℕ
uint32_of [] = 0
uint32_of (b ∷ bs) = b + 256 * uint32_of bs

-- What is read back is the number that was written.
pub uint32_of-bytes : (n : ℕ) → n < 2 ^ 32 → uint32_of (uint32_bytes n) ≡ n
uint32_of-bytes n h = omega arith

-- The characters up to the first 0, as a std::string takes them from a char array.
abbrev pub c_string : List ℕ → List ℕ
c_string [] = []
c_string (c ∷ cs) = let rest = c_string cs in if c == 0 then [] else c ∷ rest

-- A text is printed, and read to its end, only if it has one in its array.
abbrev pub has_end : List ℕ → Bool
has_end [] = false
has_end (c ∷ cs) = let rest = has_end cs in if c == 0 then true else rest

has_end-append : (xs rest : List ℕ) → has_end (xs ++ (0 ∷ rest)) ≡ true
has_end-append [] rest = refl
has_end-append (x ∷ xs) rest = elim (Bool-cases (x == 0)) [
  | inl h ↦ rw h refl
  | inr h ↦ rw h (has_end-append xs rest)
]

drop-replicate {ℓ} : {A : Type ℓ} (n m : ℕ) (a : A) → drop n (replicate m a) ≡ replicate (m - n) a
drop-replicate zero m a = let e : m ≡ m - 0 = omega arith in ap (λ n. replicate n a) e
drop-replicate (suc n) zero a = let e : 0 ≡ 0 - suc n = omega arith in ap (λ n. replicate n a) e
drop-replicate (suc n) (suc m) a =
    let e : m - n ≡ suc m - suc n = omega arith in drop-replicate n m a ∙ ap (λ n. replicate n a) e

-- Bytes at the start of a cleared buffer.
abbrev pub padded : ℕ → List ℕ → List ℕ
padded n d = d ++ replicate (n - length d) 0

pub write-replicate :
    (n : ℕ) (d : List ℕ) → length d ≤ n → write (replicate n 0) 0 d ≡ some (padded n d)
unfolding write
write-replicate n d h =
    let blank : List ℕ = replicate n 0 in
    let room : leb (length d) (length blank) ≡ true =
      le→leb (length d) (length blank) (omega (arith, length-replicate {A = ℕ} n 0)) in
    let start : 0 + length d ≡ length d = omega arith in
    rw (write, start, room, drop-replicate {A = ℕ} (length d) n 0) refl

-- Bytes that do not fill the buffer have an end.
pub has_end-padded : (n : ℕ) (d : List ℕ) → length d < n → has_end (padded n d) ≡ true
has_end-padded zero d h = absurd (omega arith)
has_end-padded (suc n) d h =
    let more : suc n - length d ≡ suc (n - length d) = omega arith in
    rw more (has_end-append d (replicate (n - length d) 0))
