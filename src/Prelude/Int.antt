-- ===== src/Prelude/Int.antt =====
-- The values of an `int` of 32 bits, and its conversions from and to size_t, which has 64 bits.
use Prim.Native.Nat.{ℕ, suc, ◌+◌, ◌-◌, ◌%◌, ◌^◌}
use mathlib.Core.Bool.{Bool, false}
use network_study.Prelude.Tests.{ltb, if◌then◌else◌}

-- `negsuc n` is -(n + 1).
pub data ℤ : Type 0 where
  pos : ℕ → ℤ
  negsuc : ℕ → ℤ

-- `z > 0`
abbrev pub is_positive : ℤ → Bool
is_positive (pos n) = ltb 0 n
is_positive (negsuc n) = false

abbrev pub to_size : ℤ → ℕ
to_size (pos n) = n
to_size (negsuc n) = 2 ^ 64 - suc n

-- The int that 32 bits stand for.
abbrev pub int_of_bits : ℕ → ℤ
int_of_bits n = if ltb n (2 ^ 31) then pos n else negsuc (2 ^ 32 - suc n)

abbrev pub int_of_size : ℕ → ℤ
int_of_size n = int_of_bits (n % 2 ^ 32)

abbrev pub add_int : ℤ → ℤ → ℤ
add_int a b = int_of_size ((to_size a + to_size b) % 2 ^ 64)

abbrev pub sub_int : ℤ → ℤ → ℤ
sub_int a b = int_of_size ((to_size a + (2 ^ 64 - to_size b)) % 2 ^ 64)
