-- ===== src/Prelude/Int.antt =====
-- Go's `int` where it may be negative: the comparisons that the operator makes with it.
use Prim.Native.Nat.{ℕ, suc, ◌-◌, ◌+◌}
use mathlib.Core.Bool.{Bool, true, false}
use openmcp_operator.Prelude.Tests.{ltb, eqb, if◌then◌else◌}

-- `negsuc n` is -(n + 1).
pub data ℤ : Type 0 where
  pos : ℕ → ℤ
  negsuc : ℕ → ℤ

-- a - b, as an integer.
abbrev pub sub_ℕ : ℕ → ℕ → ℤ
sub_ℕ a b = if ltb a b then negsuc (b - a - 1) else pos (a - b)

-- a + b for a natural number and an integer.
abbrev pub add_ℕ : ℕ → ℤ → ℤ
add_ℕ a (pos b) = pos (a + b)
add_ℕ a (negsuc b) = sub_ℕ a (suc b)

-- z > 0
abbrev pub is_positive : ℤ → Bool
is_positive (pos n) = ltb 0 n
is_positive (negsuc n) = false

-- z < 0
abbrev pub is_negative : ℤ → Bool
is_negative (pos n) = false
is_negative (negsuc n) = true

-- z == 0
abbrev pub is_zero : ℤ → Bool
is_zero (pos n) = eqb n 0
is_zero (negsuc n) = false

-- n < z
abbrev pub below : ℕ → ℤ → Bool
below n (pos m) = ltb n m
below n (negsuc m) = false

-- n > z
abbrev pub above : ℕ → ℤ → Bool
above n (pos m) = ltb m n
above n (negsuc m) = true

-- z - n
abbrev pub minus : ℤ → ℕ → ℤ
minus (pos m) n = sub_ℕ m n
minus (negsuc m) n = negsuc (m + n)
