-- ===== src/Prelude/Int.antt =====
-- Go's signed integers, where the program compares them with 0. `negsuc n` is -(n + 1).
use Prim.Native.Nat.{ℕ, zero, suc}
use mathlib.Core.Bool.{Bool, true, false}
use mathlib.Core.Option.{Option, none, some}

pub data ℤ : Type 0 where
  pos : ℕ → ℤ
  negsuc : ℕ → ℤ

-- `i <= 0`
abbrev pub le_zero : ℤ → Bool
le_zero (pos zero) = true
le_zero (pos (suc n)) = false
le_zero (negsuc n) = true

-- The value of an integer that is known to be positive.
abbrev pub to_nat : ℤ → ℕ
to_nat (pos n) = n
to_nat (negsuc n) = 0

-- -n
abbrev negative_of : ℕ → ℤ
negative_of zero = pos zero
negative_of (suc n) = negsuc n

-- The number that was read, under its sign.
abbrev pub positive : Option ℕ → Option ℤ
positive none = none
positive (some n) = some (pos n)

abbrev pub negative : Option ℕ → Option ℤ
negative none = none
negative (some n) = some (negative_of n)

-- 2^63
abbrev pub int64_bound : ℕ
int64_bound = 9223372036854775808
