-- ===== src/Prelude/Text.antt =====
-- Decimal printing, `fmt.Sprintf("%d", n)`.
use Prim.Native.Nat.{ℕ, zero, suc, ◌+◌, ◌/◌, ◌%◌}
use Prim.Native.String.{String, slice}
use Prim.Native.String
use sharathfold.Prelude.Tests.{if◌then◌else◌, ltb}

infixr 65 ◌+++◌
-- s + t on Go strings
abbrev pub ◌+++◌ : String → String → String
s +++ t = String.◌++◌ s t

unfoldable pub digit : ℕ → String
digit k = slice "0123456789" k (k + 1)

-- The call on n / 10 waits, so the fuel is not used up. A number has fewer digits than its value.
unfoldable pub itoa_fuel : ℕ → ℕ → String
unfolding digit
itoa_fuel zero n = ""
itoa_fuel (suc f) n =
    let rest = itoa_fuel f (n / 10) in if ltb n 10 then digit n else rest +++ digit (n % 10)

unfoldable pub itoa : ℕ → String
unfolding itoa_fuel
itoa n = itoa_fuel (suc n) n
