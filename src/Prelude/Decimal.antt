-- ===== src/Prelude/Decimal.antt =====
-- Decimal printing loses nothing: the number can be read back.
use Prim.Native.Char.{code}
use Prim.Native.Nat.{ℕ, zero, suc, ◌+◌, ◌-◌, ◌*◌, ◌/◌, ◌%◌, ◌<◌}
use Prim.Native.String.{String}
use Prim.Native.String.append
use mathlib.Core.Logic.{◌≢◌, inl, inr}
use mathlib.Core.Bool.{Bool, ◌&&◌}
use mathlib.Core.Path.{◌≡◌, refl, sym, ◌∙◌, ap}
use native.Mathlib.Omega.{arith}
use sharathfold.Prelude.Tests.{ltb, leb, Bool-cases}
use sharathfold.Prelude.Split.{All, All-append}
use sharathfold.Prelude.Text.{itoa, itoa_fuel, digit, ◌+++◌}

-- The number that a text of digits after `acc` stands for.
unfoldable pub value : ℕ → String → ℕ
value acc String.[] = acc
value acc (String.◌∷◌ c s) = value (acc * 10 + (code c - 48)) s

value-append : (acc : ℕ) (s t : String) → value acc (s +++ t) ≡ value (value acc s) t
unfolding value
value-append acc String.[] t = rw append.nil
value-append acc (String.◌∷◌ c s) t = rw append.cons (value-append (acc * 10 + (code c - 48)) s t)

value-digit : (acc d : ℕ) → d < 10 → value acc (digit d) ≡ acc * 10 + d
unfolding value digit
value-digit acc zero h = omega arith
value-digit acc (suc zero) h = omega arith
value-digit acc (suc (suc zero)) h = omega arith
value-digit acc (suc (suc (suc zero))) h = omega arith
value-digit acc (suc (suc (suc (suc zero)))) h = omega arith
value-digit acc (suc (suc (suc (suc (suc zero))))) h = omega arith
value-digit acc (suc (suc (suc (suc (suc (suc zero)))))) h = omega arith
value-digit acc (suc (suc (suc (suc (suc (suc (suc zero))))))) h = omega arith
value-digit acc (suc (suc (suc (suc (suc (suc (suc (suc zero)))))))) h = omega arith
value-digit acc (suc (suc (suc (suc (suc (suc (suc (suc (suc zero))))))))) h = omega arith
value-digit acc (suc (suc (suc (suc (suc (suc (suc (suc (suc (suc d)))))))))) h =
    absurd (omega arith)

value-itoa_fuel : (f n : ℕ) → n < f → value 0 (itoa_fuel f n) ≡ n
unfolding itoa_fuel
value-itoa_fuel zero n h = absurd (omega arith)
value-itoa_fuel (suc f) n h = elim (Bool-cases (ltb n 10)) [
  | inl one ↦ rw one (omega (arith, value-digit 0 n (ground arith)))
  | inr more ↦
      rw (more, value-append 0 (itoa_fuel f (n / 10)) (digit (n % 10)))
        (value-digit (value 0 (itoa_fuel f (n / 10))) (n % 10) (omega arith)
          ∙ omega (arith, value-itoa_fuel f (n / 10) (ground arith)))
]

-- Different numbers print differently.
pub itoa_inj : (m n : ℕ) → itoa m ≡ itoa n → m ≡ n
unfolding itoa
itoa_inj m n h =
    sym (value-itoa_fuel (suc m) m (omega arith))
    ∙ ap (value 0) h
    ∙ value-itoa_fuel (suc n) n (omega arith)

pub value-itoa : (n : ℕ) → value 0 (itoa n) ≡ n
unfolding itoa
value-itoa n = value-itoa_fuel (suc n) n (omega arith)

abbrev pub is_digit : ℕ → Bool
is_digit c = leb b'0' c && leb c b'9'

-- A text of digits only.
abbrev pub Digits : String → Type 0
Digits = All is_digit

pub Digits-digit : (d : ℕ) → d < 10 → Digits (digit d)
unfolding digit
Digits-digit zero h = (refl, tt)
Digits-digit (suc zero) h = (refl, tt)
Digits-digit (suc (suc zero)) h = (refl, tt)
Digits-digit (suc (suc (suc zero))) h = (refl, tt)
Digits-digit (suc (suc (suc (suc zero)))) h = (refl, tt)
Digits-digit (suc (suc (suc (suc (suc zero))))) h = (refl, tt)
Digits-digit (suc (suc (suc (suc (suc (suc zero)))))) h = (refl, tt)
Digits-digit (suc (suc (suc (suc (suc (suc (suc zero))))))) h = (refl, tt)
Digits-digit (suc (suc (suc (suc (suc (suc (suc (suc zero)))))))) h = (refl, tt)
Digits-digit (suc (suc (suc (suc (suc (suc (suc (suc (suc zero))))))))) h = (refl, tt)
Digits-digit (suc (suc (suc (suc (suc (suc (suc (suc (suc (suc d)))))))))) h = absurd (omega arith)

Digits-itoa_fuel : (f n : ℕ) → n < f → Digits (itoa_fuel f n)
unfolding itoa_fuel
Digits-itoa_fuel zero n h = absurd (omega arith)
Digits-itoa_fuel (suc f) n h = elim (Bool-cases (ltb n 10)) [
  | inl one ↦ rw one (Digits-digit n (ground arith))
  | inr more ↦ rw more (
      All-append is_digit (itoa_fuel f (n / 10)) (digit (n % 10))
        (Digits-itoa_fuel f (n / 10) (ground arith)) (Digits-digit (n % 10) (omega arith)))
]

-- A number prints as digits, at least one.
pub Digits-itoa : (n : ℕ) → Digits (itoa n)
unfolding itoa
Digits-itoa n = Digits-itoa_fuel (suc n) n (omega arith)

-- Only 0 has the value of the empty text.
itoa-empty : (n : ℕ) → itoa n ≡ String.[] → n ≡ 0
unfolding value
itoa-empty n h = sym (value-itoa n) ∙ ap (value 0) h

zero_prints : itoa 0 ≢ String.[]
unfolding itoa itoa_fuel digit
zero_prints e = cc

pub itoa-not_empty : (n : ℕ) → itoa n ≢ String.[]
itoa-not_empty n h = zero_prints (ap itoa (sym (itoa-empty n h)) ∙ h)
