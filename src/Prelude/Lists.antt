-- ===== src/Prelude/Lists.antt =====
-- Lists measured by native numbers, and membership as a family that proofs take apart.
use Prim.Native.Nat.{ℕ, zero, suc, ◌+◌}
use Prim.Native.String.{String}
use mathlib.Core.Path.{◌≡◌, refl, sym}
use mathlib.Core.Logic.{inl, inr}
use mathlib.Core.Bool.{Bool, true, false}
use mathlib.Core.Option.{Option, none, some}
use mathlib.Core.List.Memᴰ
use mathlib.Core.List.{List, [], ◌∷◌, ◌++◌, Memᴰ}
use native.Mathlib.Omega.{arith}
use sharathfold.Prelude.Tests.{if◌then◌else◌, str_eq, str_eq→eq, Bool-cases, ◌==◌}

module _ {ℓ} {A : Type ℓ} where
  abbrev pub length : List A → ℕ
  length [] = 0
  length (x ∷ xs) = suc (length xs)

  pub length-append : (xs ys : List A) → length (xs ++ ys) ≡ length xs + length ys
  length-append [] ys = omega arith
  length-append (x ∷ xs) ys = omega (arith, length-append xs ys)

  abbrev pub get_elem? : List A → ℕ → Option A
  get_elem? [] i = none
  get_elem? (x ∷ xs) zero = some x
  get_elem? (x ∷ xs) (suc i) = get_elem? xs i

  -- A write out of bounds changes nothing.
  abbrev pub set : List A → ℕ → A → List A
  set [] i v = []
  set (x ∷ xs) zero v = v ∷ xs
  set (x ∷ xs) (suc i) v = x ∷ set xs i v

  abbrev pub replicate : ℕ → A → List A
  replicate zero a = []
  replicate (suc n) a = a ∷ replicate n a

  -- The elements that pass a Boolean test.
  unfoldable pub keep_if : (A → Bool) → List A → List A
  keep_if p [] = []
  keep_if p (x ∷ xs) = let rest = keep_if p xs in if p x then x ∷ rest else rest

  pub mem-keep_if :
      (p : A → Bool) {x : A} (xs : List A) → Memᴰ x (keep_if p xs) → Memᴰ x xs × (p x ≡ true)
  unfolding keep_if
  mem-keep_if p [] m = absurd (Memᴰ.not-nil m)
  mem-keep_if p {x} (y ∷ ys) m = elim (Bool-cases (p y)) [
    | inl h ↦ elim (Memᴰ.cases_cons (rw h at m)) [
      | inl e ↦ (Memᴰ.head e, rw e h)
      | inr n ↦ let (a, b) = mem-keep_if p ys n in (Memᴰ.tail a, b)
    ]
    | inr h ↦ let (a, b) = mem-keep_if p ys (rw h at m) in (Memᴰ.tail a, b)
  ]

  pub keep_if-mem :
      (p : A → Bool) {x : A} (xs : List A) → Memᴰ x xs → p x ≡ true → Memᴰ x (keep_if p xs)
  unfolding keep_if
  keep_if-mem p [] m h = absurd (Memᴰ.not-nil m)
  keep_if-mem p {x} (y ∷ ys) m h = elim (Memᴰ.cases_cons m) [
    | inl e ↦ rw (← e, h) (Memᴰ.head refl)
    | inr n ↦ elim (Bool-cases (p y)) [
      | inl k ↦ rw k (Memᴰ.tail (keep_if-mem p ys n h))
      | inr k ↦ rw k (keep_if-mem p ys n h)
    ]
  ]

-- A Go map used as a set of strings: whether `a` is in it.
unfoldable pub contains : List String → String → Bool
contains [] a = false
contains (x ∷ xs) a = if str_eq x a then true else contains xs a

pub contains-mem : (xs : List String) {a : String} → contains xs a ≡ true → Memᴰ a xs
unfolding contains
contains-mem [] h = cc
contains-mem (x ∷ xs) {a} h = elim (Bool-cases (str_eq x a)) [
  | inl k ↦ Memᴰ.head (sym (str_eq→eq x a k))
  | inr k ↦ Memᴰ.tail (contains-mem xs (rw k at h))
]

-- A Go map used as a set of ints.
unfoldable pub contains_nat : List ℕ → ℕ → Bool
contains_nat [] a = false
contains_nat (x ∷ xs) a = if x == a then true else contains_nat xs a
