-- ===== src/Prelude/Split.antt =====
-- Texts taken apart: strings.Contains, strings.Split and strings.CutPrefix with a separator of one
-- character, and what holds of every character.
use Prim.Native.Char.{code}
use Prim.Native.Nat.{ℕ}
use Prim.Native.String.{String}
use Prim.Native.String.append
use mathlib.Core.Bool.{Bool, true, false}
use mathlib.Core.List.{List, [], ◌∷◌}
use mathlib.Core.Logic.{inl, inr}
use mathlib.Core.Option.{Option, none, some}
use mathlib.Core.Path.{◌≡◌, refl, ap, ◌∙◌}
use native.Mathlib.Omega.{arith}
use sharathfold.Prelude.Tests.{if◌then◌else◌, ◌==◌, ==_iff, true-false, Bool-cases}
use sharathfold.Prelude.Text.{◌+++◌}

-- strings.Contains(s, sep)
unfoldable pub has_char : ℕ → String → Bool
has_char sep String.[] = false
has_char sep (String.◌∷◌ c s) = let rest = has_char sep s in if code c == sep then true else rest

-- strings.Contains(s, "/")
abbrev pub has_slash : String → Bool
has_slash = has_char b'/'

-- The first part of a split, and the others.
abbrev join_first : String → List String → List String
join_first c [] = c ∷ []
join_first c (p ∷ ps) = (c +++ p) ∷ ps

-- strings.Split(s, sep)
unfoldable pub split_on : ℕ → String → List String
split_on sep String.[] = "" ∷ []
split_on sep (String.◌∷◌ c s) =
    let rest = split_on sep s in
    if code c == sep then "" ∷ rest else join_first (String.◌∷◌ c String.[]) rest

-- What follows a prefix, if it is one.
unfoldable pub strip_prefix : String → String → Option String
strip_prefix String.[] s = some s
strip_prefix (String.◌∷◌ p ps) String.[] = none
strip_prefix (String.◌∷◌ p ps) (String.◌∷◌ c s) =
    let rest = strip_prefix ps s in if code p == code c then rest else none

-- Every character passes the test.
abbrev pub All : (ℕ → Bool) → String → Type 0
All p String.[] = Unit
All p (String.◌∷◌ c s) = (p (code c) ≡ true) × All p s

pub All-append : (p : ℕ → Bool) (s t : String) → All p s → All p t → All p (s +++ t)
All-append p String.[] t a b = rw append.nil b
All-append p (String.◌∷◌ c s) t a b = rw append.cons (a.0, All-append p s t a.1 b)

-- A test that follows from another.
pub All-weaken :
    (p q : ℕ → Bool) (s : String) → ((c : ℕ) → p c ≡ true → q c ≡ true) → All p s → All q s
All-weaken p q String.[] h a = tt
All-weaken p q (String.◌∷◌ c s) h a = (h (code c) a.0, All-weaken p q s h a.1)

-- A test that the separator fails.
pub has_char-All :
    (sep : ℕ) (p : ℕ → Bool) (s : String) → p sep ≡ false → All p s → has_char sep s ≡ false
unfolding has_char
has_char-All sep p String.[] h a = refl
has_char-All sep p (String.◌∷◌ c s) h a = elim (Bool-cases (code c == sep)) [
  | inl k ↦ absurd (true-false a.0 (ap p ((==_iff (code c) sep).0 k) ∙ h))
  | inr k ↦ rw k (has_char-All sep p s h a.1)
]

pub has_char-append :
    (sep : ℕ) (s t : String)
    → has_char sep s ≡ false
    → has_char sep t ≡ false
    → has_char sep (s +++ t) ≡ false
unfolding has_char
has_char-append sep String.[] t p q = rw append.nil q
has_char-append sep (String.◌∷◌ c s) t p q = elim (Bool-cases (code c == sep)) [
  | inl k ↦ let r : true ≡ false = rw k at p in cc
  | inr k ↦ rw (append.cons, k) (has_char-append sep s t (rw k at p) q)
]

-- A part without the separator ends at the next one.
pub split_on-append :
    (sep : ℕ) (m s t : String)
    → split_on sep (m +++ t) ≡ "" ∷ split_on sep t
    → has_char sep s ≡ false
    → split_on sep (s +++ (m +++ t)) ≡ s ∷ split_on sep t
unfolding has_char split_on
split_on-append sep m String.[] t e h = rw append.nil e
split_on-append sep m (String.◌∷◌ c s) t e h = elim (Bool-cases (code c == sep)) [
  | inl k ↦ let q : true ≡ false = rw k at h in cc
  | inr k ↦
      rw (append.cons, k, split_on-append sep m s t e (rw k at h), append.cons, append.nil) refl
]

pub split_on-whole : (sep : ℕ) (s : String) → has_char sep s ≡ false → split_on sep s ≡ s ∷ []
unfolding has_char split_on
split_on-whole sep String.[] h = refl
split_on-whole sep (String.◌∷◌ c s) h = elim (Bool-cases (code c == sep)) [
  | inl k ↦ let q : true ≡ false = rw k at h in cc
  | inr k ↦ rw (k, split_on-whole sep s (rw k at h), append.cons, append.nil) refl
]

pub strip_prefix-append : (p s : String) → strip_prefix p (p +++ s) ≡ some s
unfolding strip_prefix
strip_prefix-append String.[] s = rw append.nil refl
strip_prefix-append (String.◌∷◌ c p) s =
    let same : (code c == code c) ≡ true = ground arith in
    rw (append.cons, same) (strip_prefix-append p s)
