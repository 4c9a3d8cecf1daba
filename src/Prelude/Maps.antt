-- ===== src/Prelude/Maps.antt =====
-- A Go map with string keys, as an association list. Only what the program reads and writes.
use Prim.Native.String.{String}
use mathlib.Core.Bool.{false}
use mathlib.Core.Logic.{inl, inr}
use mathlib.Core.Path.{◌≡◌, refl}
use mathlib.Core.Option.{Option, none, some}
use mathlib.Core.List.{List, [], ◌∷◌}
use native.Mathlib.Omega.{arith}
use text.Mathlib.TextEquality.{eq_iff}
use sharathfold.Prelude.Tests.{if◌then◌else◌, str_eq, Bool-cases}

abbrev pub Dict {ℓ} : Type ℓ → Type ℓ
Dict V = List (String × V)

module _ {ℓ} {V : Type ℓ} where
  -- What is stored under the key.
  unfoldable pub lookup : String → Dict V → Option V
  lookup key [] = none
  lookup key (entry ∷ rest) =
      let later = lookup key rest in if str_eq entry.0 key then some entry.1 else later

  remove : String → Dict V → Dict V
  remove key [] = []
  remove key (entry ∷ rest) =
      let kept = remove key rest in if str_eq entry.0 key then kept else entry ∷ kept

  -- The write replaces the entry of the key.
  unfoldable pub insert : String → V → Dict V → Dict V
  unfolding remove
  insert key value entries = (key, value) ∷ remove key entries

  lookup-remove :
      (x y : String) (entries : Dict V)
      → str_eq x y ≡ false
      → lookup y (remove x entries) ≡ lookup y entries
  unfolding lookup remove
  lookup-remove x y [] apart = refl
  lookup-remove x y (entry ∷ rest) apart =
      ground (arith, eq_iff x y, eq_iff entry.0 x, eq_iff entry.0 y, lookup-remove x y rest apart)

  pub lookup-insert :
      (x y : String) (value : V) (entries : Dict V)
      → lookup y (insert x value entries) ≡ (if str_eq x y then some value else lookup y entries)
  unfolding lookup insert
  lookup-insert x y value entries = elim (Bool-cases (str_eq x y)) [
    | inl same ↦ rw same refl
    | inr apart ↦ rw apart (lookup-remove x y entries apart)
  ]
