-- ===== src/Prelude/Sort.antt =====
-- `sort.Slice` with a comparison, as an insertion sort.
use mathlib.Core.Bool.{Bool}
use mathlib.Core.List.Memᴰ
use mathlib.Core.List.{List, [], ◌∷◌, Memᴰ}
use mathlib.Core.Logic.{◌⊎◌, inl, inr}
use mathlib.Core.Path.{◌≡◌, refl}
use Prim.Native.Nat.{suc}
use native.Mathlib.Omega.{arith}
use sharathfold.Prelude.Tests.{if◌then◌else◌, Bool-cases}
use sharathfold.Prelude.Lists.{length}

module _ {ℓ} {A : Type ℓ} (less : A → A → Bool) where
  unfoldable pub insert_by : A → List A → List A
  insert_by a [] = a ∷ []
  insert_by a (b ∷ bs) = let rest = insert_by a bs in if less b a then b ∷ rest else a ∷ b ∷ bs

  unfoldable pub sort_by : List A → List A
  unfolding insert_by
  sort_by [] = []
  sort_by (a ∷ l) = insert_by a (sort_by l)

module _ {ℓ} {A : Type ℓ} (less : A → A → Bool) where
  mem-insert_by : {x : A} (a : A) (l : List A) → Memᴰ x (insert_by less a l) → (x ≡ a) ⊎ Memᴰ x l
  unfolding insert_by
  mem-insert_by a [] m = Memᴰ.cases_cons m
  mem-insert_by a (b ∷ bs) m = elim (Bool-cases (less b a)) [
    | inl h ↦ elim (Memᴰ.cases_cons (rw h at m)) [
      | inl e ↦ inr (Memᴰ.head e)
      | inr n ↦ elim (mem-insert_by a bs n) [ inl e ↦ inl e | inr k ↦ inr (Memᴰ.tail k) ]
    ]
    | inr h ↦ Memᴰ.cases_cons (rw h at m)
  ]

  insert_by-mem : {x : A} (a : A) (l : List A) → (x ≡ a) ⊎ Memᴰ x l → Memᴰ x (insert_by less a l)
  unfolding insert_by
  insert_by-mem a [] (inl e) = Memᴰ.head e
  insert_by-mem a [] (inr m) = Memᴰ.tail m
  insert_by-mem a (b ∷ bs) h = elim (Bool-cases (less b a)) [
    | inr k ↦ rw k (elim h [ inl e ↦ Memᴰ.head e | inr m ↦ Memᴰ.tail m ])
    | inl k ↦ rw k (elim h [
      | inl e ↦ Memᴰ.tail (insert_by-mem a bs (inl e))
      | inr m ↦ elim (Memᴰ.cases_cons m) [
        | inl e ↦ Memᴰ.head e
        | inr n ↦ Memᴰ.tail (insert_by-mem a bs (inr n))
      ]
    ])
  ]

  -- Sorting neither adds an element nor loses one.
  pub mem-sort_by : {x : A} (l : List A) → Memᴰ x (sort_by less l) → Memᴰ x l
  unfolding sort_by
  mem-sort_by [] m = m
  mem-sort_by (a ∷ l) m = elim (mem-insert_by a (sort_by less l) m) [
    | inl e ↦ Memᴰ.head e
    | inr n ↦ Memᴰ.tail (mem-sort_by l n)
  ]

  pub sort_by-mem : {x : A} (l : List A) → Memᴰ x l → Memᴰ x (sort_by less l)
  unfolding sort_by
  sort_by-mem [] m = m
  sort_by-mem (a ∷ l) m =
      insert_by-mem a (sort_by less l)
        (elim (Memᴰ.cases_cons m) [ inl e ↦ inl e | inr n ↦ inr (sort_by-mem l n) ])

  length-insert_by : (a : A) (l : List A) → length (insert_by less a l) ≡ suc (length l)
  unfolding insert_by
  length-insert_by a [] = refl
  length-insert_by a (b ∷ bs) = ground (arith, length-insert_by a bs)

  pub length-sort_by : (l : List A) → length (sort_by less l) ≡ length l
  unfolding sort_by
  length-sort_by [] = refl
  length-sort_by (a ∷ l) = omega (arith, length-insert_by a (sort_by less l), length-sort_by l)
