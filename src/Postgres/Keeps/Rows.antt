-- ===== src/Postgres/Keeps/Rows.antt =====
-- The selections and updates of store/postgres/postgres.go: which rows they reach.
use mathlib.Core.List.Memᴰ
use sharathfold.Prelude.{
  ℕ, zero, suc, Bool, true, false, List, [], ◌∷◌, map, Memᴰ, none, some, ◌≡◌, refl, sym, arith, inl,
  inr, if◌then◌else◌, str_eq, Bool-cases,
}
use sharathfold.Store.{Delivery}
use sharathfold.Memory.State.{Store, find}
use sharathfold.Memory.Invariant.{Inv, Past, Same, Settles, Settle, Settle-Inv, Settle-Past}
use sharathfold.Memory.Invariant.Steps.{Same-refl, Settles-refl, map-Image}
use sharathfold.Postgres.State.{exists_row, find_row}
use sharathfold.Postgres.Enqueue.{conflicts}
use sharathfold.Postgres.Marks.{update_where}
use sharathfold.Postgres.Claim.{take}

-- EXISTS is false: no row passes the test.
pub exists_row-false :
    (p : Delivery → Bool) (ds : List Delivery) {d : Delivery}
    → exists_row p ds ≡ false
    → Memᴰ d ds
    → p d ≡ false
unfolding exists_row
exists_row-false p [] h m = absurd (Memᴰ.not-nil m)
exists_row-false p (e ∷ ds) {d} h m = elim (Memᴰ.cases_cons m) [
  | inl q ↦ rw q (ground arith)
  | inr n ↦ exists_row-false p ds (ground arith) n
]

-- A row that is selected is there, and passes the test.
pub mem-find_row :
    (p : Delivery → Bool) (ds : List Delivery) {d : Delivery}
    → find_row p ds ≡ some d
    → Memᴰ d ds × (p d ≡ true)
unfolding find_row
mem-find_row p [] h = cc
mem-find_row p (e ∷ ds) {d} h = elim (Bool-cases (p e)) [
  | inl k ↦
      let q : some e ≡ some d = rw k at h in let r : e ≡ d = cc in (Memᴰ.head (sym r), rw (← r) k)
  | inr k ↦ let (m, q) = mem-find_row p ds (rw k at h) in (Memᴰ.tail m, q)
]

pub mem-take {ℓ} : {A : Type ℓ} (n : ℕ) {x : A} (xs : List A) → Memᴰ x (take n xs) → Memᴰ x xs
unfolding take
mem-take zero xs m = absurd (Memᴰ.not-nil m)
mem-take (suc n) [] m = m
mem-take (suc n) (y ∷ xs) m = elim (Memᴰ.cases_cons m) [
  | inl q ↦ Memᴰ.head q
  | inr k ↦ Memᴰ.tail (mem-take n xs k)
]

-- A row that conflicts with none has a new key.
pub conflicts-fresh :
    (new : Delivery) (ds : List Delivery)
    → exists_row (conflicts new) ds ≡ false
    → find new.id ds ≡ none
unfolding exists_row find
conflicts-fresh new [] h = refl
conflicts-fresh new (d ∷ ds) h =
    let apart : str_eq d.id new.id ≡ false = ground arith in
    rw apart (conflicts-fresh new ds (ground arith))

-- A change of the rows that settles them, and leaves the suspensions and the counters.
pub map-Settle :
    (g : Delivery → Delivery) (s t : Store)
    → t.by_id ≡ map g s.by_id
    → t.subs ≡ s.subs
    → t.seq ≡ s.seq
    → t.disable_hol ≡ s.disable_hol
    → t.skip_suspend_gate ≡ s.skip_suspend_gate
    → ((d : Delivery) → Same d (g d))
    → ((d : Delivery) → Memᴰ d s.by_id → Settles d (g d))
    → Settle s t
map-Settle g s t rows subs seq hol gate same settles = record {
  g = g;
  image = rw rows (map-Image g s.by_id same);
  settles = settles;
  suspension = λ x. rw subs;
  counters = λ x. rw seq;
  hol = hol;
  gate = gate;
}

module _ (p : Delivery → Bool) (f : Delivery → Delivery) where
  abbrev pub written : Delivery → Delivery
  written d = if p d then f d else d

  pub written-Same : ((d : Delivery) → Same d (f d)) → (d : Delivery) → Same d (written d)
  written-Same same d = elim (Bool-cases (p d)) [
    | inl k ↦ rw k (same d)
    | inr k ↦ rw k (Same-refl d)
  ]

  -- An UPDATE settles, if it settles the rows that it selects.
  pub update_where-Settle :
      (s t : Store)
      → t.by_id ≡ update_where p f s.by_id
      → t.subs ≡ s.subs
      → t.seq ≡ s.seq
      → t.disable_hol ≡ s.disable_hol
      → t.skip_suspend_gate ≡ s.skip_suspend_gate
      → ((d : Delivery) → Same d (f d))
      → ((d : Delivery) → p d ≡ true → Settles d (f d))
      → Settle s t
  unfolding update_where
  update_where-Settle s t rows subs seq hol gate same settles =
      map-Settle written s t rows subs seq hol gate (written-Same same) λ d m.
        elim (Bool-cases (p d)) [ inl k ↦ rw k (settles d k) | inr k ↦ rw k (Settles-refl d) ]

-- The invariant, and the order with all that was handed out before.
abbrev pub Kept : List Delivery → Store → Type 0
Kept h s = Inv s × Past h s

pub Kept-Settle : (h : List Delivery) (s t : Store) → Kept h s → Settle s t → Kept h t
Kept-Settle h s t (v, p) k = (Settle-Inv s t v k, Settle-Past h s t p k)
