-- ===== src/Partition/Exclusive.antt =====
-- Exclusive ownership in partition.go: the workers of a process share its partitions out.
use mathlib.Core.List.Memᴰ
use text.Mathlib.TextLemmas.{append_cancel_left}
use sharathfold.Prelude.{
  ℕ, zero, suc, ◌+◌, ◌%◌, ◌≤◌, ◌<◌, String, false, List, [], ◌∷◌, Memᴰ, none, some, ◌≡◌, refl, sym,
  ap, ◌∙◌, arith, ◌⊎◌, ◌↔◌, inl, inr, ◌==◌, ==_iff, str_eq, eq_iff, Bool-cases, itoa_inj, lookup,
  lookup-insert, true-false, ℤ, pos,
}
use sharathfold.Partition.{
  Ownership, ok, claim_owner_id, worker_parts, add_worker, add_workers, no_workers, partitions_for,
  build_ownership,
}
use sharathfold.Assign.{range_from, range}
use sharathfold.Assign.Cover.{mem-range_iff}
use sharathfold.Hash.{or_default_partitions}

-- Two workers of a process never share a token.
pub claim_owner_id_inj :
    (node_id incarnation : String) (v w : ℕ)
    → claim_owner_id node_id incarnation v ≡ claim_owner_id node_id incarnation w
    → v ≡ w
unfolding claim_owner_id
claim_owner_id_inj node_id incarnation v w h = elim (Bool-cases (str_eq node_id "")) [
  | inl k ↦ itoa_inj v w (append_cancel_left "worker-" _ _ (rw k at h))
  | inr k ↦ itoa_inj v w (
      append_cancel_left "/worker-" _ _ (
        append_cancel_left incarnation _ _
          (append_cancel_left "/" _ _ (append_cancel_left node_id _ _ (rw k at h)))))
]

-- Over the whole range a worker takes the partitions that are its index modulo the workers.
mem-worker_parts :
    (k w i n p : ℕ)
    → Memᴰ p (worker_parts (suc k) w i (range_from n i)) ↔ ((i ≤ p) × (p < i + n) × (p % suc k ≡ w))
unfolding worker_parts range_from
mem-worker_parts k w i zero p = (λ m. absurd (Memᴰ.not-nil m), λ (a, b, c). absurd (omega arith))
mem-worker_parts k w i (suc n) p =
    let (there, back) = mem-worker_parts k w (i + 1) n p in
    elim (Bool-cases (i % suc k == w)) [
      | inl e ↦ rw e (
        λ m. elim (Memᴰ.cases_cons m) [
          | inl q ↦ (omega arith, omega arith, rw q ((==_iff (i % suc k) w).0 e))
          | inr l ↦ let (a, b, c) = there l in (omega arith, omega arith, c)
        ],
        λ (a, b, c). elim (Bool-cases (p == i)) [
          | inl q ↦ Memᴰ.head ((==_iff p i).0 q)
          | inr q ↦ Memᴰ.tail (back (ground arith, omega arith, c))
        ],
      )
      | inr e ↦ rw e (
        λ m. let (a, b, c) = there m in (omega arith, omega arith, c),
        λ (a, b, c). elim (Bool-cases (p == i)) [
          | inl q ↦
              let r : i % suc k ≡ w = ap (λ (x : ℕ). x % suc k) (sym ((==_iff p i).0 q)) ∙ c in
              absurd (true-false ((==_iff (i % suc k) w).1 r) e)
          | inr q ↦ back (ground arith, omega arith, c)
        ],
      )
    ]

module _ (k : ℕ) (ps : List ℕ) (node_id incarnation : String) where
  abbrev id : ℕ → String
  id = claim_owner_id node_id incarnation

  abbrev parts : ℕ → List ℕ
  parts w = worker_parts (suc k) w 0 ps

  abbrev add_all : List ℕ → Ownership → Ownership
  add_all = add_workers (suc k) ps node_id incarnation

  -- The worker's entry is there, and is its share.
  abbrev Shares : ℕ → Ownership → Type 0
  Shares w o = (o.overlap ≡ false) × (lookup (id w) o.by_owner ≡ some (parts w))

  Shares-add_worker :
      (w x : ℕ) (o : Ownership)
      → o.overlap ≡ false
      → (w ≡ x) ⊎ (lookup (id w) o.by_owner ≡ some (parts w))
      → Shares w (add_worker (suc k) ps node_id incarnation x o)
  unfolding add_worker
  Shares-add_worker w x o h e = (
    h,
    simp (h, lookup-insert)
        (elim (Bool-cases (str_eq (id x) (id w))) [
          | inl q ↦ rw q (
              ap (λ (y : ℕ). some (parts y))
                (claim_owner_id_inj node_id incarnation x w ((eq_iff (id x) (id w)).0 q)))
          | inr q ↦ rw q (elim e [
            | inl r ↦ absurd (true-false ((eq_iff (id x) (id w)).1 (ap id (sym r))) q)
            | inr r ↦ r
          ])
        ]),
  )

  Shares-add_all_kept : (w : ℕ) (ws : List ℕ) (o : Ownership) → Shares w o → Shares w (add_all ws o)
  unfolding add_workers
  Shares-add_all_kept w [] o h = h
  Shares-add_all_kept w (x ∷ ws) o (h, e) =
      Shares-add_all_kept w ws _ (Shares-add_worker w x o h (inr e))

  Shares-add_all :
      (w : ℕ) (ws : List ℕ) (o : Ownership)
      → o.overlap ≡ false
      → Memᴰ w ws
      → Shares w (add_all ws o)
  unfolding add_workers add_worker
  Shares-add_all w [] o h m = absurd (Memᴰ.not-nil m)
  Shares-add_all w (x ∷ ws) o h m = elim (Memᴰ.cases_cons m) [
    | inl q ↦ Shares-add_all_kept w ws _ (Shares-add_worker w x o h (inl q))
    | inr n ↦ Shares-add_all w ws _ h n
  ]

-- The loop over the workers keeps the other fields.
record Keeps (o p : Ownership) : Type 0 where
  pub partitions : p.partitions ≡ o.partitions
  pub overlap : p.overlap ≡ o.overlap
  pub narrowed : p.narrowed ≡ o.narrowed

add_workers-Keeps :
    (workers : ℕ) (ps : List ℕ) (node_id incarnation : String) (ws : List ℕ) (o : Ownership)
    → Keeps o (add_workers workers ps node_id incarnation ws o)
unfolding add_workers add_worker
add_workers-Keeps workers ps node_id incarnation [] o = record {
  partitions = refl;
  overlap = refl;
  narrowed = refl;
}
add_workers-Keeps workers ps node_id incarnation (w ∷ ws) o =
    let k =
      add_workers-Keeps workers ps node_id incarnation ws
        (add_worker workers ps node_id incarnation w o) in
    record { partitions = k.partitions; overlap = k.overlap; narrowed = k.narrowed }

-- Each worker claims the partitions in range that are its index modulo the workers.
abbrev pub Shared : ℕ → ℕ → String → String → Ownership → Type 0
Shared n workers node_id incarnation o =
    (w p : ℕ)
    → w < workers
    → Memᴰ p (partitions_for o (claim_owner_id node_id incarnation w))
      ↔ ((p < n) × (p % workers ≡ w))

-- A process that claims the whole hash space, with at least one worker and exclusive ownership, gets
-- an ownership map, not overlapping and not narrowed, in which worker w claims exactly the
-- partitions in range that are w modulo the number of workers. So every partition has one owner, and
-- peers share none.
pub full_space_exclusive :
    (k : ℕ) (partitions : ℤ) (node_id incarnation : String)
    → (o : Ownership) × (build_ownership (pos (suc k)) partitions false none node_id incarnation
        ≡ ok o)
      × (o.partitions ≡ or_default_partitions partitions)
      × (o.overlap ≡ false)
      × (o.narrowed ≡ false)
      × Shared (or_default_partitions partitions) (suc k) node_id incarnation o
unfolding build_ownership partitions_for range
full_space_exclusive k partitions node_id incarnation =
    let n = or_default_partitions partitions in
    let empty = no_workers n false false in
    let keeps = add_workers-Keeps (suc k) (range n) node_id incarnation (range (suc k)) empty in
    (
      _,
      refl,
      keeps.partitions,
      keeps.overlap,
      keeps.narrowed,
      λ w p h.
          let share =
            Shares-add_all k (range n) node_id incarnation w (range (suc k)) empty refl
              ((mem-range_iff (suc k) w).1 h) in
          let (there, back) = mem-worker_parts k w 0 n p in
          rw share.1 (
            λ m. let (a, b, c) = there m in (omega arith, c),
            λ (a, c). back (omega arith, omega arith, c),
          ),
    )
