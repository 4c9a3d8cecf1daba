-- ===== src/Assign/Cover.antt =====
-- The nodes of a fleet in assign.go share the partitions out: each partition is claimed by one node.
use mathlib.Core.List.Memᴰ
use native.Mathlib.Nat.{mod-lt, add-zero, zero-add}
use native.Mathlib.Decide.{dec_lt}
use sharathfold.Prelude.{
  ℕ, zero, suc, ◌+◌, ◌%◌, ◌≤◌, ◌<◌, String, true, false, [], map, Memᴰ, some, get_elem?, ◌≡◌, refl,
  sym, ap, ◌∙◌, subst, ◌⊎◌, arith, ◌↔◌, inl, inr, ◌==◌, ==_iff, leb, ℤ, pos, le_zero, to_nat,
  mem-keep_if, keep_if-mem, Bool-cases,
}
use sharathfold.Hash.{partition, or_default_partitions, partition-lt}
use sharathfold.Assign.{
  logical_node_id, node_index, range_from, range, is_outside, partitions_for_node,
  owner_assignments_for_nodes,
}

mem-range_from : (n p x : ℕ) → Memᴰ x (range_from n p) → (p ≤ x) × (x < p + n)
unfolding range_from
mem-range_from zero p x m = absurd (Memᴰ.not-nil m)
mem-range_from (suc n) p x m = elim (Memᴰ.cases_cons m) [
  | inl e ↦ (omega arith, omega arith)
  | inr k ↦ let (a, b) = mem-range_from n (p + 1) x k in (omega arith, omega arith)
]

pub range_from-mem : (n p x : ℕ) → p ≤ x → x < p + n → Memᴰ x (range_from n p)
unfolding range_from
range_from-mem zero p x a b = absurd (omega arith)
range_from-mem (suc n) p x a b = elim (Bool-cases (x == p)) [
  | inl e ↦ Memᴰ.head ((==_iff x p).0 e)
  | inr k ↦ Memᴰ.tail (range_from-mem n (p + 1) x (ground arith) (omega arith))
]

pub mem-range_iff : (n x : ℕ) → Memᴰ x (range n) ↔ (x < n)
unfolding range
mem-range_iff n x = (
  λ m. let (a, b) = mem-range_from n 0 x m in omega arith,
  λ h. range_from-mem n 0 x (omega arith) (omega arith),
)

-- In a fleet of n + 1 nodes, node i claims exactly the partitions in range that are i modulo n + 1.
mem-partitions_for_node :
    (partitions : ℤ) (n i p : ℕ)
    → i < suc n
    → Memᴰ p (partitions_for_node partitions (pos (suc n)) (pos i))
      ↔ ((p < or_default_partitions partitions) × (p % suc n ≡ i))
unfolding partitions_for_node
mem-partitions_for_node partitions n i p h =
    let inside : leb (suc n) i ≡ false = ground arith in
    let P = or_default_partitions partitions in
    rw inside (
      λ m.
          let (a, b) = mem-keep_if (λ x. x % suc n == i) (range P) m in
          ((mem-range_iff P p).0 a, (==_iff (p % suc n) i).0 b),
      λ q.
          keep_if-mem (λ x. x % suc n == i) (range P) ((mem-range_iff P p).1 q.0)
            ((==_iff (p % suc n) i).1 q.1),
    )

-- A node that is not of the fleet claims nothing.
pub partitions_for_node_outside :
    (partitions node_count node_index : ℤ)
    → (le_zero node_count ≡ true) ⊎ (is_outside node_index (to_nat node_count) ≡ true)
    → partitions_for_node partitions node_count node_index ≡ []
unfolding partitions_for_node
partitions_for_node_outside partitions node_count node_index h = ground arith

-- In a fleet of at least one node, each partition in range is claimed by exactly one node of the
-- fleet, and no node claims a partition out of range.
pub claimed_once :
    (partitions : ℤ) (n p : ℕ)
    → (p < or_default_partitions partitions
        → (i : ℕ) × (i < suc n)
          × Memᴰ p (partitions_for_node partitions (pos (suc n)) (pos i))
          × ((j : ℕ) → Memᴰ p (partitions_for_node partitions (pos (suc n)) (pos j)) → j ≡ i))
      × ((j : ℕ)
          → Memᴰ p (partitions_for_node partitions (pos (suc n)) (pos j))
          → p < or_default_partitions partitions)
claimed_once partitions n p = (
  λ h. (
    p % suc n,
    mod-lt p (omega arith),
    (mem-partitions_for_node partitions n (p % suc n) p (mod-lt p (omega arith))).1 (h, refl),
    λ j m. sym (claims j m).1,
  ),
  λ j m. (claims j m).0,
)
  where
    claims :
        (j : ℕ)
        → Memᴰ p (partitions_for_node partitions (pos (suc n)) (pos j))
        → (p < or_default_partitions partitions) × (p % suc n ≡ j)
    claims j m = elim (dec_lt j (suc n)) [
      | yes k ↦ (mem-partitions_for_node partitions n j p k).0 m
      | no k ↦ absurd (
          Memᴰ.not-nil (
            subst (λ l. Memᴰ p l)
              (partitions_for_node_outside partitions (pos (suc n)) (pos j) (inr (ground arith)))
              m))
    ]

-- The node that a subscriber is sent to claims the subscriber's partition.
pub node_index-claims :
    (subscriber_id : String) (partitions : ℤ) (n : ℕ)
    → Memᴰ (partition subscriber_id partitions) (
        partitions_for_node partitions
          (pos (suc n))
          (pos (node_index subscriber_id partitions (pos (suc n)))))
unfolding node_index
node_index-claims subscriber_id partitions n =
    let p = partition subscriber_id partitions in
    (mem-partitions_for_node partitions n (p % suc n) p (mod-lt p (omega arith))).1
      (partition-lt subscriber_id partitions, refl)

get_elem?-map-range_from :
    (f : ℕ → String) (n p i : ℕ) → i < n → get_elem? (map f (range_from n p)) i ≡ some (f (p + i))
unfolding range_from
get_elem?-map-range_from f zero p i h = absurd (omega arith)
get_elem?-map-range_from f (suc n) p zero h = rw add-zero
get_elem?-map-range_from f (suc n) p (suc i) h =
    get_elem?-map-range_from f n (p + 1) i (omega arith) ∙ ap (λ k. some (f k)) (omega arith)

-- The owners that a fleet is seeded with are the nodes that claim the partitions: if node i claims p
-- then the p-th owner is node i's name.
pub owner_assignments-claims :
    (partitions : ℤ) (n i p : ℕ)
    → i < suc n
    → Memᴰ p (partitions_for_node partitions (pos (suc n)) (pos i))
    → get_elem? (owner_assignments_for_nodes partitions (pos (suc n))) p ≡ some (logical_node_id i)
unfolding owner_assignments_for_nodes range
owner_assignments-claims partitions n i p h m =
    let (a, b) = (mem-partitions_for_node partitions n i p h).0 m in
    get_elem?-map-range_from (λ q. logical_node_id (q % suc n)) (or_default_partitions partitions) 0
      p a
    ∙ ap (λ (k : ℕ). some (logical_node_id k)) (ap (λ (k : ℕ). k % suc n) (zero-add p) ∙ b)
