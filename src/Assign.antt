-- ===== src/Assign.antt =====
-- assign.go: which node of a fleet claims which partitions.
pub mod Cover
use sharathfold.Prelude.{
  ℕ, zero, suc, ◌+◌, ◌%◌, String, Bool, true, false, List, [], ◌∷◌, map, if◌then◌else◌, ◌==◌, leb,
  ℤ, pos, negsuc, le_zero, to_nat, itoa, ◌+++◌, keep_if,
}
use sharathfold.Hash.{partition, or_default_partitions}

-- fmt.Sprintf("go%d", nodeIndex), for an index that is not negative
unfoldable pub logical_node_id : ℕ → String
logical_node_id node_index = "go" +++ itoa node_index

unfoldable pub node_index : String → ℤ → ℤ → ℕ
node_index subscriber_id partitions node_count =
    if le_zero node_count then 0 else partition subscriber_id partitions % to_nat node_count

-- p, p + 1, …: the n values of a counting loop.
unfoldable pub range_from : ℕ → ℕ → List ℕ
range_from zero p = []
range_from (suc n) p = p ∷ range_from n (p + 1)

-- for p := 0; p < n; p++
unfoldable pub range : ℕ → List ℕ
unfolding range_from
range n = range_from n 0

-- nodeIndex < 0 || nodeIndex >= nodeCount
abbrev pub is_outside : ℤ → ℕ → Bool
is_outside (pos i) node_count = leb node_count i
is_outside (negsuc i) node_count = true

unfoldable pub partitions_for_node : ℤ → ℤ → ℤ → List ℕ
partitions_for_node partitions node_count node_index =
    if le_zero node_count
    then []
    else if is_outside node_index (to_nat node_count)
    then []
    else keep_if (λ p. p % to_nat node_count == to_nat node_index)
        (range (or_default_partitions partitions))

unfoldable pub owner_assignments_for_nodes : ℤ → ℤ → List String
owner_assignments_for_nodes partitions node_count =
    if le_zero node_count
    then []
    else map (λ p. logical_node_id (p % to_nat node_count))
        (range (or_default_partitions partitions))
