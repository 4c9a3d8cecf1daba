-- ===== src/Partition.antt =====
-- partition.go: the map between partitions and the workers of a process.
pub mod Exclusive
use sharathfold.Prelude.{
  ℕ, zero, suc, ◌+◌, ◌%◌, String, Bool, true, false, not, ◌||◌, List, [], ◌∷◌, map, Option, none,
  some, if◌then◌else◌, ◌==◌, leb, str_eq, ℤ, pos, negsuc, le_zero, to_nat, itoa, ◌+++◌, Dict,
  lookup, insert, length, get_elem?, set, replicate, contains_nat,
}
use sharathfold.Hash.{or_default_partitions}
use sharathfold.Assign.{range}

-- The partitions with a name in by_part are owned by it; "" stands for no owner.
pub record Ownership : Type 0 where
  pub partitions : ℕ
  pub by_owner : Dict (List ℕ)
  pub by_part : List String
  pub overlap : Bool
  pub narrowed : Bool

pub data Error : Type 0 where
  workers_below_one : Error
  claim_out_of_range : ℤ → Error
  claim_duplicate : ℕ → Error

pub data Built {ℓ} (A : Type ℓ) : Type ℓ where
  ok : A → Built A
  err : Error → Built A

-- fmt.Sprintf("worker-%d", i)
unfoldable pub owner_id : ℕ → String
owner_id i = "worker-" +++ itoa i

unfoldable pub claim_owner_id : String → String → ℕ → String
unfolding owner_id
claim_owner_id node_id incarnation w =
    if str_eq node_id ""
    then owner_id w
    else node_id +++ "/" +++ incarnation +++ "/worker-" +++ itoa w

-- p < 0 || p >= partitions
abbrev is_outside : ℤ → ℕ → Bool
is_outside (pos p) partitions = leb partitions p
is_outside (negsuc p) partitions = true

abbrev keep_first : ℕ → Built (List ℕ) → Built (List ℕ)
keep_first p (ok ps) = ok (p ∷ ps)
keep_first p (err e) = err e

-- The checks of PartitionsClaim. What passes is not negative.
check_claim : ℕ → List ℤ → List ℕ → Built (List ℕ)
check_claim partitions [] seen = ok []
check_claim partitions (p ∷ ps) seen =
    let rest = keep_first (to_nat p) (check_claim partitions ps (to_nat p ∷ seen)) in
    if is_outside p partitions
    then err (claim_out_of_range p)
    else if contains_nat seen (to_nat p)
    then err (claim_duplicate (to_nat p))
    else rest

abbrev universe : ℕ → Option (List ℤ) → Built (List ℕ)
universe partitions none = ok (range partitions)
universe partitions (some claim) = check_claim partitions claim []

-- The inner loop of a worker: `i` is the index in the universe. It appends to parts and writes byPart.
worker_parts : ℕ → ℕ → ℕ → List ℕ → List ℕ
worker_parts workers w i [] = []
worker_parts workers w i (p ∷ ps) =
    let rest = worker_parts workers w (i + 1) ps in if i % workers == w then p ∷ rest else rest

set_owner : String → List ℕ → List String → List String
set_owner id [] by_part = by_part
set_owner id (p ∷ ps) by_part = set_owner id ps (set by_part p id)

-- The body of the loop over the workers.
add_worker : ℕ → List ℕ → String → String → ℕ → Ownership → Ownership
unfolding worker_parts set_owner
add_worker workers universe node_id incarnation w o =
    let id = claim_owner_id node_id incarnation w in
    let parts = if o.overlap then universe else worker_parts workers w 0 universe in
    record o {
      by_owner = insert id parts o.by_owner;
      by_part = if o.overlap then o.by_part else set_owner id parts o.by_part;
    }

-- for w := 0; w < workers; w++
add_workers : ℕ → List ℕ → String → String → List ℕ → Ownership → Ownership
unfolding add_worker
add_workers workers universe node_id incarnation [] o = o
add_workers workers universe node_id incarnation (w ∷ ws) o =
    add_workers workers universe node_id incarnation ws
      (add_worker workers universe node_id incarnation w o)

abbrev is_some {ℓ} : {A : Type ℓ} → Option A → Bool
is_some none = false
is_some (some a) = true

abbrev no_workers : ℕ → Bool → Bool → Ownership
no_workers partitions overlap narrowed = record {
  partitions = partitions;
  by_owner = [];
  by_part = replicate partitions "";
  overlap = overlap;
  narrowed = narrowed;
}

build : ℕ → ℕ → Bool → Bool → String → String → Built (List ℕ) → Built Ownership
unfolding add_workers
build workers partitions overlap narrowed node_id incarnation (err e) = err e
build workers partitions overlap narrowed node_id incarnation (ok ps) = ok (
    add_workers workers ps node_id incarnation (range workers)
      (no_workers partitions overlap narrowed))

unfoldable pub build_ownership : ℤ → ℤ → Bool → Option (List ℤ) → String → String → Built Ownership
unfolding build check_claim
build_ownership workers partitions overlap claim node_id incarnation =
    let n = or_default_partitions partitions in
    if le_zero workers
    then err workers_below_one
    else build (to_nat workers) n overlap (is_some claim) node_id incarnation (universe n claim)

abbrev or_nil : Option (List ℕ) → List ℕ
or_nil none = []
or_nil (some ps) = ps

unfoldable pub partitions_for : Ownership → String → List ℕ
partitions_for o owner = or_nil (lookup owner o.by_owner)

abbrev named : Option String → Option String
named none = none
named (some id) = if str_eq id "" then none else some id

-- ownerOf: the name, if there is one
unfoldable pub owner_of : Ownership → ℕ → Option String
owner_of o partition = if o.overlap then none else named (get_elem? o.by_part partition)

-- owners, in the order in which Go ranges over the map
abbrev pub owners : Ownership → List String
owners o = map (λ e. e.0) o.by_owner
