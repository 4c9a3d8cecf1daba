-- ===== src/Dispatcher.antt =====
-- fold.go: the dispatcher's state, New, Start and Resize, which hold its mutex, so each is one step. The
-- goroutines of its workers are the list of the tokens that were spawned. A nil Store is memory.New(),
-- which the caller passes here. Random tokens and json.Marshal are parameters.
pub mod Resizing
pub mod Starting
pub mod Closing
use sharathfold.Prelude.{
  has_slash, ℕ, zero, suc, ◌+◌, ◌-◌, ◌*◌, ◌%◌, String, Bool, true, false, not, ◌&&◌, List, [], ◌∷◌,
  ◌++◌, map, Option, none, some, if◌then◌else◌, ◌==◌, str_eq, ◌+++◌, ℤ, pos, negsuc, le_zero,
  to_nat, length,
}
use sharathfold.Store.{
  Delivery, Status, Time, Context, with_context, GapInfo, Error, context_error, Result,
}
use sharathfold.Store as stores
use sharathfold.StoreApi.{StoreApi}
use sharathfold.Hash.{partition, or_default_partitions}
use sharathfold.Assign.{range_from, range}
use sharathfold.Partition.{Ownership, Built, build_ownership, claim_owner_id}
use sharathfold.Partition as partitions
use sharathfold.Backoff.{uint64_mod, default_base, default_max, or_default}
use sharathfold.Memory.State.{Store}
use sharathfold.Memory.Api.{memory_api}

-- What New reads of its Config. A hook is there or not; the transport is not read here.
pub record Config : Type 0 where
  pub workers : ℤ
  pub partitions : ℤ
  pub max_attempts : ℤ
  pub base_backoff : ℤ
  pub max_backoff : ℤ
  pub retention_max_count : ℤ
  pub retention_max_age : ℤ
  pub has_on_suspend : Bool
  pub has_on_delivery_error : Bool
  pub id_prefix : String
  pub overlap_partitions : Bool
  pub partitions_claim : Option (List ℤ)
  pub stale_claim_age : ℤ
  pub node_id : String

pub record Dispatcher (S : Type 0) : Type 0 where
  pub store : S
  pub max_attempts : ℕ
  pub base_backoff : ℤ
  pub max_backoff : ℤ
  pub has_on_suspend : Bool
  pub has_on_delivery_error : Bool
  pub stale_claim_age : ℤ
  pub own : Ownership
  pub generation : ℕ
  pub workers : ℕ
  pub started : Bool
  pub closed : Bool
  pub spawned : List String
  pub id_prefix : String
  pub node_id : String
  pub incarnation_id : String

-- One constructor for each message of fold.go.
pub data FoldError : Type 0 where
  context_done : FoldError
  node_id_has_slash : FoldError
  node_id_required : FoldError
  node_id_forbidden : FoldError
  bad_ownership : partitions.Error → FoldError
  dispatcher_closed : FoldError
  already_started : FoldError
  recover_stale_failed : Error → FoldError
  workers_below_one : FoldError
  not_started : FoldError
  resize_overlap : FoldError
  resize_narrowed : FoldError
  event_id_required : FoldError
  no_subscriber : FoldError
  subscriber_id_required : FoldError
  subscriber_url_required : FoldError
  encoding_failed : FoldError
  drain_count_not_supported : FoldError
  store_failed : Error → FoldError

pub data Fallible {ℓ} (A : Type ℓ) : Type ℓ where
  returns : A → Fallible A
  fails : FoldError → Fallible A

-- A setting that is positive, or its default.
abbrev positive_or : ℤ → ℤ → ℤ
positive_or d fallback = if le_zero d then fallback else d

-- What New does to a memory store.
unfoldable pub set_retention : Config → Store → Store
set_retention c s = record s {
  retention_max_count = positive_or c.retention_max_count s.retention_max_count;
  retention_max_age = positive_or c.retention_max_age s.retention_max_age;
}

-- A dispatcher's store: its methods, HasDistributedOwnership, and what New does to the store.
pub record Host (S : Type 0) : Type 0 where
  pub api : StoreApi S
  pub distributed : S → Bool
  pub prepare : Config → S → S

-- A memory store, which does not enforce distributed ownership.
abbrev pub memory_host : Host Store
memory_host = record { api = memory_api; distributed = λ s. false; prepare = set_retention }

abbrev pub is_set : String → Bool
is_set s = not (str_eq s "")

abbrev pub default_max_attempts : ℕ
default_max_attempts = 8

abbrev pub dispatcher_of : {S : Type 0} → Config → String → S → Ownership → Dispatcher S
dispatcher_of c incarnation s own = record {
  store = s;
  max_attempts = or_default c.max_attempts default_max_attempts;
  base_backoff = positive_or c.base_backoff (pos default_base);
  max_backoff = positive_or c.max_backoff (pos default_max);
  has_on_suspend = c.has_on_suspend;
  has_on_delivery_error = c.has_on_delivery_error;
  stale_claim_age = c.stale_claim_age;
  own = own;
  generation = 1;
  workers = or_default c.workers 1;
  started = false;
  closed = false;
  spawned = [];
  id_prefix = c.id_prefix;
  node_id = c.node_id;
  incarnation_id = incarnation;
}

abbrev pub with_ownership :
    {S : Type 0} → Config → String → S → Built Ownership → Fallible (Dispatcher S)
with_ownership c incarnation s (partitions.ok own) = returns (dispatcher_of c incarnation s own)
with_ownership c incarnation s (partitions.err e) = fails (bad_ownership e)

-- `random` is the token of newIncarnationID.
unfoldable pub new_dispatcher :
    {S : Type 0} → Host S → Config → String → S → Fallible (Dispatcher S)
new_dispatcher h c random s =
    let incarnation = if is_set c.node_id then random else "" in
    if has_slash c.node_id
    then fails node_id_has_slash
    else if h.distributed s && not (is_set c.node_id)
    then fails node_id_required
    else if not (h.distributed s) && is_set c.node_id
    then fails node_id_forbidden
    else with_ownership c incarnation (h.prepare c s) (
        build_ownership (pos (or_default c.workers 1)) (pos (or_default_partitions c.partitions))
          c.overlap_partitions c.partitions_claim c.node_id incarnation)

-- DefaultStaleClaimAge: one minute
abbrev pub default_stale_claim_age : ℤ
default_stale_claim_age = pos 60000000000

unfoldable pub effective_stale_age : ℤ → ℤ
effective_stale_age (negsuc n) = pos 0
effective_stale_age (pos zero) = default_stale_claim_age
effective_stale_age (pos (suc n)) = pos (suc n)

-- The tokens of the workers from index `from`, of which there are n.
unfoldable pub tokens : {S : Type 0} → Dispatcher S → ℕ → ℕ → List String
tokens d n from = map (claim_owner_id d.node_id d.incarnation_id) (range_from n from)

abbrev pub launch : {S : Type 0} → Dispatcher S → S × Result ℕ → Dispatcher S × Fallible (Unit {0})
launch d (s, stores.err e) = (record d { store = s }, fails (recover_stale_failed e))
launch d (s, stores.ok n) = (
  record d { store = s; started = true; spawned = d.spawned ++ tokens d d.workers 0 },
  returns tt,
)

unfoldable pub start :
    {S : Type 0} → StoreApi S → Context → Time → Dispatcher S → Dispatcher S × Fallible (Unit {0})
start api ctx now d =
    let age = effective_stale_age d.stale_claim_age in
    if d.closed
    then (d, fails dispatcher_closed)
    else if d.started
    then (d, fails already_started)
    else launch d
        (if le_zero age then (d.store, stores.ok 0) else api.recover_stale ctx now age d.store)

abbrev pub grown :
    {S : Type 0} → Dispatcher S → ℕ → Built Ownership → Dispatcher S × Fallible (Unit {0})
grown d workers (partitions.err e) = (d, fails (bad_ownership e))
grown d workers (partitions.ok own) = (
  record d {
    own = own;
    workers = workers;
    generation = (d.generation + 1) % uint64_mod;
    spawned = d.spawned ++ tokens d (workers - d.workers) d.workers;
  },
  returns tt,
)

unfoldable pub resize :
    {S : Type 0} → Context → ℤ → Dispatcher S → Dispatcher S × Fallible (Unit {0})
resize ctx workers d =
    with_context ctx (d, fails context_done)
      (if le_zero workers
        then (d, fails workers_below_one)
        else if d.closed
        then (d, fails dispatcher_closed)
        else if not d.started
        then (d, fails not_started)
        else if d.own.overlap
        then (d, fails resize_overlap)
        else if d.own.narrowed
        then (d, fails resize_narrowed)
        else if to_nat workers == d.workers
        then (d, returns tt)
        else grown d (to_nat workers)
            (build_ownership workers (pos d.own.partitions) false none d.node_id d.incarnation_id))
