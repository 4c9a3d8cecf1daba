-- ===== src/Postgres/State.antt =====
-- The tables of store/postgres/schema.sql, and the Store of store/postgres/postgres.go. A NULL owner is
-- "", a NULL claimed_at is the zero time, and a NULL next_owner is none. A BIGINT is not bounded.
use sharathfold.Prelude.{
  ℕ, String, Bool, true, false, List, [], ◌∷◌, Option, none, some, if◌then◌else◌, ◌==◌, ℤ, le_zero,
  to_nat, Dict,
}
use sharathfold.Store.{Delivery}
use sharathfold.Memory.State.{SubMeta, default_retention_max_count, default_retention_max_age}
use sharathfold.Memory.State as memory

pub data OwnerState : Type 0 where
  active draining : OwnerState

-- A row of fold_partition_owners.
pub record OwnerRow : Type 0 where
  pub partition : ℕ
  pub owner_node : String
  pub generation : ℕ
  pub state : OwnerState
  pub next_owner : Option String

-- The four tables, and the fields of a process's Store.
pub record PgStore : Type 0 where
  pub deliveries : List Delivery
  pub subscriber_seq : Dict ℕ
  pub subscribers : Dict SubMeta
  pub partition_owners : List OwnerRow
  pub notify : Bool
  pub retention_max_count : ℤ
  pub retention_max_age : ℤ
  pub disable_hol : Bool
  pub skip_suspend_gate : Bool
  pub bypass_draining_claim_gate : Bool
  pub skip_in_flight_reset : Bool
  pub skip_mark_owner_gen_check : Bool
  pub distributed_ownership : Bool

-- What a call meets at the database: whether its first statement fails, or its transaction, whether one
-- fails after the owners were read, whether the answer is lost to what Enqueue commits or to the UPDATE of
-- Claim, once the database has applied it, which rows other transactions have locked, the collation of texts,
-- and the order of the rows that an UPDATE returns, which SQL leaves open.
pub record Db : Type 0 where
  pub fails : Bool
  pub fails_later : Bool
  pub loses_answer : Bool
  pub locked : String → Bool
  pub collate : String → String → Bool
  pub returns_first : Delivery → Delivery → Bool

-- if err != nil { return … }: since a transaction is rolled back, it does not matter which statement
-- fails.
abbrev pub with_database {ℓ} : {A : Type ℓ} → Db → A → A → A
with_database db on_error body = if db.fails then on_error else body

abbrev pub with_later {ℓ} : {A : Type ℓ} → Db → A → A → A
with_later db on_error body = if db.fails_later then on_error else body

abbrev pub signal : PgStore → PgStore
signal t = record t { notify = true }

abbrev pub is_active : OwnerState → Bool
is_active active = true
is_active draining = false

-- The row of a partition, which is the primary key.
unfoldable pub find_owner : ℕ → List OwnerRow → Option OwnerRow
find_owner p [] = none
find_owner p (o ∷ os) = let rest = find_owner p os in if o.partition == p then some o else rest

abbrev pub is_empty {ℓ} : {A : Type ℓ} → List A → Bool
is_empty [] = true
is_empty (x ∷ xs) = false

-- refreshDistributedOwnership
unfoldable pub refresh : PgStore → PgStore
refresh t = record t {
  distributed_ownership = if is_empty t.partition_owners then t.distributed_ownership else true;
}

-- SetDistributedOwnership
abbrev pub set_distributed_ownership : Bool → PgStore → PgStore
set_distributed_ownership b t = record t { distributed_ownership = b }

unfoldable pub retention_count : PgStore → ℕ
retention_count t =
    if le_zero t.retention_max_count
    then default_retention_max_count
    else to_nat t.retention_max_count

unfoldable pub retention_age : PgStore → ℤ
retention_age t =
    if le_zero t.retention_max_age then default_retention_max_age else t.retention_max_age

-- EXISTS (SELECT 1 FROM fold_deliveries WHERE …)
unfoldable pub exists_row : (Delivery → Bool) → List Delivery → Bool
exists_row p [] = false
exists_row p (d ∷ ds) = let rest = exists_row p ds in if p d then true else rest

-- SELECT … WHERE …, the first row
unfoldable pub find_row : (Delivery → Bool) → List Delivery → Option Delivery
find_row p [] = none
find_row p (d ∷ ds) = let rest = find_row p ds in if p d then some d else rest

-- The tables after a fresh Migrate, and a Store of one process over them.
abbrev pub new_store : PgStore
new_store = record {
  deliveries = [];
  subscriber_seq = [];
  subscribers = [];
  partition_owners = [];
  notify = false;
  retention_max_count = ℤ.pos 0;
  retention_max_age = ℤ.pos 0;
  disable_hol = false;
  skip_suspend_gate = false;
  bypass_draining_claim_gate = false;
  skip_in_flight_reset = false;
  skip_mark_owner_gen_check = false;
  distributed_ownership = false;
}

-- What the memory store would hold: the rows, counters and suspensions.
abbrev pub view : PgStore → memory.Store
view t = record {
  by_id = t.deliveries;
  seq = t.subscriber_seq;
  subs = t.subscribers;
  notify = t.notify;
  retention_max_count = t.retention_max_count;
  retention_max_age = t.retention_max_age;
  disable_hol = t.disable_hol;
  skip_suspend_gate = t.skip_suspend_gate;
  claim_calls = 0;
  claim_rows = 0;
  claim_non_empty = 0;
}
