-- ===== src/Postgres/Ownership.antt =====
-- store/postgres/ownership.go: the durable owners of the partitions, and their handoff. A partition that
-- is negative has no row. The statements of a method are one step, also those of BeginHandoff, which the
-- source runs outside a transaction.
use sharathfold.Prelude.{
  ℕ, ◌+◌, ◌%◌, String, Bool, true, false, not, ◌&&◌, ◌||◌, List, [], ◌∷◌, map, Option, none, some,
  if◌then◌else◌, ◌==◌, str_eq, replicate, length, keep_if, ℤ, le_zero, to_nat, sort_by,
}
use sharathfold.Store.{Delivery, Context, with_context, is_in_flight}
use sharathfold.Backoff.{uint64_mod}
use sharathfold.Memory.Retention.{by_sequence}
use sharathfold.Postgres.State.{
  PgStore, OwnerRow, OwnerState, active, draining, Db, with_database, with_later, is_active, signal,
  find_owner, refresh, is_empty, exists_row,
}
use sharathfold.Prelude.{has_slash}
use sharathfold.Postgres.Marks.{update_where, to_pending}

-- One constructor for each message, less the name of the method.
pub data OwnershipError : Type 0 where
  context_done : OwnershipError
  database_down : OwnershipError
  partitions_below_one : OwnershipError
  owner_required : OwnershipError
  owners_required : OwnershipError
  empty_owner : ℕ → OwnershipError
  owner_has_slash : String → OwnershipError
  owner_conflict : ℕ → OwnershipError
  distributed_required : OwnershipError
  nodes_required : OwnershipError
  nodes_have_slash : OwnershipError
  to_node_required : OwnershipError
  to_node_has_slash : OwnershipError
  same_node : OwnershipError
  cas_miss : ℕ → OwnershipError
  cas_miss_or_in_flight : ℕ → OwnershipError
  generation_required : OwnershipError
  partition_missing : ℕ → OwnershipError
  takeover_conflict : ℕ → OwnershipError

pub data Owned {ℓ} (A : Type ℓ) : Type ℓ where
  ok : A → Owned A
  err : OwnershipError → Owned A

-- The checks of the owners' names, from partition p.
unfoldable pub check_owners : ℕ → List String → Option OwnershipError
check_owners p [] = none
check_owners p (owner ∷ owners) =
    let rest = check_owners (p + 1) owners in
    if str_eq owner ""
    then some (empty_owner p)
    else if has_slash owner
    then some (owner_has_slash owner)
    else rest

abbrev pub inserted : ℕ → String → OwnerRow
inserted p owner = record {
  partition = p;
  owner_node = owner;
  generation = 1;
  state = active;
  next_owner = none;
}

-- Whether the partition has a row, and it is another's.
abbrev pub is_other : String → Option OwnerRow → Bool
is_other owner none = false
is_other owner (some o) = not (str_eq o.owner_node owner)

-- The scan, ORDER BY partition: the first row that is another's.
unfoldable pub find_conflict : ℕ → List String → List OwnerRow → Option OwnershipError
find_conflict p [] rows = none
find_conflict p (owner ∷ owners) rows =
    let rest = find_conflict (p + 1) owners rows in
    if is_other owner (find_owner p rows) then some (owner_conflict p) else rest

abbrev pub add_missing : ℕ → String → List OwnerRow → Option OwnerRow → List OwnerRow
add_missing p owner rows none = inserted p owner ∷ rows
add_missing p owner rows (some o) = rows

-- The loop over the owners: a row for each partition that has none.
unfoldable pub insert_owners : ℕ → List String → List OwnerRow → List OwnerRow
insert_owners p [] rows = rows
insert_owners p (owner ∷ owners) rows =
    insert_owners (p + 1) owners (add_missing p owner rows (find_owner p rows))

abbrev pub unless :
    {S : Type 0} → S → Option OwnershipError → S × Owned (Unit {0}) → S × Owned (Unit {0})
unless t (some e) body = (t, err e)
unless t none body = body

unfoldable pub ensure_owner_assignments :
    Db → Context → List String → PgStore → PgStore × Owned (Unit {0})
ensure_owner_assignments db ctx owners t =
    with_context ctx (t, err context_done)
      (if is_empty owners
        then (t, err owners_required)
        else unless t (check_owners 0 owners) (
            with_database db (t, err database_down)
              (unless t (find_conflict 0 owners t.partition_owners) (
                record t {
                  partition_owners = insert_owners 0 owners t.partition_owners;
                  distributed_ownership = true;
                },
                ok tt,
              ))))

unfoldable pub ensure_owners : Db → Context → ℤ → String → PgStore → PgStore × Owned (Unit {0})
unfolding ensure_owner_assignments
ensure_owners db ctx partitions owner t =
    if le_zero partitions
    then (t, err partitions_below_one)
    else if str_eq owner ""
    then (t, err owner_required)
    else ensure_owner_assignments db ctx (replicate (to_nat partitions) owner) t

-- UPDATE fold_partition_owners SET … WHERE partition = $1 AND …
unfoldable pub update_owner : ℕ → (OwnerRow → OwnerRow) → List OwnerRow → List OwnerRow
update_owner p f = map (λ o. if o.partition == p then f o else o)

abbrev pub write_owner : ℕ → (OwnerRow → OwnerRow) → PgStore → PgStore
write_owner p f t = record t { partition_owners = update_owner p f t.partition_owners }

abbrev pub is_none {ℓ} : {A : Type ℓ} → Option A → Bool
is_none none = true
is_none (some a) = false

abbrev pub start_draining : String → OwnerRow → OwnerRow
start_draining to o = record o { state = draining; next_owner = some to }

-- The compare-and-swap of BeginHandoff on the row of the partition.
abbrev pub begin_row : ℕ → String → String → PgStore → Option OwnerRow → PgStore × Owned (Unit {0})
begin_row p from to t none = (t, err (cas_miss p))
begin_row p from to t (some o) =
    if str_eq o.owner_node from && is_active o.state && is_none o.next_owner
    then (write_owner p (start_draining to) t, ok tt)
    else (t, err (cas_miss p))

-- The three checks with which each of the next methods starts.
abbrev pub guarded :
    Db → Context → PgStore → (PgStore → PgStore × Owned (Unit {0})) → PgStore × Owned (Unit {0})
guarded db ctx t body =
    with_context ctx (t, err context_done)
      (with_database db (t, err database_down)
        (let t' = refresh t in
          if not t'.distributed_ownership then (t', err distributed_required) else body t'))

abbrev pub checked_begin : Db → ℕ → String → String → PgStore → PgStore × Owned (Unit {0})
checked_begin db p from to t =
    if str_eq from "" || str_eq to ""
    then (t, err nodes_required)
    else if has_slash from || has_slash to
    then (t, err nodes_have_slash)
    else if str_eq from to
    then (t, err same_node)
    else with_later db (t, err database_down)
        (begin_row p from to t (find_owner p t.partition_owners))

unfoldable pub begin_handoff :
    Db → Context → ℕ → String → String → PgStore → PgStore × Owned (Unit {0})
begin_handoff db ctx p from to t = guarded db ctx t (checked_begin db p from to)

abbrev pub in_flight_on : ℕ → Delivery → Bool
in_flight_on p d = (d.partition == p) && is_in_flight d.status

abbrev pub hand_over : String → OwnerRow → OwnerRow
hand_over to o = record o {
  owner_node = to;
  state = active;
  next_owner = none;
  generation = o.generation + 1;
}

abbrev pub complete_to : ℕ → PgStore → OwnerState → Option String → PgStore × Owned (Unit {0})
complete_to p t active next = (t, err (cas_miss_or_in_flight p))
complete_to p t draining none = (t, err (cas_miss_or_in_flight p))
complete_to p t draining (some to) =
    if exists_row (in_flight_on p) t.deliveries
    then (t, err (cas_miss_or_in_flight p))
    else (signal (write_owner p (hand_over to) t), ok tt)

abbrev pub complete_row : ℕ → PgStore → Option OwnerRow → PgStore × Owned (Unit {0})
complete_row p t none = (t, err (cas_miss_or_in_flight p))
complete_row p t (some o) = complete_to p t o.state o.next_owner

abbrev pub complete_found : Db → ℕ → PgStore → PgStore × Owned (Unit {0})
complete_found db p t =
    with_later db (t, err database_down) (complete_row p t (find_owner p t.partition_owners))

unfoldable pub complete_handoff : Db → Context → ℕ → PgStore → PgStore × Owned (Unit {0})
complete_handoff db ctx p t = guarded db ctx t (complete_found db p)

abbrev pub abort_drain : OwnerRow → OwnerRow
abort_drain o = record o { state = active; next_owner = none }

-- UPDATE fold_deliveries SET status = 'pending', … WHERE partition = $1 AND status = 'in_flight'
unfoldable pub reset_in_flight : ℕ → PgStore → PgStore
reset_in_flight p t = record t {
  deliveries =
      if t.skip_in_flight_reset
      then t.deliveries
      else update_where (in_flight_on p) to_pending t.deliveries;
}

-- Past the checks, on the row that was locked: the switch where the node owns it, and the takeover.
abbrev pub takeover_row : ℕ → String → ℕ → PgStore → Option OwnerRow → PgStore × Owned (Unit {0})
takeover_row p to expected t none = (t, err (partition_missing p))
takeover_row p to expected t (some o) =
    if str_eq o.owner_node to
    then (if not (is_active o.state) && o.generation == expected
        then (signal (write_owner p abort_drain t), ok tt)
        else if is_active o.state
            && (o.generation == expected || o.generation == (expected + 1) % uint64_mod)
        then (t, ok tt)
        else (t, err (takeover_conflict p)))
    else if not (o.generation == expected)
    then (t, err (takeover_conflict p))
    else (signal (reset_in_flight p (write_owner p (hand_over to) t)), ok tt)

abbrev pub checked_takeover : Db → ℕ → String → ℕ → PgStore → PgStore × Owned (Unit {0})
checked_takeover db p to expected t =
    if str_eq to ""
    then (t, err to_node_required)
    else if has_slash to
    then (t, err to_node_has_slash)
    else if expected == 0
    then (t, err generation_required)
    else with_later db (t, err database_down)
        (takeover_row p to expected t (find_owner p t.partition_owners))

unfoldable pub force_takeover : Db → Context → ℕ → String → ℕ → PgStore → PgStore × Owned (Unit {0})
unfolding reset_in_flight
force_takeover db ctx p to expected t = guarded db ctx t (checked_takeover db p to expected)

-- OwnerRow: the row, if there is one.
abbrev pub owner_row : ℕ → PgStore → Option OwnerRow
owner_row p t = find_owner p t.partition_owners

unfoldable pub in_flight_count : ℕ → PgStore → ℕ
in_flight_count p t = length (keep_if (in_flight_on p) t.deliveries)

abbrev stamp_of : List Delivery → Option (String × String × ℕ)
stamp_of [] = none
stamp_of (d ∷ ds) = some (d.id, d.owner, d.generation)

-- InFlightStamp: the row in flight of the partition with the lowest sequence.
unfoldable pub in_flight_stamp : ℕ → PgStore → Option (String × String × ℕ)
in_flight_stamp p t = stamp_of (sort_by by_sequence (keep_if (in_flight_on p) t.deliveries))
