-- ===== src/Postgres/Claim.antt =====
-- Claim of store/postgres/postgres.go: up to three counts of the checks, and one UPDATE. The source opens no
-- transaction for them; here they are one step, on the same tables.
use sharathfold.Prelude.{
  ℕ, zero, suc, ◌+◌, String, Bool, true, false, not, ◌&&◌, List, [], ◌∷◌, map, Option, none, some,
  if◌then◌else◌, ltb, leb, ◌==◌, str_eq, ℤ, le_zero, to_nat, contains, contains_nat, length,
  sort_by, keep_if,
}
use sharathfold.Store.{
  Delivery, Status, Time, Context, with_context, Result, ok, err, context_error, is_pending,
  is_unfinished, claim_requires_owner, claim_requires_generation, database_failed,
  claim_requires_distributed_owner, no_partition_owners, deliveries_lack_owners,
}
use sharathfold.Memory.State.{meta_of}
use sharathfold.Postgres.State.{
  PgStore, OwnerRow, Db, with_database, with_later, is_active, find_owner, refresh, is_empty,
  exists_row,
}
use sharathfold.Tokens.{parse_distributed_owner}

-- The first n of a list.
unfoldable pub take {ℓ} : {A : Type ℓ} → ℕ → List A → List A
take zero xs = []
take (suc n) [] = []
take (suc n) (x ∷ xs) = x ∷ take n xs

-- holClause: the row is held up by an earlier one of its subscriber.
unfoldable pub is_behind : PgStore → Delivery → Bool
is_behind t d =
    not t.disable_hol
    && exists_row
        (λ e.
          str_eq e.subscriber_id d.subscriber_id
          && ltb e.sequence d.sequence
          && is_unfinished e.status)
        t.deliveries

-- suspendClause
unfoldable pub is_suspended : PgStore → Delivery → Bool
is_suspended t d = not t.skip_suspend_gate && (meta_of t.subscribers d.subscriber_id).suspended

abbrev pub is_eligible : PgStore → Time → Delivery → Bool
is_eligible t now d =
    is_pending d.status && leb d.next_attempt now && not (is_suspended t d) && not (is_behind t d)

-- Under which generation the row may be claimed, if it may: by the caller's partitions, or by the
-- durable owner of its partition.
abbrev pub grant_listed : List ℕ → ℕ → Delivery → Option ℕ
grant_listed partitions generation d =
    if contains_nat partitions d.partition then some generation else none

abbrev pub grant_of : PgStore → String → Option OwnerRow → Option ℕ
grant_of t node none = none
grant_of t node (some po) =
    if str_eq po.owner_node node
      && (if t.bypass_draining_claim_gate then true else is_active po.state)
    then some po.generation
    else none

unfoldable pub grant_owned : PgStore → String → Delivery → Option ℕ
grant_owned t node d = grant_of t node (find_owner d.partition t.partition_owners)

abbrev pub is_granted : Option ℕ → Bool
is_granted none = false
is_granted (some g) = true

-- ORDER BY d.partition, d.subscriber_id, d.sequence
abbrev pub row_less : Db → Delivery → Delivery → Bool
row_less db d e =
    if not (d.partition == e.partition)
    then ltb d.partition e.partition
    else if not (str_eq d.subscriber_id e.subscriber_id)
    then db.collate d.subscriber_id e.subscriber_id
    else ltb d.sequence e.sequence

-- The common table expression: LIMIT counts the rows that are not skipped as locked.
unfoldable pub candidates : Db → Time → (Delivery → Option ℕ) → ℕ → PgStore → List Delivery
candidates db now grant limit t = take limit (
    keep_if (λ d. not (db.locked d.id))
      (sort_by (row_less db)
        (keep_if (λ d. is_eligible t now d && is_granted (grant d)) t.deliveries)))

abbrev pub claim_row : String → Time → ℕ → Delivery → Delivery
claim_row owner now generation d = record d {
  status = Status.in_flight;
  owner = owner;
  generation = generation;
  claimed_at = now;
  attempt = d.attempt + 1;
}

abbrev pub claim_as : String → Time → Delivery → Option ℕ → Delivery
claim_as owner now d none = d
claim_as owner now d (some generation) = claim_row owner now generation d

-- UPDATE … FROM candidates WHERE d.id = c.id RETURNING …
unfoldable pub run_claim :
    Db → Time → String → (Delivery → Option ℕ) → ℕ → PgStore → PgStore × List Delivery
unfolding is_behind is_suspended
run_claim db now owner grant limit t =
    let cs = candidates db now grant limit t in
    let chosen = map (λ (d : Delivery). d.id) cs in
    (
      record t {
        deliveries =
            map (λ d. if contains chosen d.id then claim_as owner now d (grant d) else d)
              t.deliveries;
      },
      sort_by db.returns_first (map (λ d. claim_as owner now d (grant d)) cs),
    )

abbrev pub has_owner : Option OwnerRow → Bool
has_owner none = false
has_owner (some po) = true

-- The unfinished rows whose partition has no owner.
unfoldable pub count_missing : PgStore → ℕ
count_missing t = length (
    keep_if
      (λ d. is_unfinished d.status && not (has_owner (find_owner d.partition t.partition_owners)))
      t.deliveries)

-- checkOwnershipMetadata
unfoldable pub check_ownership_metadata : PgStore → Result (Unit {0})
check_ownership_metadata t =
    if is_empty t.partition_owners
    then err no_partition_owners
    else if ltb 0 (count_missing t)
    then err (deliveries_lack_owners (count_missing t))
    else ok tt

-- A failure of the UPDATE's answer, rows.Err() or a scan, leaves the rows in flight.
abbrev pub returned : Db → PgStore × List Delivery → PgStore × Result (List Delivery)
returned db (t, out) = (t, if db.loses_answer then err database_failed else ok out)

abbrev pub if_ok :
    PgStore
    → Result (Unit {0})
    → PgStore × Result (List Delivery)
    → PgStore × Result (List Delivery)
if_ok t (err e) body = (t, err e)
if_ok t (ok u) body = body

abbrev pub claim_owned :
    Db → Time → String → ℕ → PgStore → Option String → PgStore × Result (List Delivery)
claim_owned db now owner limit t none = (t, err (claim_requires_distributed_owner owner))
claim_owned db now owner limit t (some node) =
    with_later db (t, err database_failed)
      (if_ok t (check_ownership_metadata t)
        (returned db (run_claim db now owner (grant_owned t node) limit t)))

-- `t` is the store after refreshDistributedOwnership.
abbrev pub claim_refreshed :
    Db → Time → String → ℕ → List ℕ → ℕ → PgStore → PgStore × Result (List Delivery)
claim_refreshed db now owner generation partitions limit t =
    if t.distributed_ownership
    then claim_owned db now owner limit t (parse_distributed_owner owner)
    else if is_empty partitions
    then (t, ok [])
    else with_later db (t, err database_failed)
        (returned db (run_claim db now owner (grant_listed partitions generation) limit t))

unfoldable pub claim :
    Db → Context → Time → String → ℕ → List ℕ → ℤ → PgStore → PgStore × Result (List Delivery)
claim db ctx now owner generation partitions limit t =
    with_context ctx (t, err context_error)
      (if str_eq owner ""
        then (t, err claim_requires_owner)
        else if generation == 0
        then (t, err claim_requires_generation)
        else if le_zero limit
        then (t, ok [])
        else with_database db (t, err database_failed)
            (claim_refreshed db now owner generation partitions (to_nat limit) (refresh t)))
