-- ===== src/Tests/Tables.antt =====
-- Runs of the Postgres store, store/postgres/postgres.go and store/postgres/ownership.go.
use sharathfold.Prelude.{
  String, true, false, List, [], ◌∷◌, Memᴰ, some, none, ◌≡◌, ◌≢◌, refl, arith, pos, str_ltb, lookup,
  insert, contains, sort_by, insert_by, keep_if, itoa, itoa_fuel, digit,
}
use sharathfold.Prelude.{ltb, has_char, split_on, strip_prefix}
use sharathfold.Store.{Delivery, Status, live, ok, is_in_flight}
use sharathfold.Memory.State.{seq_of, meta_of}
use sharathfold.Partition.{claim_owner_id}
use sharathfold.Runs.{InOrder, run_calls}
use sharathfold.Memory.Marks.{
  mark_terminal as memory_mark_terminal, mark_failed as memory_mark_failed,
}
use sharathfold.Postgres.State.{
  PgStore, OwnerRow, active, draining, Db, new_store, find_owner, refresh, exists_row,
}
use sharathfold.Tokens.{parse_distributed_owner, scan_int, scan_nat, scan_digits, worker_name}
use sharathfold.Postgres.Enqueue.{enqueue, enqueue_rows, insert_row, stored_row, retain_touched}
use sharathfold.Postgres.Claim.{
  claim, run_claim, candidates, is_behind, is_suspended, grant_owned, take,
  check_ownership_metadata, count_missing,
}
use sharathfold.Postgres.Marks.{update_where, mark, mark_terminal, mark_failed}
use sharathfold.Postgres.Ownership.{
  Owned, begin_handoff, complete_handoff, force_takeover, reset_in_flight, update_owner,
  check_owners, find_conflict, insert_owners, ensure_owner_assignments,
}
use sharathfold.Postgres.History.{Call, run, step, run_distributed-InOrder, run_distributed-Inv}
use sharathfold.Postgres.Owners.Invariant.{Owners, run-Owners}
use sharathfold.Postgres.Owners.Advance.{Later, run-Advances}
use sharathfold.Postgres.Owners.Fence.{Fenced, claim-Fenced}
use sharathfold.Postgres.Owners.Takeover.Again.{force_takeover_again}
use sharathfold.Postgres.Owners.Takeover.Reset.{force_takeover_fences}
use sharathfold.Postgres.Owners.Handoff.{
  HandedOff, begin_handoff_stops_claims, complete_handoff-HandedOff,
}
use sharathfold.Tokens.Parsing.{parse_distributed_owner-claim_owner_id}

-- A database where nothing fails and nothing is locked.
abbrev up : Db
up = record {
  fails = false;
  fails_later = false;
  loses_answer = false;
  locked = λ id. false;
  collate = str_ltb;
  returns_first = λ d e. ltb d.sequence e.sequence;
}

abbrev row : String → Delivery
row id = record {
  id = id;
  event_id = "e";
  subscriber_id = "s";
  url = "http://s";
  partition = 1;
  sequence = 0;
  payload = [];
  event_type = "";
  secret = [];
  status = Status.pending;
  attempt = 0;
  next_attempt = 0;
  last_error = "";
  owner = "";
  generation = 0;
  claimed_at = 0;
  created_at = 0;
}

abbrev token : String
token = "n1/i/worker-0"

abbrev claiming : Call
claiming = Call.claims up live 200 token 1 [] (pos 8)

-- One node owns two partitions, and has two events of a subscriber.
abbrev filling : List Call
filling =
    Call.ensures up live ("n1" ∷ "n1" ∷ [])
    ∷ Call.enqueues up live 100 (row "a" ∷ row "b" ∷ [])
    ∷ claiming
    ∷ []

-- The other node takes over while the first event is under way.
abbrev calls : List Call
calls =
    Call.ensures up live ("n1" ∷ "n1" ∷ [])
    ∷ Call.enqueues up live 100 (row "a" ∷ row "b" ∷ [])
    ∷ claiming
    ∷ Call.takes_over up live 1 "n2" 1
    ∷ Call.claims up live 300 "n2/j/worker-0" 1 [] (pos 8)
    ∷ []

run_distributed-InOrder_example : InOrder (run calls new_store).1
run_distributed-InOrder_example = run_distributed-InOrder calls

run-Owners_example : Owners (run calls new_store).0.partition_owners
run-Owners_example = run-Owners calls

parse_distributed_owner-claim_owner_id_example :
    parse_distributed_owner (claim_owner_id "n1" "i" 12) ≡ some "n1"
unfolding has_char
parse_distributed_owner-claim_owner_id_example =
    parse_distributed_owner-claim_owner_id "n1" "i" 12 refl refl refl refl (omega arith)

abbrev owned : OwnerRow
owned = record {
  partition = 1;
  owner_node = "n1";
  generation = 1;
  state = active;
  next_owner = none;
}

-- The partition drains to the other node.
abbrev draining_row : OwnerRow
draining_row = record owned { state = draining; next_owner = some "n2" }

abbrev flying : Delivery
flying = record (row "a") {
  sequence = 1;
  status = Status.in_flight;
  owner = token;
  generation = 1;
  claimed_at = 200;
}

abbrev table : List OwnerRow → List Delivery → PgStore
table owners rows = record new_store {
  partition_owners = owners;
  deliveries = rows;
  distributed_ownership = true;
}

-- A row that waits, of the partition that is owned.
abbrev waiting : PgStore
waiting = table (owned ∷ []) (record (row "a") { sequence = 1 } ∷ [])

run-Advances_example :
    (o : OwnerRow) × (find_owner 1
        (run (Call.takes_over up live 1 "n2" 1 ∷ []) waiting).0.partition_owners
      ≡ some o)
    × Later owned o
unfolding find_owner
run-Advances_example = run-Advances (Call.takes_over up live 1 "n2" 1 ∷ []) waiting 1 owned refl

abbrev taken : Delivery
taken = record (row "a") {
  sequence = 1;
  status = Status.in_flight;
  attempt = 1;
  owner = token;
  generation = 1;
  claimed_at = 200;
}

claimed : (claim up live 200 token 1 [] (pos 8) waiting).1 ≡ ok (taken ∷ [])
unfolding claim refresh run_claim candidates is_behind is_suspended grant_owned find_owner take
    keep_if sort_by insert_by parse_distributed_owner split_on strip_prefix scan_int scan_nat
    scan_digits worker_name itoa itoa_fuel digit check_ownership_metadata count_missing exists_row
    meta_of seq_of lookup insert
claimed = refl

refreshed : (refresh waiting).distributed_ownership ≡ true
unfolding refresh
refreshed = refl

claim-Fenced_example : Fenced up waiting token taken
claim-Fenced_example =
    claim-Fenced up live 200 token 1 [] (pos 8) waiting (taken ∷ []) taken refreshed refl claimed
      (Memᴰ.head refl)

taken_over : (force_takeover up live 1 "n2" 1 waiting).1 ≡ Owned.ok tt
unfolding force_takeover refresh has_char find_owner reset_in_flight
taken_over = refl

force_takeover_again_example :
    let u = (force_takeover up live 1 "n2" 1 waiting).0 in
    force_takeover up live 1 "n2" 1 u ≡ (u, Owned.ok tt)
force_takeover_again_example =
    force_takeover_again up live 1 "n2" 1 waiting (omega arith) taken_over

-- The partition that was drained, and has nothing in flight.
abbrev drained : PgStore
drained = table (draining_row ∷ []) (record (row "a") { sequence = 1 } ∷ [])

completed : (complete_handoff up live 1 drained).1 ≡ Owned.ok tt
unfolding complete_handoff refresh find_owner exists_row
completed = refl

complete_handoff-HandedOff_example : HandedOff 1 drained (complete_handoff up live 1 drained).0
complete_handoff-HandedOff_example = complete_handoff-HandedOff up live 1 drained completed

-- A row of another partition, which its node still owns.
abbrev elsewhere : Delivery
elsewhere = record taken { partition = 0 }

abbrev two_partitions : PgStore
two_partitions = table (owned ∷ record owned { partition = 0 } ∷ []) (
    record (row "a") { sequence = 1; partition = 0 }
    ∷ record (row "c") { subscriber_id = "r"; sequence = 1 }
    ∷ [])

began : (begin_handoff up live 1 "n1" "n2" two_partitions).1 ≡ Owned.ok tt
unfolding begin_handoff refresh has_char find_owner
began = refl

claimed_elsewhere :
    (claim up live 200 token 1 [] (pos 8) (begin_handoff up live 1 "n1" "n2" two_partitions).0).1
    ≡ ok (elsewhere ∷ [])
unfolding begin_handoff has_char update_owner claim refresh run_claim candidates is_behind
    is_suspended grant_owned find_owner take keep_if sort_by insert_by parse_distributed_owner
    split_on strip_prefix scan_int scan_nat scan_digits worker_name itoa itoa_fuel digit
    check_ownership_metadata count_missing exists_row meta_of seq_of lookup insert
claimed_elsewhere = refl

begin_handoff_stops_claims_example : elsewhere.partition ≢ 1
begin_handoff_stops_claims_example =
    begin_handoff_stops_claims up live 1 "n1" "n2" two_partitions up live 200 token 1 [] (pos 8)
      (elsewhere ∷ []) elsewhere refl began claimed_elsewhere (Memᴰ.head refl)

abbrev filled : PgStore
filled = (run filling new_store).0

-- The event under way when the other node takes over.
abbrev reset_row : Delivery
reset_row = record (row "a") { sequence = 1; attempt = 1; next_attempt = 100; created_at = 100 }

abbrev seized : PgStore
seized = (force_takeover up live 1 "n2" 1 filled).0

force_takeover_fences_example :
    let r = mark up live "a" token 1 (λ d. d) seized in
    (is_in_flight reset_row.status ≡ false) × (r.0 ≡ seized) × (r.1 ≢ ok tt)
unfolding force_takeover reset_in_flight update_where run_calls step ensure_owner_assignments
    check_owners find_conflict insert_owners has_char enqueue enqueue_rows insert_row stored_row
    retain_touched claim refresh run_claim candidates is_behind is_suspended grant_owned find_owner
    take keep_if sort_by insert_by parse_distributed_owner split_on strip_prefix scan_int scan_nat
    scan_digits worker_name itoa itoa_fuel digit check_ownership_metadata count_missing exists_row
    meta_of seq_of lookup insert contains
force_takeover_fences_example =
    force_takeover_fences up live 1 "n2" 1 filled owned reset_row up live token 1 (λ d. d)
      (run_distributed-Inv filling) refl refl refl refl (Memᴰ.tail (Memᴰ.head refl)) refl
