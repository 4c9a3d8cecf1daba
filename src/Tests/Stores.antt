-- ===== src/Tests/Stores.antt =====
-- Runs of the memory store, store/memory/memory.go, and of worker.go over it.
use mathlib.Core.List.Memᴰ
use sharathfold.Prelude.{
  ℕ, ◌+◌, ◌≤◌, ◌<◌, String, inl, inr, true-false, eq_iff, List, [], ◌∷◌, Memᴰ, ◌≡◌, refl, arith,
  pos, length, to_nat, sort_by, lookup, insert, contains, contains_nat,
}
use sharathfold.Store.{Delivery, Status, live, err, missing_id}
use sharathfold.Memory.State.{Store, new, find, update, meta_of, touch_meta, seq_of}
use sharathfold.Memory.Enqueue.{enqueue, enqueue_rows, insert_row, stored_row, retain_touched}
use sharathfold.Memory.Enqueue.Partial.{Partly, enqueue-Partly}
use sharathfold.Memory.Claim.{heads, is_eligible, collect, claim_one, claim_all, run_claim, claim}
use sharathfold.Memory.Claim.Calls.{rows_of}
use sharathfold.Memory.Marks.{require_owner, mark_terminal, mark_delivered}
use sharathfold.Memory.Claim.Results.{Claimable, claim_sound, claim-limit}
use sharathfold.Memory.Claim.Liveness.{claim_progress}
use sharathfold.Memory.Invariant.{Inv}
use sharathfold.Runs.{InOrder, run_calls}
use sharathfold.Memory.History.{Call, run, step, run-InOrder, run-Inv, run-in_flight_only}

abbrev row : String → Delivery
row id = record {
  id = id;
  event_id = "e";
  subscriber_id = "s";
  url = "http://s";
  partition = 3;
  sequence = 0;
  payload = [];
  event_type = "";
  secret = [];
  status = Status.pending;
  attempt = 0;
  next_attempt = 0;
  last_error = "";
  owner = "";
  generation = 0;
  claimed_at = 0;
  created_at = 0;
}

-- Two events for one subscriber.
abbrev filling : List Call
filling = Call.enqueues live 100 (row "a" ∷ row "b" ∷ []) ∷ []

abbrev claiming : Call
claiming = Call.claims live 200 "w" 1 (3 ∷ []) (pos 8)

-- A claim, a delivery, and a second claim.
abbrev calls : List Call
calls =
    Call.enqueues live 100 (row "a" ∷ row "b" ∷ [])
    ∷ claiming
    ∷ Call.marks_delivered live "a" "w" 1
    ∷ claiming
    ∷ []

abbrev stored : String → ℕ → Delivery
stored id n = record (row id) { sequence = n; next_attempt = 100; created_at = 100 }

abbrev taken : String → ℕ → Delivery
taken id n = record (stored id n) {
  status = Status.in_flight;
  owner = "w";
  generation = 1;
  claimed_at = 200;
  attempt = 1;
}

filled_rows : (run filling new).0.by_id ≡ stored "b" 2 ∷ stored "a" 1 ∷ []
unfolding run_calls step new enqueue enqueue_rows insert_row stored_row seq_of meta_of touch_meta
    find lookup insert retain_touched
filled_rows = refl

calls_out : (run calls new).1 ≡ taken "a" 1 ∷ taken "b" 2 ∷ []
unfolding run_calls step new enqueue enqueue_rows insert_row stored_row seq_of meta_of touch_meta
    find lookup insert retain_touched claim run_claim heads collect is_eligible claim_all claim_one
    mark_delivered mark_terminal require_owner update contains contains_nat sort_by
calls_out = refl

run-InOrder_example : InOrder (run calls new).1
run-InOrder_example = run-InOrder calls

run-Inv_example : Inv (run calls new).0
run-Inv_example = run-Inv calls

in_flight_row : Memᴰ (taken "b" 2) (run calls new).0.by_id
unfolding run_calls step new enqueue enqueue_rows insert_row stored_row seq_of meta_of touch_meta
    find lookup insert retain_touched claim run_claim heads collect is_eligible claim_all claim_one
    mark_delivered mark_terminal require_owner update contains contains_nat sort_by
in_flight_row = Memᴰ.head refl

run-in_flight_only_example : taken "b" 2 ≡ taken "b" 2
run-in_flight_only_example =
    run-in_flight_only calls (taken "b" 2) (taken "b" 2) in_flight_row in_flight_row refl refl refl

abbrev filled : Store
filled = (run filling new).0

claimed_rows : rows_of (claim live 200 "w" 1 (3 ∷ []) (pos 8) filled).1 ≡ taken "a" 1 ∷ []
unfolding run_calls step new enqueue enqueue_rows insert_row stored_row seq_of meta_of touch_meta
    find lookup insert retain_touched claim run_claim heads collect is_eligible claim_all claim_one
    update contains contains_nat sort_by
claimed_rows = refl

claimed_row : Memᴰ (taken "a" 1) (rows_of (claim live 200 "w" 1 (3 ∷ []) (pos 8) filled).1)
claimed_row = rw claimed_rows (Memᴰ.head refl)

claim_sound_example :
    (d : Delivery) × Claimable filled 200 (3 ∷ []) d
    × (taken "a" 1 ≡ record d {
      status = Status.in_flight;
      owner = "w";
      generation = 1;
      claimed_at = 200;
      attempt = d.attempt + 1;
    })
claim_sound_example =
    claim_sound live 200 "w" 1 (3 ∷ []) (pos 8) filled (taken "a" 1) (run-Inv filling) claimed_row

claim-limit_example :
    length (rows_of (claim live 200 "w" 1 (3 ∷ []) (pos 1) filled).1) ≤ to_nat (pos 1)
claim-limit_example = claim-limit live 200 "w" 1 (3 ∷ []) (pos 1) filled

-- The first row is claimable.
Claimable-row : Claimable filled 200 (3 ∷ []) (stored "a" 1)
unfolding run_calls step new enqueue enqueue_rows insert_row stored_row seq_of meta_of touch_meta
    find lookup insert retain_touched contains_nat
Claimable-row = record {
  there = Memᴰ.tail (Memᴰ.head refl);
  is_pending = refl;
  not_suspended = refl;
  due = omega arith;
  in_partition = refl;
  first = λ e m q u. elim (Memᴰ.cases_cons m) [
    | inl h ↦ rw h (omega arith)
    | inr n ↦ elim (Memᴰ.cases_cons n) [
      | inl h ↦ rw h (omega arith)
      | inr l ↦ absurd (Memᴰ.not-nil l)
    ]
  ];
}

claim_progress_example : 0 < length (rows_of (claim live 200 "w" 1 (3 ∷ []) (pos 1) filled).1)
claim_progress_example =
    claim_progress 200 "w" 1 (3 ∷ []) (pos 1) filled (stored "a" 1) (run-Inv filling)
      (λ q. true-false ((eq_iff "w" "").1 q) refl) (λ q. omega arith) refl Claimable-row

-- The second delivery has no id.
failing : (enqueue live 100 (row "a" ∷ row "" ∷ []) new).1 ≡ err missing_id
unfolding new enqueue enqueue_rows insert_row stored_row seq_of meta_of touch_meta find lookup
    insert
failing = refl

enqueue-Partly_example :
    Partly (row "a" ∷ row "" ∷ []) new (enqueue live 100 (row "a" ∷ row "" ∷ []) new).0 missing_id
enqueue-Partly_example = enqueue-Partly 100 (row "a" ∷ row "" ∷ []) new missing_id failing
