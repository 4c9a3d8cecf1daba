-- ===== src/Tests/Queues.antt =====
-- Runs of the two benchmark queues, bench/fifo/queue.go and bench/naive/queue.go.
use sharathfold.Prelude.{
  ◌+◌, min, String, false, [], ◌∷◌, some, ◌≡◌, refl, arith, pos, length, eq_iff, true-false, insert,
  lookup,
}
use sharathfold.Store.{Delivery, Status, live, ok}
use sharathfold.Memory.State.{find, seq_of}
use sharathfold.Memory.Claim.Calls.{rows_of}
use sharathfold.Fifo as fifo
use sharathfold.Fifo.Settled as fifo_settled
use sharathfold.Fifo.Counts as fifo_counts
use sharathfold.Naive as naive
use sharathfold.Naive.Claims as naive_claims

abbrev row : String → Delivery
row id = record {
  id = id;
  event_id = "e";
  subscriber_id = "s";
  url = "http://s";
  partition = 0;
  sequence = 0;
  payload = [];
  event_type = "";
  secret = [];
  status = Status.pending;
  attempt = 0;
  next_attempt = 0;
  last_error = "";
  owner = "";
  generation = 0;
  claimed_at = 0;
  created_at = 0;
}

abbrev taken : Delivery
taken = record (row "a") { status = Status.in_flight; owner = "w"; generation = 1 }

abbrev one_taken : fifo.Queue
one_taken = record { by_id = taken ∷ []; seq = []; notify = false }

enqueued : (fifo.enqueue live 100 (row "a" ∷ row "b" ∷ []) fifo.new_queue).1 ≡ ok tt
unfolding fifo.enqueue fifo.enqueue_rows fifo.insert_row seq_of find lookup insert
enqueued = refl

enqueue-counted_example :
    fifo.pending_or_in_flight (fifo.enqueue live 100 (row "a" ∷ row "b" ∷ []) fifo.new_queue).0
    ≡ fifo.pending_or_in_flight fifo.new_queue + 2
enqueue-counted_example =
    fifo_counts.enqueue-counted live 100 (row "a" ∷ row "b" ∷ []) fifo.new_queue enqueued

held : fifo_settled.Holds "a" "w" 1 taken one_taken
unfolding find
held = record { there = refl; is_taken = refl; owned = refl; stamped = refl }

mark_terminal_once_example :
    let (t, r) = fifo.mark_terminal live "a" "w" 1 Status.delivered "" one_taken in
    (r ≡ ok tt)
    × (find "a" t.by_id
        ≡ some (record taken {
          status = Status.delivered;
          last_error = "";
          owner = "";
          generation = 0;
          claimed_at = 0;
        }))
    × fifo_settled.Unmarked "a" t
mark_terminal_once_example =
    fifo_settled.mark_terminal_once "a" "w" 1 Status.delivered "" taken one_taken (λ q. omega arith)
      held refl

-- A later row of a subscriber is pending while an earlier one is in flight.
abbrev two_rows : naive.Queue
two_rows = record {
  by_id = taken ∷ record (row "b") { sequence = 2 } ∷ [];
  seq = [];
  notify = false;
  claim_calls = 0;
  claim_rows = 0;
  claim_non_empty = 0;
}

claim-count_example :
    length (rows_of (naive.claim live 200 "v" 1 (pos 4) two_rows).1)
    ≡ min 4 (naive_claims.count_ready 200 two_rows.by_id)
claim-count_example =
    naive_claims.claim-count 200 "v" 1 (pos 4) two_rows (λ q. true-false ((eq_iff "v" "").1 q) refl)
      (λ q. omega arith)
