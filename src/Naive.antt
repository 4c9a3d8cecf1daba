-- ===== src/Naive.antt =====
-- bench/naive/queue.go: one queue that any worker claims from, without partitions and without a
-- head-of-line gate. Each method holds the mutex, so it is one step. Rows of different subscribers that were created at one time and have one
-- number are claimed in the order of the list, where sort.Slice leaves it open.
pub mod Claims
use sharathfold.Prelude.{
  ℕ, ◌+◌, String, Bool, true, false, not, ◌&&◌, ◌||◌, List, [], ◌∷◌, ◌++◌, Option, none, some,
  if◌then◌else◌, ltb, leb, ◌==◌, str_eq, ℤ, le_zero, to_nat, Dict, insert, length, sort_by,
}
use sharathfold.Store.{
  Delivery, Status, Time, Context, with_context, Result, ok, err, context_error, missing_id,
  missing_subscriber_id, duplicate_id, is_pending, is_in_flight, is_unfinished,
  claim_requires_owner, claim_requires_generation, mark_requires_generation, unknown_delivery,
  not_in_flight, stale_claim,
}
use sharathfold.Fifo.{put}
use sharathfold.Memory.State.{find, update, seq_of}
use sharathfold.Memory.Enqueue.{is_known}
use sharathfold.Memory.Claim.{is_backing_off}
use sharathfold.Memory.Marks.{close_row, retry_row}
use sharathfold.Memory.Queries.{count_unfinished}

pub record Queue : Type 0 where
  pub by_id : List Delivery
  pub seq : Dict ℕ
  pub notify : Bool
  pub claim_calls : ℕ
  pub claim_rows : ℕ
  pub claim_non_empty : ℕ

abbrev pub new_queue : Queue
new_queue = record {
  by_id = [];
  seq = [];
  notify = false;
  claim_calls = 0;
  claim_rows = 0;
  claim_non_empty = 0;
}

abbrev pub signal : Queue → Queue
signal q = record q { notify = true }

-- The row that Enqueue stores for `d`.
unfoldable pub stored_row : Queue → Time → Delivery → Delivery
stored_row q now d = record d {
  sequence = seq_of q.seq d.subscriber_id + 1;
  attempt = 0;
  next_attempt = now;
  created_at = now;
  status = Status.pending;
  owner = "";
  generation = 0;
  claimed_at = 0;
  last_error = "";
  partition = 0;
}

unfoldable pub insert_row : Time → Delivery → Queue → Queue
unfolding stored_row
insert_row now d q = record q {
  by_id = put (stored_row q now d) q.by_id;
  seq = insert d.subscriber_id (seq_of q.seq d.subscriber_id + 1) q.seq;
}

-- The loop over the deliveries, which returns at the first bad one.
unfoldable pub enqueue_rows : Time → List Delivery → Queue → Queue × Result (Unit {0})
enqueue_rows now [] q = (q, ok tt)
enqueue_rows now (d ∷ ds) q =
    let rest = enqueue_rows now ds (insert_row now d q) in
    if str_eq d.id ""
    then (q, err missing_id)
    else if str_eq d.subscriber_id ""
    then (q, err (missing_subscriber_id d.id))
    else if is_known (find d.id q.by_id)
    then (q, err (duplicate_id d.id))
    else rest

abbrev pub finish_enqueue : Queue × Result (Unit {0}) → Queue × Result (Unit {0})
finish_enqueue (q, ok u) = (signal q, ok tt)
finish_enqueue (q, err e) = (q, err e)

unfoldable pub enqueue : Context → Time → List Delivery → Queue → Queue × Result (Unit {0})
enqueue ctx now ds q =
    with_context ctx (q, err context_error) (finish_enqueue (enqueue_rows now ds q))

pub record Claim : Type 0 where
  pub claim_owner : String
  pub claim_generation : ℕ
  pub limit : ℤ
  pub now : Time

pub record Candidate : Type 0 where
  pub id : String
  pub at : Time
  pub seq : ℕ

-- The guards of the first loop: a row that is pending, and due.
abbrev pub is_due : Time → Delivery → Bool
is_due now d = is_pending d.status && not (is_backing_off now d)

unfoldable pub collect : Time → List Delivery → List Candidate
collect now [] = []
collect now (d ∷ ds) =
    let rest = collect now ds in
    if is_due now d then record { id = d.id; at = d.created_at; seq = d.sequence } ∷ rest else rest

abbrev pub candidate_less : Candidate → Candidate → Bool
candidate_less a b = if a.at == b.at then ltb a.seq b.seq else ltb a.at b.at

abbrev pub claim_row : Claim → Delivery → Delivery
claim_row c d = record d {
  status = Status.in_flight;
  owner = c.claim_owner;
  generation = c.claim_generation;
  claimed_at = c.now;
  attempt = d.attempt + 1;
}

-- The variables of the last loop.
pub record Claiming : Type 0 where
  pub rows : List Delivery
  pub out : List Delivery

-- `none` is not met: the candidate's id is a key.
abbrev pub claim_found : Claim → Claiming → Option Delivery → Claiming
claim_found c l none = l
claim_found c l (some d) = record {
  rows = update d.id (claim_row c) l.rows;
  out = l.out ++ claim_row c d ∷ [];
}

unfoldable pub claim_all : Claim → List Candidate → Claiming → Claiming
claim_all c [] l = l
claim_all c (k ∷ ks) l =
    let rest = claim_all c ks (claim_found c l (find k.id l.rows)) in
    if leb (to_nat c.limit) (length l.out) then l else rest

unfoldable pub run_claim : Claim → Queue → Queue × List Delivery
run_claim c q =
    let l =
      claim_all c (sort_by candidate_less (collect c.now q.by_id))
        (record { rows = q.by_id; out = [] }) in
    (
      record q {
        by_id = l.rows;
        claim_calls = q.claim_calls + 1;
        claim_rows = q.claim_rows + length l.out;
        claim_non_empty = if ltb 0 (length l.out) then q.claim_non_empty + 1 else q.claim_non_empty;
      },
      l.out,
    )

abbrev pub returned : Queue × List Delivery → Queue × Result (List Delivery)
returned (q, out) = (q, ok out)

unfoldable pub claim : Context → Time → String → ℕ → ℤ → Queue → Queue × Result (List Delivery)
claim ctx now owner generation limit q =
    with_context ctx (q, err context_error)
      (if str_eq owner ""
        then (q, err claim_requires_owner)
        else if generation == 0
        then (q, err claim_requires_generation)
        else if le_zero limit
        then (q, ok [])
        else returned (
            run_claim
              (record {
                claim_owner = owner;
                claim_generation = generation;
                limit = limit;
                now = now;
              })
              q))

unfoldable pub claim_stats : Queue → ℕ × ℕ × ℕ
claim_stats q = (q.claim_calls, q.claim_rows, q.claim_non_empty)

abbrev pub check_claim : String → String → ℕ → Option Delivery → Result Delivery
check_claim id owner generation none = err (unknown_delivery id)
check_claim id owner generation (some d) =
    if not (is_in_flight d.status)
    then err (not_in_flight id)
    else if not (str_eq d.owner owner) || not (d.generation == generation)
    then err (stale_claim id)
    else ok d

unfoldable pub require_owner : String → String → ℕ → Queue → Result Delivery
require_owner id owner generation q =
    if generation == 0
    then err mark_requires_generation
    else check_claim id owner generation (find id q.by_id)

abbrev pub finish_mark : Queue → Queue → Result Delivery → Queue × Result (Unit {0})
finish_mark q q' (ok d) = (signal q', ok tt)
finish_mark q q' (err e) = (q, err e)

unfoldable pub mark_terminal :
    Context → String → String → ℕ → Status → String → Queue → Queue × Result (Unit {0})
mark_terminal ctx id owner generation status err_msg q =
    with_context ctx (q, err context_error)
      (finish_mark q (record q { by_id = update id (close_row status err_msg) q.by_id })
        (require_owner id owner generation q))

unfoldable pub mark_delivered : Context → String → String → ℕ → Queue → Queue × Result (Unit {0})
unfolding mark_terminal
mark_delivered ctx id owner generation q =
    mark_terminal ctx id owner generation Status.delivered "" q

unfoldable pub mark_dead_letter :
    Context → String → String → ℕ → String → Queue → Queue × Result (Unit {0})
unfolding mark_terminal
mark_dead_letter ctx id owner generation err_msg q =
    mark_terminal ctx id owner generation Status.dead_lettered err_msg q

unfoldable pub mark_failed :
    Context → String → String → ℕ → ℕ → Time → String → Queue → Queue × Result (Unit {0})
mark_failed ctx id owner generation attempt next err_msg q =
    with_context ctx (q, err context_error)
      (finish_mark q (record q { by_id = update id (retry_row attempt next err_msg) q.by_id })
        (require_owner id owner generation q))

unfoldable pub pending_or_in_flight : Queue → ℕ
unfolding count_unfinished
pending_or_in_flight q = count_unfinished q.by_id
