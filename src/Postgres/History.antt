-- ===== src/Postgres/History.antt =====
-- Whole runs of store/postgres: any calls of its methods, by any processes, one after the other. Claim and
-- BeginHandoff are several statements, which are taken as one step. A process's own flag for distributed ownership is covered: a list may set the flag before
-- each of its calls.
use sharathfold.Prelude.{ℕ, String, Bool, List, [], refl, ℤ}
use sharathfold.Store.{Delivery, Status, Time, Context}
use sharathfold.Memory.Invariant.{Inv, Past}
use sharathfold.Memory.Invariant.Steps.{Settle-refl}
use sharathfold.Memory.Invariant.Takes.{Claims, Claims-nothing, Claims-none}
use sharathfold.Memory.Claim.Calls.{rows_of}
use sharathfold.Memory.History.{new-Inv, new-Past}
use sharathfold.Memory.State.{Store, new}
use sharathfold.Runs.{InOrder, run_calls, run_calls-Ran}
use sharathfold.Postgres.State.{PgStore, Db, view, new_store, set_distributed_ownership}
use sharathfold.Postgres.Enqueue.{enqueue}
use sharathfold.Postgres.Claim.{claim}
use sharathfold.Postgres.Marks.{mark_delivered, mark_dead_letter, mark_failed, recover_stale}
use sharathfold.Postgres.Suspend.{exhaust_and_suspend, resume}
use sharathfold.Postgres.Ownership.{
  ensure_owner_assignments, ensure_owners, begin_handoff, complete_handoff, force_takeover,
}
use sharathfold.Postgres.Keeps.Enqueue.{enqueue-Kept}
use sharathfold.Postgres.Keeps.Claim.{claim-Pays}
use sharathfold.Postgres.Keeps.Marks.{
  mark_terminal-Settle, mark_failed-Settle, recover_stale-Settle,
}
use sharathfold.Postgres.Keeps.Suspend.{exhaust_and_suspend-Kept, resume-Kept}
use sharathfold.Postgres.Keeps.Rows.{Kept}
use sharathfold.Postgres.Keeps.Ownership.{
  ensure_owner_assignments-Quiets, ensure_owners-Quiets, begin_handoff-Quiets,
  complete_handoff-Quiets, force_takeover-Quiets,
}

-- A call of a method, with the time that it reads and what it meets at the database.
pub data Call : Type 0 where
  enqueues : Db → Context → Time → List Delivery → Call
  claims : Db → Context → Time → String → ℕ → List ℕ → ℤ → Call
  marks_delivered : Db → Context → String → String → ℕ → Call
  marks_dead_letter : Db → Context → String → String → ℕ → String → Call
  marks_failed : Db → Context → String → String → ℕ → ℕ → Time → String → Call
  exhausts : Db → Context → Time → String → String → ℕ → String → Call
  resumes : Db → Context → Time → String → Call
  recovers : Db → Context → Time → ℤ → Call
  ensures : Db → Context → List String → Call
  ensures_all : Db → Context → ℤ → String → Call
  begins : Db → Context → ℕ → String → String → Call
  completes : Db → Context → ℕ → Call
  takes_over : Db → Context → ℕ → String → ℕ → Call
  sets_distributed : Bool → Call

-- The tables after a call, and the rows that it hands to a worker.
unfoldable pub step : Call → PgStore → PgStore × List Delivery
step (enqueues db ctx now ds) t = ((enqueue db ctx now ds t).0, [])
step (claims db ctx now owner generation partitions limit) t =
    let (u, r) = claim db ctx now owner generation partitions limit t in (u, rows_of r)
step (marks_delivered db ctx id owner generation) t =
    ((mark_delivered db ctx id owner generation t).0, [])
step (marks_dead_letter db ctx id owner generation err_msg) t =
    ((mark_dead_letter db ctx id owner generation err_msg t).0, [])
step (marks_failed db ctx id owner generation attempt next err_msg) t =
    ((mark_failed db ctx id owner generation attempt next err_msg t).0, [])
step (exhausts db ctx now id owner generation err_msg) t =
    ((exhaust_and_suspend db ctx now id owner generation err_msg t).0, [])
step (resumes db ctx now sub) t = ((resume db ctx now sub t).0, [])
step (recovers db ctx now older_than) t = ((recover_stale db ctx now older_than t).0, [])
step (ensures db ctx owners) t = ((ensure_owner_assignments db ctx owners t).0, [])
step (ensures_all db ctx partitions owner) t = ((ensure_owners db ctx partitions owner t).0, [])
step (begins db ctx p from to) t = ((begin_handoff db ctx p from to t).0, [])
step (completes db ctx p) t = ((complete_handoff db ctx p t).0, [])
step (takes_over db ctx p to expected) t = ((force_takeover db ctx p to expected t).0, [])
step (sets_distributed b) t = (set_distributed_ownership b t, [])

-- The tables after the calls, and all rows that were handed out, in that order.
abbrev pub run : List Call → PgStore → PgStore × List Delivery
run = run_calls step

-- A call that hands out nothing.
Kept-Claims : (h : List Delivery) (s t : Store) → Kept h t → Claims h s t []
Kept-Claims h s t (w, q) = Claims-nothing h s t w q

step-Claims :
    (c : Call) (t : PgStore) (h : List Delivery)
    → Inv (view t)
    → Past h (view t)
    → Claims h (view t) (view (step c t).0) (step c t).1
unfolding step mark_delivered mark_dead_letter
step-Claims (enqueues db ctx now ds) t h v p =
    Kept-Claims h (view t) _ (enqueue-Kept db ctx now ds t h (v, p))
step-Claims (claims db ctx now owner generation partitions limit) t h v p =
    claim-Pays db ctx now owner generation partitions limit t h v p
step-Claims (marks_delivered db ctx id owner generation) t h v p =
    Claims-none h (view t) _ v p
      (mark_terminal-Settle db ctx id owner generation Status.delivered "" t refl)
step-Claims (marks_dead_letter db ctx id owner generation err_msg) t h v p =
    Claims-none h (view t) _ v p
      (mark_terminal-Settle db ctx id owner generation Status.dead_lettered err_msg t refl)
step-Claims (marks_failed db ctx id owner generation attempt next err_msg) t h v p =
    Claims-none h (view t) _ v p
      (mark_failed-Settle db ctx id owner generation attempt next err_msg t)
step-Claims (exhausts db ctx now id owner generation err_msg) t h v p =
    Kept-Claims h (view t) _
      (exhaust_and_suspend-Kept db ctx now id owner generation err_msg t h (v, p))
step-Claims (resumes db ctx now sub) t h v p =
    Kept-Claims h (view t) _ (resume-Kept db ctx now sub t h (v, p))
step-Claims (recovers db ctx now older_than) t h v p =
    Claims-none h (view t) _ v p (recover_stale-Settle db ctx now older_than t)
step-Claims (ensures db ctx owners) t h v p =
    Claims-none h (view t) _ v p (ensure_owner_assignments-Quiets db ctx owners t)
step-Claims (ensures_all db ctx partitions owner) t h v p =
    Claims-none h (view t) _ v p (ensure_owners-Quiets db ctx partitions owner t)
step-Claims (begins db ctx part from to) t h v p =
    Claims-none h (view t) _ v p (begin_handoff-Quiets db ctx part from to t)
step-Claims (completes db ctx part) t h v p =
    Claims-none h (view t) _ v p (complete_handoff-Quiets db ctx part t)
step-Claims (takes_over db ctx part to expected) t h v p =
    Claims-none h (view t) _ v p (force_takeover-Quiets db ctx part to expected t)
step-Claims (sets_distributed b) t h v p =
    Claims-none h (view t) (view t) v p (Settle-refl (view t))

new_store-Inv : Inv (view new_store)
unfolding new
new_store-Inv = new-Inv

new_store-Past : Past [] (view new_store)
unfolding new
new_store-Past = new-Past

-- Whatever calls are made on fresh tables, by whatever processes, each run to its end before the next one
-- begins, handoffs, takeovers, failing statements, and lost answers to a Claim or to the Commit of an
-- Enqueue included, the rows of each subscriber are handed out in the order of
-- their sequence numbers: a later number is never handed out before an earlier one.
pub run_distributed-InOrder : (cs : List Call) → InOrder (run cs new_store).1
run_distributed-InOrder cs =
    (run_calls-Ran step view step-Claims cs new_store [] new_store-Inv new_store-Past).in_order

-- The tables that such calls reach satisfy the invariant of the rows: no two rows of a subscriber share
-- a sequence number, what is in flight comes before all that is unfinished, and a suspended subscriber has
-- nothing pending or in flight.
pub run_distributed-Inv : (cs : List Call) → Inv (view (run cs new_store).0)
run_distributed-Inv cs =
    (run_calls-Ran step view step-Claims cs new_store [] new_store-Inv new_store-Past).inv
