-- ===== src/Memory/History.antt =====
-- Whole runs of store/memory/memory.go: any calls of its methods, by any workers, in any order. Since
-- each method holds the mutex, a list of calls is an interleaving.
use mathlib.Core.List.Memᴰ
use sharathfold.Prelude.{ℕ, String, true, List, [], Memᴰ, ◌≡◌, refl, ℤ}
use sharathfold.Store.{Delivery, Status, Time, Context, is_in_flight}
use sharathfold.Memory.State.{Store, new}
use sharathfold.Memory.Invariant.{Inv, Past, in_flight_only}
use sharathfold.Memory.Enqueue.{enqueue}
use sharathfold.Memory.Claim.{claim}
use sharathfold.Memory.Claim.Calls.{rows_of, claim-Claims}
use sharathfold.Memory.Invariant.Takes.{Claims, Claims-nothing, Claims-none}
use sharathfold.Runs.{InOrder, run_calls, run_calls-Ran}
use sharathfold.Memory.Marks.{mark_delivered, mark_dead_letter, mark_failed, recover_stale}
use sharathfold.Memory.Suspend.{exhaust_and_suspend, resume}
use sharathfold.Memory.Enqueue.Keeps.{enqueue-Inv}
use sharathfold.Memory.Marks.Keeps.{mark_terminal-Settle, mark_failed-Settle, recover_stale-Settle}
use sharathfold.Memory.Suspend.Keeps.{exhaust_and_suspend-Inv}
use sharathfold.Memory.Suspend.Resumes.{resume-Inv}

-- A call of a method, with the time at which it holds the mutex.
pub data Call : Type 0 where
  enqueues : Context → Time → List Delivery → Call
  claims : Context → Time → String → ℕ → List ℕ → ℤ → Call
  marks_delivered : Context → String → String → ℕ → Call
  marks_dead_letter : Context → String → String → ℕ → String → Call
  marks_failed : Context → String → String → ℕ → ℕ → Time → String → Call
  exhausts : Context → Time → String → String → ℕ → String → Call
  resumes : Context → Time → String → Call
  recovers : Context → Time → ℤ → Call

-- The store after a call, and the rows that it hands to a worker.
unfoldable pub step : Call → Store → Store × List Delivery
step (enqueues ctx now ds) s = ((enqueue ctx now ds s).0, [])
step (claims ctx now owner generation partitions limit) s =
    let (t, r) = claim ctx now owner generation partitions limit s in (t, rows_of r)
step (marks_delivered ctx id owner generation) s =
    ((mark_delivered ctx id owner generation s).0, [])
step (marks_dead_letter ctx id owner generation err_msg) s =
    ((mark_dead_letter ctx id owner generation err_msg s).0, [])
step (marks_failed ctx id owner generation attempt next err_msg) s =
    ((mark_failed ctx id owner generation attempt next err_msg s).0, [])
step (exhausts ctx now id owner generation err_msg) s =
    ((exhaust_and_suspend ctx now id owner generation err_msg s).0, [])
step (resumes ctx now sub) s = ((resume ctx now sub s).0, [])
step (recovers ctx now older_than) s = ((recover_stale ctx now older_than s).0, [])

-- The store after the calls, and all rows that were handed out, in that order.
abbrev pub run : List Call → Store → Store × List Delivery
run = run_calls step

step-Claims :
    (c : Call) (s : Store) (h : List Delivery)
    → Inv s
    → Past h s
    → Claims h s (step c s).0 (step c s).1
unfolding step mark_delivered mark_dead_letter
step-Claims (enqueues ctx now ds) s h v p =
    let (w, q) = enqueue-Inv ctx now ds s h v p in Claims-nothing h s _ w q
step-Claims (claims ctx now owner generation partitions limit) s h v p =
    claim-Claims ctx now owner generation partitions limit s h v p
step-Claims (marks_delivered ctx id owner generation) s h v p =
    Claims-none h s _ v p
      (mark_terminal-Settle ctx id owner generation Status.delivered "" s v refl)
step-Claims (marks_dead_letter ctx id owner generation err_msg) s h v p =
    Claims-none h s _ v p
      (mark_terminal-Settle ctx id owner generation Status.dead_lettered err_msg s v refl)
step-Claims (marks_failed ctx id owner generation attempt next err_msg) s h v p =
    Claims-none h s _ v p (mark_failed-Settle ctx id owner generation attempt next err_msg s v)
step-Claims (exhausts ctx now id owner generation err_msg) s h v p =
    let (w, q) = exhaust_and_suspend-Inv ctx now id owner generation err_msg s h v p in
    Claims-nothing h s _ w q
step-Claims (resumes ctx now sub) s h v p =
    let (w, q) = resume-Inv ctx now sub s h v p in Claims-nothing h s _ w q
step-Claims (recovers ctx now older_than) s h v p =
    Claims-none h s _ v p (recover_stale-Settle ctx now older_than s)

pub new-Inv : Inv new
unfolding new
new-Inv = record {
  hol_on = refl;
  gate_on = refl;
  ids = λ d e m. absurd (Memᴰ.not-nil m);
  sequences = λ d e m. absurd (Memᴰ.not-nil m);
  bounded = λ d m. absurd (Memᴰ.not-nil m);
  head_first = λ d e m. absurd (Memᴰ.not-nil m);
  quiet = λ d m. absurd (Memᴰ.not-nil m);
  held = λ d m. absurd (Memᴰ.not-nil m);
}

pub new-Past : Past [] new
new-Past = record {
  counted = λ d m. absurd (Memᴰ.not-nil m);
  before = λ d e m. absurd (Memᴰ.not-nil m);
}

-- Whatever calls of the Store interface are made on a new store, by whatever workers and in whatever
-- order, the rows of each subscriber are handed out in the order of their sequence numbers: a later number is never
-- handed out before an earlier one, retries, suspensions, resumptions and recoveries included.
pub run-InOrder : (cs : List Call) → InOrder (run cs new).1
run-InOrder cs = (run_calls-Ran step (λ s. s) step-Claims cs new [] new-Inv new-Past).in_order

-- Every store that such calls reach satisfies the invariant.
pub run-Inv : (cs : List Call) → Inv (run cs new).0
run-Inv cs = (run_calls-Ran step (λ s. s) step-Claims cs new [] new-Inv new-Past).inv

-- In every store that such calls reach, two rows of one subscriber that are both in flight are
-- the same row.
pub run-in_flight_only :
    (cs : List Call) (d e : Delivery)
    → Memᴰ d (run cs new).0.by_id
    → Memᴰ e (run cs new).0.by_id
    → d.subscriber_id ≡ e.subscriber_id
    → is_in_flight d.status ≡ true
    → is_in_flight e.status ≡ true
    → d ≡ e
run-in_flight_only cs d e m n h p q =
    let v = run-Inv cs in v.ids d e m n (in_flight_only d e v m n h p q)
