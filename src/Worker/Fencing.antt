-- ===== src/Worker/Fencing.antt =====
-- A worker of worker.go over the memory store.
use sharathfold.Prelude.{
  ℕ, ◌<◌, ◌≤◌, String, true, false, [], ◌∷◌, ◌≡◌, refl, arith, if◌then◌else◌, leb,
}
use sharathfold.Store.{Delivery, Time, live, err, Error}
use sharathfold.Memory.State.{Store}
use sharathfold.Memory.Marks.{require_owner, mark_delivered, mark_failed}
use sharathfold.Memory.Suspend.{exhaust_and_suspend}
use sharathfold.Memory.Api.{memory_api}
use sharathfold.Deliver.{Outcome, success, retryable, permanent, DeliverResult, error_text}
use sharathfold.Worker.{
  Settings, Op, mark_delivered_op, mark_failed_op, exhaust_and_suspend_op, delivery_error,
  deliver_one, exhaust, on_outcome,
}

-- Which mark goes with an outcome, given the number of attempts that the worker may make.
pub data Tries (most attempt : ℕ) : Outcome → Op → Type 0 where
  settles : Tries most attempt success mark_delivered_op
  retries : attempt < most → Tries most attempt retryable mark_failed_op
  gives_up : most ≤ attempt → Tries most attempt retryable exhaust_and_suspend_op
  fails_for_good : Tries most attempt permanent exhaust_and_suspend_op

on_outcome_stale :
    (c : Settings) (rand : ℕ → ℕ) (now : Time) (owner : String) (d : Delivery) (o : Outcome)
    (op : Op) (err_msg : String) (s : Store) (e : Error)
    → Tries c.max_attempts d.attempt o op
    → require_owner d.id owner d.generation s ≡ err e
    → on_outcome memory_api c rand o live now owner d err_msg s ≡ (
      s,
      if c.has_on_delivery_error
          then delivery_error op d.id d.subscriber_id d.event_id e ∷ []
          else [],
    )
unfolding exhaust mark_delivered mark_failed exhaust_and_suspend
on_outcome_stale c rand now owner d _ _ err_msg s e settles h = rw h refl
on_outcome_stale c rand now owner d _ _ err_msg s e fails_for_good h = rw h refl
on_outcome_stale c rand now owner d _ _ err_msg s e (retries left) h =
    let more : leb c.max_attempts d.attempt ≡ false = ground arith in rw (more, h) refl
on_outcome_stale c rand now owner d _ _ err_msg s e (gives_up none_left) h =
    let last : leb c.max_attempts d.attempt ≡ true = ground arith in rw (last, h) refl

-- A worker whose claim is no longer its own changes nothing in the store, whatever the attempt came
-- to. If the host set the hook OnDeliveryError, it is called once, with the store's refusal and with the
-- mark that was tried: MarkDelivered after a success, MarkFailed after an attempt that is to be tried again
-- with attempts left, and else ExhaustAndSuspend. No other hook is called.
pub deliver_one_stale :
    (c : Settings) (rand : ℕ → ℕ) (now : Time) (owner : String) (d : Delivery) (res : DeliverResult)
    (op : Op) (s : Store) (e : Error)
    → Tries c.max_attempts d.attempt res.outcome op
    → require_owner d.id owner d.generation s ≡ err e
    → deliver_one memory_api c rand live now owner d res s ≡ (
      s,
      if c.has_on_delivery_error
          then delivery_error op d.id d.subscriber_id d.event_id e ∷ []
          else [],
    )
unfolding deliver_one
deliver_one_stale c rand now owner d res op s e tries h =
    on_outcome_stale c rand now owner d res.outcome op (error_text res) s e tries h
