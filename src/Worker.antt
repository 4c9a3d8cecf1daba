-- ===== src/Worker.antt =====
-- worker.go: what a worker does with a claimed delivery.
pub mod Fencing
pub mod Settling
pub mod Batch
use sharathfold.Prelude.{
  ℕ, String, Bool, true, false, List, [], ◌∷◌, ◌++◌, if◌then◌else◌, leb, ℤ, pos,
}
use sharathfold.Store.{Delivery, Time, add, Context, live, done, Result, ok, err, Error}
use sharathfold.StoreApi.{StoreApi}
use sharathfold.Backoff.{delay}
use sharathfold.Deliver.{Outcome, success, retryable, permanent, DeliverResult, error_text}

-- claimBatch
abbrev pub claim_batch_limit : ℤ
claim_batch_limit = pos 64

-- The dispatcher's settings that a worker reads. The last two say whether the host set the hooks.
pub record Settings : Type 0 where
  pub max_attempts : ℕ
  pub base_backoff : ℤ
  pub max_backoff : ℤ
  pub has_on_suspend : Bool
  pub has_on_delivery_error : Bool

pub data Op : Type 0 where
  mark_delivered_op mark_failed_op exhaust_and_suspend_op : Op

-- A call of a hook: OnSuspend, or OnDeliveryError with its DeliveryMutationError.
pub data Event : Type 0 where
  suspended_event : String → Event
  delivery_error : Op → String → String → String → Error → Event

abbrev pub report_delivery_error : Settings → Op → Delivery → Error → List Event
report_delivery_error c op d e =
    if c.has_on_delivery_error then delivery_error op d.id d.subscriber_id d.event_id e ∷ [] else []

abbrev pub reported {ℓ} :
    {S : Type ℓ} → Settings → Op → Delivery → S × Result (Unit {0}) → S × List Event
reported c op d (s, ok u) = (s, [])
reported c op d (s, err e) = (s, report_delivery_error c op d e)

abbrev pub exhausted {ℓ} :
    {S : Type ℓ} → Settings → Delivery → S × Result (Unit {0}) → S × List Event
exhausted c d (s, ok u) = (s, if c.has_on_suspend then suspended_event d.subscriber_id ∷ [] else [])
exhausted c d (s, err e) = (s, report_delivery_error c exhaust_and_suspend_op d e)

module _ {S : Type 0} (api : StoreApi S) (c : Settings) (rand : ℕ → ℕ) where
  unfoldable pub exhaust : Context → Time → String → Delivery → String → S → S × List Event
  exhaust ctx now owner d err_msg s =
      exhausted c d (api.exhaust_and_suspend ctx now d.id owner d.generation err_msg s)

  -- The retry time: time.Now().Add(backoff.Delay(…)).
  abbrev pub retry_at : Time → Delivery → Time
  retry_at now d = add now (delay rand (pos d.attempt) c.base_backoff c.max_backoff)

  abbrev on_outcome : Outcome → Context → Time → String → Delivery → String → S → S × List Event
  on_outcome success ctx now owner d err_msg s =
      reported c mark_delivered_op d (api.mark_delivered ctx d.id owner d.generation s)
  on_outcome permanent ctx now owner d err_msg s = exhaust ctx now owner d err_msg s
  on_outcome retryable ctx now owner d err_msg s =
      if leb c.max_attempts d.attempt
      then exhaust ctx now owner d err_msg s
      else reported c mark_failed_op d
          (api.mark_failed ctx d.id owner d.generation d.attempt (retry_at now d) err_msg s)

  -- deliverOne, past the transport's answer
  unfoldable pub deliver_one :
      Context → Time → String → Delivery → DeliverResult → S → S × List Event
  unfolding exhaust
  deliver_one ctx now owner d res s = on_outcome res.outcome ctx now owner d (error_text res) s
