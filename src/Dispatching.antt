-- ===== src/Dispatching.antt =====
-- fold.go and types.go: Dispatch and Resume. Random tokens and json.Marshal are parameters.
pub mod Rows
use sharathfold.Prelude.{
  ℕ, zero, suc, ◌+◌, ◌-◌, ◌*◌, ◌%◌, String, Bool, true, false, not, ◌&&◌, List, [], ◌∷◌, ◌++◌, map,
  Option, none, some, if◌then◌else◌, ◌==◌, str_eq, ◌+++◌, ℤ, pos, negsuc, le_zero, to_nat, length,
}
use sharathfold.Store.{
  Delivery, Status, Time, Context, with_context, GapInfo, Error, context_error, Result,
}
use sharathfold.Store as stores
use sharathfold.StoreApi.{StoreApi}
use sharathfold.Hash.{partition, or_default_partitions}
use sharathfold.Assign.{range_from, range}
use sharathfold.Partition.{Ownership, Built, build_ownership, claim_owner_id}
use sharathfold.Partition as partitions
use sharathfold.Backoff.{uint64_mod, default_base, default_max, or_default}
use sharathfold.Memory.State.{Store}
use sharathfold.Memory.Api.{memory_api}
use sharathfold.Dispatcher.{
  Dispatcher, FoldError, Fallible, returns, fails, context_done, dispatcher_closed, not_started,
  event_id_required, no_subscriber, subscriber_id_required, subscriber_url_required,
  encoding_failed, store_failed,
}

-- types.go: `payload` is none when the slice is nil.
pub record Event : Type 0 where
  pub id : String
  pub event_type : String
  pub payload : Option (List ℕ)

pub record Subscriber : Type 0 where
  pub id : String
  pub url : String
  pub secret : List ℕ

abbrev check_rest : Subscriber → Option FoldError → Option FoldError
check_rest s rest =
    if str_eq s.id ""
    then some subscriber_id_required
    else if str_eq s.url ""
    then some subscriber_url_required
    else rest

unfoldable pub check_subscribers : List Subscriber → Option FoldError
check_subscribers [] = none
check_subscribers (s ∷ subs) = check_rest s (check_subscribers subs)

-- The bytes of the JSON null.
abbrev pub or_null : Option (List ℕ) → List ℕ
or_null none = b'n' ∷ b'u' ∷ b'l' ∷ b'l' ∷ []
or_null (some bytes) = bytes

unfoldable pub encode_once : (String → String → List ℕ → Option (List ℕ)) → Event → Option (List ℕ)
encode_once marshal ev = marshal ev.id ev.event_type (or_null ev.payload)

-- One row per subscriber; `random i` is the random part of the i-th id. The fields that the source
-- leaves out are set by Enqueue.
unfoldable pub row_for :
    {S : Type 0} → (ℕ → String) → Dispatcher S → Event → List ℕ → ℕ → Subscriber → Delivery
row_for random d ev payload i s = record {
  id = d.id_prefix +++ random i;
  event_id = ev.id;
  subscriber_id = s.id;
  url = s.url;
  partition = partition s.id (pos d.own.partitions);
  sequence = 0;
  payload = payload;
  event_type = ev.event_type;
  secret = s.secret;
  status = Status.pending;
  attempt = 0;
  next_attempt = 0;
  last_error = "";
  owner = "";
  generation = 0;
  claimed_at = 0;
  created_at = 0;
}

unfoldable pub rows_for :
    {S : Type 0}
    → (ℕ → String)
    → Dispatcher S
    → Event
    → List ℕ
    → ℕ
    → List Subscriber
    → List Delivery
unfolding row_for
rows_for random d ev payload i [] = []
rows_for random d ev payload i (s ∷ subs) =
    row_for random d ev payload i s ∷ rows_for random d ev payload (i + 1) subs

abbrev finish_dispatch :
    {S : Type 0} → Dispatcher S → S × Result (Unit {0}) → Dispatcher S × Fallible (Unit {0})
finish_dispatch d (s, stores.ok u) = (record d { store = s }, returns tt)
finish_dispatch d (s, stores.err e) = (record d { store = s }, fails (store_failed e))

abbrev enqueue_encoded :
    {S : Type 0}
    → StoreApi S
    → (ℕ → String)
    → Context
    → Time
    → Dispatcher S
    → Event
    → List Subscriber
    → Option (List ℕ)
    → Dispatcher S × Fallible (Unit {0})
enqueue_encoded api random ctx now d ev subs none = (d, fails encoding_failed)
enqueue_encoded api random ctx now d ev subs (some payload) =
    finish_dispatch d (api.enqueue ctx now (rows_for random d ev payload 0 subs) d.store)

abbrev checked :
    {S : Type 0}
    → Dispatcher S
    → Option FoldError
    → Dispatcher S × Fallible (Unit {0})
    → Dispatcher S × Fallible (Unit {0})
checked d (some e) sent = (d, fails e)
checked d none sent = sent

unfoldable pub dispatch :
    {S : Type 0}
    → StoreApi S
    → (String → String → List ℕ → Option (List ℕ))
    → (ℕ → String)
    → Context
    → Time
    → Event
    → List Subscriber
    → Dispatcher S
    → Dispatcher S × Fallible (Unit {0})
unfolding encode_once
dispatch api marshal random ctx now ev subs d =
    with_context ctx (d, fails context_done)
      (if d.closed
        then (d, fails dispatcher_closed)
        else if not d.started
        then (d, fails not_started)
        else if str_eq ev.id ""
        then (d, fails event_id_required)
        else if length subs == 0
        then (d, fails no_subscriber)
        else checked d (check_subscribers subs)
            (enqueue_encoded api random ctx now d ev subs (encode_once marshal ev)))

-- What Resume returns: ResumeResult
pub record ResumeResult : Type 0 where
  pub gap : Bool
  pub dropped : ℕ
  pub marker : String

abbrev finish_resume :
    {S : Type 0} → Dispatcher S → S × Result GapInfo → Dispatcher S × Fallible ResumeResult
finish_resume d (s, stores.ok g) = (
  record d { store = s },
  returns (record { gap = g.occurred; dropped = g.dropped; marker = g.marker }),
)
finish_resume d (s, stores.err e) = (record d { store = s }, fails (store_failed e))

unfoldable pub resume_subscriber :
    {S : Type 0}
    → StoreApi S
    → Context
    → Time
    → String
    → Dispatcher S
    → Dispatcher S × Fallible ResumeResult
resume_subscriber api ctx now sub d =
    if str_eq sub ""
    then (d, fails subscriber_id_required)
    else finish_resume d (api.resume ctx now sub d.store)
