-- ===== src/Worker/Settling.antt =====
-- A worker of worker.go over the memory store, while its claim is its own.
use sharathfold.Prelude.{ℕ, ◌<◌, String, false, [], Option, some, ◌≡◌, refl, arith, leb, pos}
use sharathfold.Store.{Delivery, Status, Time, add, live, Result, ok, err}
use sharathfold.Memory.State.{Store, find}
use sharathfold.Memory.Marks.{mark_delivered, mark_failed}
use sharathfold.Backoff.{delay}
use sharathfold.Memory.Marks.Keeps.{Owned}
use sharathfold.Memory.Marks.Once.{Unmarked, mark_terminal-Unmarked, mark_failed-Unmarked}
use sharathfold.Memory.Api.{memory_api}
use sharathfold.Deliver.{Outcome, DeliverResult, success, retryable, error_text}
use sharathfold.Worker.{
  Settings, Op, reported, mark_delivered_op, mark_failed_op, deliver_one, retry_at,
}

-- What the transport returns.
abbrev pub result_with : Outcome → ℕ → Option String → DeliverResult
result_with o code error = record { outcome = o; status_code = code; error = error }

-- A mark that goes through is not reported.
reported-ok :
    (c : Settings) (op : Op) (d : Delivery) (x : Store × Result (Unit {0}))
    → x.1 ≡ ok tt
    → reported c op d x ≡ (x.0, [])
reported-ok c op d (s, ok u) h = refl
reported-ok c op d (s, err e) h = cc

-- A worker whose claim is its own, and whose attempt succeeded, leaves the row delivered, without
-- an owner, a generation or a time of the claim, and reports nothing. Each of the four marks of the row is
-- then refused and changes nothing, under a live context and whatever the owner and the generation.
pub deliver_one_success :
    (c : Settings) (rand : ℕ → ℕ) (now : Time) (owner : String) (del d : Delivery) (code : ℕ)
    (error : Option String) (s : Store)
    → Owned del.id owner del.generation s d
    → let (t, events) =
        deliver_one memory_api c rand live now owner del (result_with success code error) s in
      (events ≡ [])
      × (find del.id t.by_id
          ≡ some (record d {
            status = Status.delivered;
            last_error = "";
            owner = "";
            generation = 0;
            claimed_at = 0;
          }))
      × Unmarked del.id t
unfolding deliver_one mark_delivered
deliver_one_success c rand now owner del d code error s o =
    let (r, there, once) =
      mark_terminal-Unmarked del.id owner del.generation Status.delivered "" s d o refl in
    rw (reported-ok c mark_delivered_op del (mark_delivered live del.id owner del.generation s) r)
      (refl, there, once)

-- A worker whose claim is its own, and whose attempt is to be tried again with attempts left, leaves
-- the row pending, without an owner, a generation or a time of the claim, with the attempt that the claim
-- counted and the time of the backoff from now, and reports nothing. In the store that it leaves, each of
-- the four marks of the row is refused and changes nothing, under a live context.
pub deliver_one_retry :
    (c : Settings) (rand : ℕ → ℕ) (now : Time) (owner : String) (del d : Delivery) (code : ℕ)
    (error : Option String) (s : Store)
    → Owned del.id owner del.generation s d
    → del.attempt < c.max_attempts
    → let (t, events) =
        deliver_one memory_api c rand live now owner del (result_with retryable code error) s in
      (events ≡ [])
      × (find del.id t.by_id
          ≡ some (record d {
            status = Status.pending;
            attempt = del.attempt;
            next_attempt = add now (delay rand (pos del.attempt) c.base_backoff c.max_backoff);
            last_error = error_text (result_with retryable code error);
            owner = "";
            generation = 0;
            claimed_at = 0;
          }))
      × Unmarked del.id t
unfolding deliver_one
deliver_one_retry c rand now owner del d code error s o left =
    let more : leb c.max_attempts del.attempt ≡ false = ground arith in
    let (r, there, once) =
      mark_failed-Unmarked del.id owner del.generation del.attempt
        (retry_at memory_api c rand now del) (error_text (result_with retryable code error)) s d
        o in
    rw
      (
        more,
        reported-ok c mark_failed_op del
            (mark_failed live del.id owner del.generation del.attempt
              (retry_at memory_api c rand now del) (error_text (result_with retryable code error))
              s)
            r,
      )
      (refl, there, once)
