-- ===== src/Tests/Workers.antt =====
-- Runs of a worker, worker.go, whose claim is its own.
use sharathfold.Prelude.{true, [], ◌∷◌, none, some, ◌≡◌, refl, arith, pos}
use sharathfold.Store.{Delivery, Status, add, live, ok}
use sharathfold.Memory.State.{Store, new, find}
use sharathfold.Memory.Marks.{mark_terminal}
use sharathfold.Backoff.{delay}
use sharathfold.Memory.Marks.Keeps.{Owned}
use sharathfold.Memory.Marks.Once.{Unmarked, mark_terminal-Unmarked}
use sharathfold.Memory.Api.{memory_api}
use sharathfold.Deliver.{success, retryable, error_text}
use sharathfold.Worker.{Settings, deliver_one}
use sharathfold.Worker.Settling.{result_with, deliver_one_success, deliver_one_retry}

abbrev claimed : Delivery
claimed = record {
  id = "a";
  event_id = "e";
  subscriber_id = "s";
  url = "http://s";
  partition = 3;
  sequence = 1;
  payload = [];
  event_type = "";
  secret = [];
  status = Status.in_flight;
  attempt = 1;
  next_attempt = 0;
  last_error = "";
  owner = "w";
  generation = 1;
  claimed_at = 200;
  created_at = 100;
}

abbrev settings : Settings
settings = record {
  max_attempts = 5;
  base_backoff = pos 1000000000;
  max_backoff = pos 60000000000;
  has_on_suspend = true;
  has_on_delivery_error = true;
}

abbrev claimed_store : Store
claimed_store = record new { by_id = claimed ∷ [] }

claimed-Owned : Owned "a" "w" 1 claimed_store claimed
unfolding find
claimed-Owned = record {
  there = refl;
  in_flight = refl;
  owner_is = refl;
  generation_is = refl;
  generation_set = λ q. omega arith;
}

mark_terminal-Unmarked_example :
    ((mark_terminal live "a" "w" 1 Status.dead_lettered "gone" claimed_store).1 ≡ ok tt)
    × (find "a" (mark_terminal live "a" "w" 1 Status.dead_lettered "gone" claimed_store).0.by_id
        ≡ some (record claimed {
          status = Status.dead_lettered;
          last_error = "gone";
          owner = "";
          generation = 0;
          claimed_at = 0;
        }))
    × Unmarked "a" (mark_terminal live "a" "w" 1 Status.dead_lettered "gone" claimed_store).0
mark_terminal-Unmarked_example =
    mark_terminal-Unmarked "a" "w" 1 Status.dead_lettered "gone" claimed_store claimed claimed-Owned
      refl

deliver_one_success_example :
    let (t, events) =
      deliver_one memory_api settings
        (λ m. 0)
        live
        300
        "w"
        claimed
        (result_with success 200 none)
        claimed_store in
    (events ≡ [])
    × (find "a" t.by_id
        ≡ some (record claimed {
          status = Status.delivered;
          last_error = "";
          owner = "";
          generation = 0;
          claimed_at = 0;
        }))
    × Unmarked "a" t
deliver_one_success_example =
    deliver_one_success settings (λ m. 0) 300 "w" claimed claimed 200 none claimed_store
      claimed-Owned

deliver_one_retry_example :
    let (t, events) =
      deliver_one memory_api settings
        (λ m. 0)
        live
        300
        "w"
        claimed
        (result_with retryable 503 none)
        claimed_store in
    (events ≡ [])
    × (find "a" t.by_id
        ≡ some (record claimed {
          status = Status.pending;
          attempt = 1;
          next_attempt = add 300 (delay (λ m. 0) (pos 1) (pos 1000000000) (pos 60000000000));
          last_error = error_text (result_with retryable 503 none);
          owner = "";
          generation = 0;
          claimed_at = 0;
        }))
    × Unmarked "a" t
deliver_one_retry_example =
    deliver_one_retry settings (λ m. 0) 300 "w" claimed claimed 503 none claimed_store claimed-Owned
      (omega arith)
