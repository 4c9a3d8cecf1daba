-- ===== src/Tests/Dispatchers.antt =====
-- Runs of the dispatcher, fold.go, over the memory store.
use sharathfold.Prelude.{
  has_slash, has_char, ℕ, ◌<◌, true, false, List, [], ◌∷◌, map, Memᴰ, none, ◌≡◌, refl, arith, pos,
  lookup, itoa,
}
use sharathfold.Memory.Api.{memory_api}
use sharathfold.Memory.Claim.{claim}
use sharathfold.Worker.Batch.{Batch, claim_batch, claim_batch-claim_owner_id}
use mathlib.Core.List.Memᴰ
use sharathfold.Prelude.{inl, inr, subst, sym, some}
use sharathfold.Memory.Queries.{pending_or_in_flight, count_unfinished}
use sharathfold.Dispatcher.Closing.{Poll, Waits, Drains, waits, drained, close, close_drained}
use sharathfold.Store.{Delivery, Status, ok, Context, live, done}
use sharathfold.Assign.{range}
use sharathfold.Assign.Cover.{mem-range_iff}
use sharathfold.Partition.{Ownership, claim_owner_id, partitions_for}
use sharathfold.Partition.Exclusive.{Shared}
use sharathfold.Memory.State.{Store, new}
use sharathfold.Memory.Marks.{recover_stale}
use sharathfold.Dispatcher.{
  Dispatcher, Config, context_done, drain_count_not_supported, returns, fails, memory_host,
  new_dispatcher, start, resize,
}
use sharathfold.Dispatching.{Event, Subscriber, rows_for, check_subscribers, dispatch}
use sharathfold.Memory.Enqueue.{enqueue, enqueue_rows, insert_row}
use sharathfold.Memory.State.{find}
use sharathfold.Prelude.{String, Option, eq_iff, true-false}
use sharathfold.Dispatcher.Resizing.{Manned, Resized, resize_shares, resize_failed}
use sharathfold.Dispatcher.Starting.{Recovers, start-Manned}
use sharathfold.Dispatching.Rows.{answer_of, Addressed, address_of_row, dispatch_enqueues}

abbrev config : Config
config = record {
  workers = pos 2;
  partitions = pos 16;
  max_attempts = pos 3;
  base_backoff = pos 0;
  max_backoff = pos 0;
  retention_max_count = pos 0;
  retention_max_age = pos 0;
  has_on_suspend = false;
  has_on_delivery_error = false;
  id_prefix = "";
  overlap_partitions = false;
  partitions_claim = none;
  stale_claim_age = pos 0;
  node_id = "";
}

memory_recovers : Recovers memory_host 100
unfolding recover_stale
memory_recovers = λ age s. (_, _, refl)

no_slash : has_slash "" ≡ false
unfolding has_char
no_slash = refl

start-Manned_example :
    (d e : Dispatcher Store) × (new_dispatcher memory_host config "" new ≡ returns d)
    × (start memory_host.api live 100 d ≡ (e, returns tt))
    × Manned e
    × (e.workers ≡ 2)
    × Shared e.own.partitions e.workers e.node_id e.incarnation_id e.own
start-Manned_example =
    start-Manned memory_host 100 config "" new memory_recovers no_slash refl refl refl

-- One worker over four partitions.
abbrev ownership : Ownership
ownership = record {
  partitions = 4;
  by_owner = (claim_owner_id "" "" 0, range 4) ∷ [];
  by_part = "worker-0" ∷ "worker-0" ∷ "worker-0" ∷ "worker-0" ∷ [];
  overlap = false;
  narrowed = false;
}

abbrev running : Dispatcher Store
running = record {
  store = new;
  max_attempts = 3;
  base_backoff = pos 1000000000;
  max_backoff = pos 60000000000;
  has_on_suspend = false;
  has_on_delivery_error = false;
  stale_claim_age = pos 0;
  own = ownership;
  generation = 1;
  workers = 1;
  started = true;
  closed = false;
  spawned = claim_owner_id "" "" 0 ∷ [];
  id_prefix = "";
  node_id = "";
  incarnation_id = "";
}

running-Manned : Manned running
running-Manned = record {
  is_open = refl;
  is_started = refl;
  exclusive = refl;
  full = refl;
  some_partitions = omega arith;
  manned = λ w b. let first : w ≡ 0 = omega arith in rw first (Memᴰ.head refl);
}

running-Shared : Shared 4 1 "" "" ownership
unfolding partitions_for lookup claim_owner_id range itoa
running-Shared = λ w p b.
    let first : w ≡ 0 = omega arith in
    rw first (λ m. ((mem-range_iff 4 p).0 m, omega arith), λ (a, q). (mem-range_iff 4 p).1 a)

resize_shares_example :
    (e : Dispatcher Store) × (resize live (pos 3) running ≡ (e, returns tt)) × Resized running e 3
resize_shares_example = resize_shares running 2 running-Manned (λ q. omega arith)

refused : (resize done (pos 3) running).1 ≡ fails context_done
unfolding resize
refused = refl

resize_failed_example : (resize done (pos 3) running).0 ≡ running
resize_failed_example = resize_failed done (pos 3) running context_done refused

abbrev event : Event
event = record { id = "e"; event_type = "t"; payload = none }

abbrev subscriber : Subscriber
subscriber = record { id = "s"; url = "http://s"; secret = [] }

abbrev marshalled : String → String → List ℕ → Option (List ℕ)
marshalled id event_type payload = some (1 ∷ payload)

subscriber-Addressed : (s : Subscriber) → Memᴰ s (subscriber ∷ []) → Addressed s
subscriber-Addressed s m = elim (Memᴰ.cases_cons m) [
  | inl e ↦
      subst (λ x. Addressed x) (sym e)
        (
          λ q. true-false ((eq_iff "s" "").1 q) refl,
          λ q. true-false ((eq_iff "http://s" "").1 q) refl,
        )
  | inr n ↦ absurd (Memᴰ.not-nil n)
]

dispatch_enqueues_example :
    (rows : List Delivery) × (let (t, r) = enqueue live 100 rows new in
      dispatch memory_api marshalled (λ i. "r") live 100 event (subscriber ∷ []) running
      ≡ (record running { store = t }, answer_of r))
    × (map address_of_row rows ≡ ("s", "http://s", []) ∷ [])
    × ((r : Delivery)
        → Memᴰ r rows
        → (r.event_id ≡ "e")
          × (r.payload ≡ 1 ∷ b'n' ∷ b'u' ∷ b'l' ∷ b'l' ∷ [])
          × ((w : ℕ) × (w < 1)
              × Memᴰ r.partition (partitions_for ownership (claim_owner_id "" "" w))
              × Memᴰ (claim_owner_id "" "" w) running.spawned))
dispatch_enqueues_example =
    dispatch_enqueues memory_api marshalled (λ i. "r") 100 event (subscriber ∷ []) running
      (1 ∷ b'n' ∷ b'u' ∷ b'l' ∷ b'l' ∷ []) running-Manned (omega arith) running-Shared
      (λ q. true-false ((eq_iff "e" "").1 q) refl) (λ q. omega arith) subscriber-Addressed refl

-- It goes through.
dispatched :
    (dispatch memory_api marshalled (λ i. "r") live 100 event (subscriber ∷ []) running).1
    ≡ returns tt
unfolding dispatch check_subscribers rows_for enqueue enqueue_rows insert_row find new
dispatched = refl

claim_batch-claim_owner_id_example :
    let (s, r) =
      claim live 300
        (claim_owner_id "" "" 0)
        running.generation
        (partitions_for ownership (claim_owner_id "" "" 0))
        (pos 64)
        running.store in
    claim_batch memory_api live 300 (claim_owner_id "" "" 0) running
    ≡ Batch.claimed (record running { store = s }) r
claim_batch-claim_owner_id_example =
    claim_batch-claim_owner_id memory_api live 300 running 0 (omega arith)

-- One row is left at the first round, and none at the second.
abbrev left : Store
left = record new {
  by_id =
      record {
        id = "a";
        event_id = "e";
        subscriber_id = "s";
        url = "http://s";
        partition = 3;
        sequence = 1;
        payload = [];
        event_type = "";
        secret = [];
        status = Status.pending;
        attempt = 0;
        next_attempt = 0;
        last_error = "";
        owner = "";
        generation = 0;
        claimed_at = 0;
        created_at = 0;
      }
      ∷ [];
}

abbrev busy : Poll Store
busy = record { ctx = live; store = left; woken = live }

abbrev clear : Poll Store
clear = record { ctx = live; store = new; woken = live }

busy-Waits : Waits memory_api busy
unfolding pending_or_in_flight count_unfinished new
busy-Waits = record { count = 1; counted = refl; some_left = refl; woken = refl }

nothing_left : memory_api.pending_or_in_flight live new ≡ ok 0
unfolding pending_or_in_flight count_unfinished new
nothing_left = refl

abbrev ended : Dispatcher Store
ended = record running { closed = true; spawned = []; store = new }

busy_then_clear : Drains memory_api (busy ∷ clear ∷ [])
busy_then_clear = waits busy (clear ∷ []) busy-Waits (drained clear [] nothing_left)

close_drained_example :
    ((joined : Context)
      → (close memory_api true (busy ∷ clear ∷ []) joined new running).1 ≡ some (returns tt)
      → Drains memory_api (busy ∷ clear ∷ []))
    × (Drains memory_api (busy ∷ clear ∷ [])
        → close memory_api true (busy ∷ clear ∷ []) live new running ≡ (ended, some (returns tt)))
    × ((joined : Context)
        → close memory_api false (busy ∷ clear ∷ []) joined new running
          ≡ (ended, some (fails drain_count_not_supported)))
close_drained_example = close_drained memory_api (busy ∷ clear ∷ []) new running refl refl

-- It ends without an error.
closes : close memory_api true (busy ∷ clear ∷ []) live new running ≡ (ended, some (returns tt))
closes = (close_drained memory_api (busy ∷ clear ∷ []) new running refl refl).1 busy_then_clear
