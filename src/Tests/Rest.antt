-- ===== src/Tests/Rest.antt =====
-- Runs of the worker, the transport, the backoff and the assignment of partitions.
use native.Mathlib.Nat.{mod-lt}
use sharathfold.Prelude.{
  ℕ, ◌+◌, ◌/◌, ◌%◌, ◌≤◌, ◌<◌, true, false, [], ◌∷◌, Memᴰ, none, some, ◌≡◌, refl, arith, pos,
  get_elem?,
}
use sharathfold.Store.{Delivery, Status, live, err, unknown_delivery}
use sharathfold.Memory.State.{new, find}
use sharathfold.Memory.Marks.{require_owner}
use sharathfold.Memory.Api.{memory_api}
use sharathfold.Backoff.{core_delay, delay}
use sharathfold.Backoff.Schedule.{delay_bounds, core_delay_mono}
use sharathfold.Hash.{partition, or_default_partitions}
use sharathfold.Assign.{
  partitions_for_node, node_index, owner_assignments_for_nodes, logical_node_id,
}
use sharathfold.Assign.Cover.{claimed_once, node_index-claims, owner_assignments-claims}
use sharathfold.Partition.{Ownership, build_ownership, partitions_for, claim_owner_id}
use sharathfold.Partition as partitions
use sharathfold.Partition.Exclusive.{Shared, full_space_exclusive}
use sharathfold.Deliver.{Http, answered, deliver, DeliverResult, success}
use sharathfold.Deliver.Outcomes.{Explains, deliver-Explains}
use sharathfold.Worker.{Settings, deliver_one, delivery_error, mark_delivered_op}
use sharathfold.Worker.Fencing.{settles, deliver_one_stale}

delay_bounds_example :
    (n : ℕ) × (delay (λ m. 0) (pos 3) (pos 1000000000) (pos 60000000000) ≡ pos n)
    × (core_delay (pos 3) (pos 1000000000) (pos 60000000000) ≤ n)
    × (n
        ≤ core_delay (pos 3) (pos 1000000000) (pos 60000000000)
          + core_delay (pos 3) (pos 1000000000) (pos 60000000000) / 10)
    × (0 < n)
delay_bounds_example =
    delay_bounds (λ m. 0) (pos 3) (pos 1000000000) (pos 60000000000) (λ n h. h) (omega arith)
      (omega arith)

core_delay_mono_example :
    core_delay (pos 2) (pos 1000000000) (pos 60000000000)
    ≤ core_delay (pos 5) (pos 1000000000) (pos 60000000000)
core_delay_mono_example =
    core_delay_mono 2 5 (pos 1000000000) (pos 60000000000) (omega arith) (omega arith)

claimed_once_example :
    (5 < or_default_partitions (pos 16)
      → (i : ℕ) × (i < 3)
        × Memᴰ 5 (partitions_for_node (pos 16) (pos 3) (pos i))
        × ((j : ℕ) → Memᴰ 5 (partitions_for_node (pos 16) (pos 3) (pos j)) → j ≡ i))
    × ((j : ℕ)
        → Memᴰ 5 (partitions_for_node (pos 16) (pos 3) (pos j))
        → 5 < or_default_partitions (pos 16))
claimed_once_example = claimed_once (pos 16) 2 5

node_index-claims_example :
    Memᴰ
      (partition "s" (pos 16))
      (partitions_for_node (pos 16) (pos 3) (pos (node_index "s" (pos 16) (pos 3))))
node_index-claims_example = node_index-claims "s" (pos 16) 2

owner_assignments-claims_example :
    get_elem? (owner_assignments_for_nodes (pos 16) (pos 3)) (partition "s" (pos 16))
    ≡ some (logical_node_id (partition "s" (pos 16) % 3))
unfolding node_index
owner_assignments-claims_example =
    owner_assignments-claims (pos 16) 2 (partition "s" (pos 16) % 3) (partition "s" (pos 16))
      (mod-lt (partition "s" (pos 16)) (omega arith)) (node_index-claims "s" (pos 16) 2)

full_space_exclusive_example :
    (o : Ownership) × (build_ownership (pos 4) (pos 16) false none "n" "1" ≡ partitions.ok o)
    × (o.partitions ≡ 16)
    × (o.overlap ≡ false)
    × (o.narrowed ≡ false)
    × Shared 16 4 "n" "1" o
full_space_exclusive_example = full_space_exclusive 3 (pos 16) "n" "1"

-- A server that answers 200.
abbrev answering : Http
answering = record {
  new_request = λ url. none;
  do_request = λ r. answered (record { status_code = 200; status = "200 OK" });
  hmac = λ key bytes. [];
  unix_now = 0;
  context_error = "context canceled";
}

abbrev delivery : Delivery
delivery = record {
  id = "a";
  event_id = "e";
  subscriber_id = "s";
  url = "http://s";
  partition = 3;
  sequence = 1;
  payload = [];
  event_type = "";
  secret = [];
  status = Status.in_flight;
  attempt = 1;
  next_attempt = 0;
  last_error = "";
  owner = "w";
  generation = 1;
  claimed_at = 200;
  created_at = 100;
}

deliver-Explains_example :
    Explains answering live delivery (deliver answering live delivery).outcome
deliver-Explains_example = deliver-Explains answering live delivery

abbrev settings : Settings
settings = record {
  max_attempts = 5;
  base_backoff = pos 1000000000;
  max_backoff = pos 60000000000;
  has_on_suspend = true;
  has_on_delivery_error = true;
}

abbrev delivered_result : DeliverResult
delivered_result = record { outcome = success; status_code = 200; error = none }

-- The row is gone.
refused : require_owner "a" "w" 1 new ≡ err (unknown_delivery "a")
unfolding require_owner new find
refused = refl

deliver_one_stale_example :
    deliver_one memory_api settings (λ m. 0) live 300 "w" delivery delivered_result new
    ≡ (new, delivery_error mark_delivered_op "a" "s" "e" (unknown_delivery "a") ∷ [])
deliver_one_stale_example =
    deliver_one_stale settings (λ m. 0) 300 "w" delivery delivered_result mark_delivered_op new
      (unknown_delivery "a") settles refused
