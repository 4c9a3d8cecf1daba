-- ===== src/Memory/Enqueue.antt =====
-- Enqueue of store/memory/memory.go.
pub mod Row
pub mod Keeps
pub mod Partial
use sharathfold.Prelude.{
  ℕ, ◌+◌, String, Bool, true, false, not, ◌&&◌, List, [], ◌∷◌, Option, none, some, if◌then◌else◌,
  str_eq, insert, contains,
}
use sharathfold.Store.{
  Delivery, Status, Time, Context, with_context, Result, ok, err, missing_id, missing_subscriber_id,
  duplicate_id, context_error,
}
use sharathfold.Memory.State.{Store, signal, meta_of, touch_meta, seq_of, find}
use sharathfold.Memory.Retention.{apply_retention}

-- Whether the new row of a subscriber is held back: the gate is on, and the subscriber suspended.
abbrev pub is_gated : Store → String → Bool
is_gated s sub = not s.skip_suspend_gate && (meta_of s.subs sub).suspended

-- The row that Enqueue stores for `d`.
unfoldable pub stored_row : Store → Time → Delivery → Delivery
stored_row s now d = record d {
  sequence = seq_of s.seq d.subscriber_id + 1;
  attempt = 0;
  next_attempt = now;
  created_at = now;
  owner = "";
  generation = 0;
  claimed_at = 0;
  last_error = "";
  status = if is_gated s d.subscriber_id then Status.retained else Status.pending;
}

-- One round of the loop, past its checks: `s.byID[cp.ID] = &cp` adds a key that is not there.
unfoldable pub insert_row : Time → Delivery → Store → Store
unfolding stored_row
insert_row now d s = record s {
  by_id = stored_row s now d ∷ s.by_id;
  seq = insert d.subscriber_id (seq_of s.seq d.subscriber_id + 1) s.seq;
  subs = if s.skip_suspend_gate then s.subs else touch_meta d.subscriber_id s.subs;
}

abbrev pub is_known : Option Delivery → Bool
is_known none = false
is_known (some d) = true

-- touched[sub] = struct{}{}
abbrev add_touched : String → List String → List String
add_touched sub touched = if contains touched sub then touched else sub ∷ touched

-- The loop over the deliveries. It returns in the middle at the first bad one.
unfoldable pub enqueue_rows :
    Time → List Delivery → List String → Store → Store × Result (List String)
enqueue_rows now [] touched s = (s, ok touched)
enqueue_rows now (d ∷ ds) touched s =
    let sub = d.subscriber_id in
    let touched' = if is_gated s sub then add_touched sub touched else touched in
    let rest = enqueue_rows now ds touched' (insert_row now d s) in
    if str_eq d.id ""
    then (s, err missing_id)
    else if str_eq sub ""
    then (s, err (missing_subscriber_id d.id))
    else if is_known (find d.id s.by_id)
    then (s, err (duplicate_id d.id))
    else rest

unfoldable pub retain_touched : Time → List String → Store → Store
retain_touched now [] s = s
retain_touched now (sub ∷ touched) s = retain_touched now touched (apply_retention sub now s)

abbrev finish_enqueue : Time → Store × Result (List String) → Store × Result (Unit {0})
finish_enqueue now (s, ok touched) = (signal (retain_touched now touched s), ok tt)
finish_enqueue now (s, err e) = (s, err e)

unfoldable pub enqueue : Context → Time → List Delivery → Store → Store × Result (Unit {0})
enqueue ctx now ds s =
    with_context ctx (s, err context_error) (finish_enqueue now (enqueue_rows now ds [] s))
