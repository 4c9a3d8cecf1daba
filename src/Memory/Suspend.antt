-- ===== src/Memory/Suspend.antt =====
-- ExhaustAndSuspend and Resume of store/memory/memory.go.
pub mod Suspending
pub mod Keeps
pub mod Resumes
use sharathfold.Prelude.{
  ℕ, String, Bool, true, false, ◌&&◌, List, [], ◌∷◌, map, if◌then◌else◌, str_eq, insert,
}
use sharathfold.Store.{
  Delivery, GapInfo, Status, Time, Context, with_context, Result, ok, err, context_error,
  is_pending, resume_requires_subscriber_id,
}
use sharathfold.Memory.State.{Store, signal, meta_of, update}
use sharathfold.Memory.Retention.{is_held, apply_retention}
use sharathfold.Memory.Marks.{require_owner, unclaim, close_row}

-- The loop over the map: the pending rows of the subscriber become retained.
abbrev pub retain_row : String → Delivery → Delivery
retain_row sub d =
    if str_eq d.subscriber_id sub && is_pending d.status
    then unclaim (record d { status = Status.retained })
    else d

abbrev pub set_suspended : String → Bool → Store → Store
set_suspended sub suspended s = record s {
  subs = insert sub (record (meta_of s.subs sub) { suspended = suspended }) s.subs;
}

-- The changes of ExhaustAndSuspend, once the claim is found to be the caller's.
unfoldable pub suspend_rows : String → Time → String → Delivery → Store → Store
suspend_rows id now err_msg d s =
    let closed = record s { by_id = update id (close_row Status.dead_lettered err_msg) s.by_id } in
    let s' = set_suspended d.subscriber_id true closed in
    apply_retention d.subscriber_id now
      (record s' { by_id = map (retain_row d.subscriber_id) s'.by_id })

abbrev pub finish_exhaust :
    String → Time → String → Store → Result Delivery → Store × Result (Unit {0})
finish_exhaust id now err_msg s (ok d) = (signal (suspend_rows id now err_msg d s), ok tt)
finish_exhaust id now err_msg s (err e) = (s, err e)

unfoldable pub exhaust_and_suspend :
    Context → Time → String → String → ℕ → String → Store → Store × Result (Unit {0})
exhaust_and_suspend ctx now id owner generation err_msg s =
    with_context ctx (s, err context_error)
      (finish_exhaust id now err_msg s (require_owner id owner generation s))

-- The two loops of Resume: every retained row of the subscriber becomes pending. The sort between
-- them only sets the order of the writes, and each write is to another row.
abbrev pub release_row : String → Time → Delivery → Delivery
release_row sub now d =
    if is_held sub d then unclaim (record d { status = Status.pending; next_attempt = now }) else d

abbrev pub no_gap : GapInfo
no_gap = record { occurred = false; dropped = 0; marker = "" }

unfoldable pub gap_of : String → Store → GapInfo
gap_of sub s =
    let m = meta_of s.subs sub in
    record { occurred = m.gap; dropped = m.dropped; marker = m.marker }

-- The changes of Resume after retention: the rows, and the subscriber's record.
unfoldable pub release_rows : String → Time → Store → Store
release_rows sub now s = record s {
  by_id = map (release_row sub now) s.by_id;
  subs = insert sub (record { suspended = false; gap = false; dropped = 0; marker = "" }) s.subs;
}

unfoldable pub resume : Context → Time → String → Store → Store × Result GapInfo
resume ctx now sub s =
    let s' = apply_retention sub now s in
    with_context ctx (s, err context_error)
      (if str_eq sub ""
        then (s, err resume_requires_subscriber_id)
        else (signal (release_rows sub now s'), ok (gap_of sub s')))
