-- ===== src/Memory/Marks.antt =====
-- requireOwner, the marks and RecoverStale of store/memory/memory.go.
pub mod Keeps
pub mod Once
use sharathfold.Prelude.{
  ℕ, suc, ◌+◌, ◌<◌, String, Bool, true, false, not, ◌&&◌, ◌||◌, List, [], ◌∷◌, Option, none, some,
  if◌then◌else◌, ltb, ◌==◌, str_eq, ℤ,
}
use sharathfold.Store.{
  Delivery, Status, Time, Context, with_context, Result, ok, err, context_error, is_in_flight,
  is_zero, after, add_neg, mark_requires_generation, unknown_delivery, not_in_flight, stale_claim,
}
use sharathfold.Memory.State.{Store, signal, find, update}

abbrev check_claim : String → String → ℕ → Option Delivery → Result Delivery
check_claim id owner generation none = err (unknown_delivery id)
check_claim id owner generation (some d) =
    if not (is_in_flight d.status)
    then err (not_in_flight id)
    else if not (str_eq d.owner owner) || not (d.generation == generation)
    then err (stale_claim id)
    else ok d

unfoldable pub require_owner : String → String → ℕ → Store → Result Delivery
require_owner id owner generation s =
    if generation == 0
    then err mark_requires_generation
    else check_claim id owner generation (find id s.by_id)

-- d.Owner = ""; d.Generation = 0; d.ClaimedAt = time.Time{}
abbrev pub unclaim : Delivery → Delivery
unclaim d = record d { owner = ""; generation = 0; claimed_at = 0 }

abbrev pub write_row : String → (Delivery → Delivery) → Store → Store
write_row id f s = record s { by_id = update id f s.by_id }

abbrev pub finish_mark : Store → Store → Result Delivery → Store × Result (Unit {0})
finish_mark s s' (ok d) = (signal s', ok tt)
finish_mark s s' (err e) = (s, err e)

abbrev pub close_row : Status → String → Delivery → Delivery
close_row status err_msg d = unclaim (record d { status = status; last_error = err_msg })

unfoldable pub mark_terminal :
    Context → String → String → ℕ → Status → String → Store → Store × Result (Unit {0})
mark_terminal ctx id owner generation status err_msg s =
    with_context ctx (s, err context_error)
      (finish_mark s (write_row id (close_row status err_msg) s)
        (require_owner id owner generation s))

unfoldable pub mark_delivered : Context → String → String → ℕ → Store → Store × Result (Unit {0})
unfolding mark_terminal
mark_delivered ctx id owner generation s =
    mark_terminal ctx id owner generation Status.delivered "" s

unfoldable pub mark_dead_letter :
    Context → String → String → ℕ → String → Store → Store × Result (Unit {0})
unfolding mark_terminal
mark_dead_letter ctx id owner generation err_msg s =
    mark_terminal ctx id owner generation Status.dead_lettered err_msg s

abbrev pub retry_row : ℕ → Time → String → Delivery → Delivery
retry_row attempt next err_msg d = unclaim (record d {
  status = Status.pending;
  attempt = attempt;
  next_attempt = next;
  last_error = err_msg;
})

unfoldable pub mark_failed :
    Context → String → String → ℕ → ℕ → Time → String → Store → Store × Result (Unit {0})
mark_failed ctx id owner generation attempt next err_msg s =
    with_context ctx (s, err context_error)
      (finish_mark s (write_row id (retry_row attempt next err_msg) s)
        (require_owner id owner generation s))

-- An in_flight row that was claimed at the cutoff or before.
abbrev pub is_stale : Time → Delivery → Bool
is_stale cutoff d = is_in_flight d.status && not (is_zero d.claimed_at || after d.claimed_at cutoff)

abbrev pub recover_row : Time → Delivery → Delivery
recover_row cutoff d =
    if is_stale cutoff d then unclaim (record d { status = Status.pending }) else d

-- The loop over the map: the rows afterwards, and how many were reset.
unfoldable pub recover_rows : Time → List Delivery → List Delivery × ℕ
recover_rows cutoff [] = ([], 0)
recover_rows cutoff (d ∷ ds) =
    let (rest, n) = recover_rows cutoff ds in
    (recover_row cutoff d ∷ rest, if is_stale cutoff d then n + 1 else n)

unfoldable pub recover_stale : Context → Time → ℤ → Store → Store × Result ℕ
unfolding recover_rows
recover_stale ctx now older_than s =
    let (rows, n) = recover_rows (add_neg now older_than) s.by_id in
    let s' = record s { by_id = rows } in
    with_context ctx (s, err context_error) (if ltb 0 n then signal s' else s', ok n)
