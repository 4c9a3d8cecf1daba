-- ===== src/Memory/Queries.antt =====
-- The methods of store/memory/memory.go that only read, and BackdateClaimForTest.
use sharathfold.Prelude.{
  ℕ, ◌+◌, String, Bool, false, not, List, [], ◌∷◌, Option, none, some, if◌then◌else◌, lookup,
}
use sharathfold.Store.{
  Delivery, Time, Context, with_context, Result, ok, err, context_error, is_unfinished,
  is_in_flight, unknown_delivery, not_in_flight,
}
use sharathfold.Memory.State.{Store, SubMeta, find, update}
use sharathfold.Memory.Retention.{is_held}

abbrev suspended_of : Option SubMeta → Bool
suspended_of none = false
suspended_of (some m) = m.suspended

unfoldable pub is_suspended : Context → String → Store → Result Bool
is_suspended ctx sub s =
    with_context ctx (err context_error) (ok (suspended_of (lookup sub s.subs)))

unfoldable pub count_unfinished : List Delivery → ℕ
count_unfinished [] = 0
count_unfinished (d ∷ ds) =
    let n = count_unfinished ds in if is_unfinished d.status then n + 1 else n

unfoldable pub pending_or_in_flight : Context → Store → Result ℕ
unfolding count_unfinished
pending_or_in_flight ctx s = with_context ctx (err context_error) (ok (count_unfinished s.by_id))

unfoldable pub count_held : String → List Delivery → ℕ
count_held sub [] = 0
count_held sub (d ∷ ds) = let n = count_held sub ds in if is_held sub d then n + 1 else n

unfoldable pub retained_count : String → Store → ℕ
unfolding count_held
retained_count sub s = count_held sub s.by_id

unfoldable pub claim_stats : Store → ℕ × ℕ × ℕ
claim_stats s = (s.claim_calls, s.claim_rows, s.claim_non_empty)

abbrev backdate : Time → String → Store → Option Delivery → Store × Result (Unit {0})
backdate claimed_at id s none = (s, err (unknown_delivery id))
backdate claimed_at id s (some d) =
    if not (is_in_flight d.status) then (s, err (not_in_flight id)) else (
      record s { by_id = update id (λ row. record row { claimed_at = claimed_at }) s.by_id },
      ok tt,
    )

unfoldable pub backdate_claim_for_test : String → Time → Store → Store × Result (Unit {0})
backdate_claim_for_test id claimed_at s = backdate claimed_at id s (find id s.by_id)
