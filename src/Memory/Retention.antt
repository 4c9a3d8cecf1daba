-- ===== src/Memory/Retention.antt =====
-- applyRetentionLocked and dropRetainedLocked of store/memory/memory.go.
pub mod Drops
use sharathfold.Prelude.{
  ℕ, ◌+◌, String, Bool, true, false, not, ◌&&◌, List, [], ◌∷◌, if◌then◌else◌, ltb, str_eq, itoa,
  ◌+++◌, insert, length, sort_by,
}
use sharathfold.Store.{Delivery, Time, before, is_zero, is_retained, add_neg}
use sharathfold.Memory.State.{Store, SubMeta, meta_of, delete, retention_count, retention_age}

-- fmt.Sprintf("%s:dropped=%d:through_seq=%d:%s", …)
unfoldable pub gap_marker : String → ℕ → ℕ → String → String
gap_marker sub dropped seq reason =
    sub +++ ":dropped=" +++ itoa dropped +++ ":through_seq=" +++ itoa seq +++ ":" +++ reason

unfoldable pub drop_retained : Delivery → String → Store → Store
drop_retained d reason s =
    let m = meta_of s.subs d.subscriber_id in
    let marker = gap_marker d.subscriber_id (m.dropped + 1) d.sequence reason in
    record s {
      subs =
          insert d.subscriber_id (record m { gap = true; dropped = m.dropped + 1; marker = marker })
            s.subs;
      by_id = delete d.id s.by_id;
    }

abbrev pub is_held : String → Delivery → Bool
is_held sub d = str_eq d.subscriber_id sub && is_retained d.status

abbrev pub is_aged : Time → Delivery → Bool
is_aged cutoff d = not (is_zero d.created_at) && before d.created_at cutoff

-- The loop over the map: it drops what is too old, and collects the other retained rows.
unfoldable pub drop_aged : String → Time → List Delivery → Store → Store × List Delivery
drop_aged sub cutoff [] s = (s, [])
drop_aged sub cutoff (d ∷ ds) s =
    let aged = is_held sub d && is_aged cutoff d in
    let (s', rest) = drop_aged sub cutoff ds (if aged then drop_retained d "age" s else s) in
    (s', if is_held sub d && not aged then d ∷ rest else rest)

-- for len(retained) > maxCount
unfoldable pub drop_excess : ℕ → List Delivery → Store → Store
drop_excess max_count [] s = s
drop_excess max_count (d ∷ ds) s =
    let rest = drop_excess max_count ds (drop_retained d "count" s) in
    if ltb max_count (length (d ∷ ds)) then rest else s

abbrev pub by_sequence : Delivery → Delivery → Bool
by_sequence d e = ltb d.sequence e.sequence

unfoldable pub apply_retention : String → Time → Store → Store
apply_retention sub now s =
    let (s', retained) = drop_aged sub (add_neg now (retention_age s)) s.by_id s in
    drop_excess (retention_count s) (sort_by by_sequence retained) s'
