-- ===== src/Postgres/Retention.antt =====
-- applyRetentionTx and dropRetainedTx of store/postgres/postgres.go.
use sharathfold.Prelude.{
  ℕ, ◌+◌, String, true, ◌&&◌, List, [], ◌∷◌, Option, none, some, if◌then◌else◌, ltb, lookup, insert,
  length, sort_by, keep_if,
}
use sharathfold.Store.{Delivery, Time, before, add_neg}
use sharathfold.Memory.State.{SubMeta, delete}
use sharathfold.Memory.Retention.{gap_marker, is_held, by_sequence}
use sharathfold.Postgres.State.{PgStore, retention_count, retention_age}

-- INSERT INTO fold_subscribers … ON CONFLICT DO UPDATE: a subscriber that is not there is inserted as
-- suspended.
abbrev pub with_gap : Option SubMeta → SubMeta
with_gap none = record { suspended = true; gap = true; dropped = 1; marker = "" }
with_gap (some m) = record m { gap = true; dropped = m.dropped + 1 }

unfoldable pub drop_retained : String → String → Delivery → PgStore → PgStore
drop_retained sub reason d t =
    let m = with_gap (lookup sub t.subscribers) in
    record t {
      deliveries = delete d.id t.deliveries;
      subscribers =
          insert sub (record m { marker = gap_marker sub m.dropped d.sequence reason })
            t.subscribers;
    }

-- for _, d := range aged
unfoldable pub drop_all : String → String → List Delivery → PgStore → PgStore
drop_all sub reason [] t = t
drop_all sub reason (d ∷ ds) t = drop_all sub reason ds (drop_retained sub reason d t)

-- for len(retained) > maxCount
unfoldable pub drop_excess : String → ℕ → List Delivery → PgStore → PgStore
drop_excess sub max_count [] t = t
drop_excess sub max_count (d ∷ ds) t =
    let rest = drop_excess sub max_count ds (drop_retained sub "count" d t) in
    if ltb max_count (length (d ∷ ds)) then rest else t

-- The two scans, ORDER BY sequence.
unfoldable pub aged_rows : String → Time → List Delivery → List Delivery
aged_rows sub cutoff ds =
    sort_by by_sequence (keep_if (λ d. is_held sub d && before d.created_at cutoff) ds)

unfoldable pub held_rows : String → List Delivery → List Delivery
held_rows sub ds = sort_by by_sequence (keep_if (is_held sub) ds)

unfoldable pub apply_retention : String → Time → PgStore → PgStore
apply_retention sub now t =
    let t' = drop_all sub "age" (aged_rows sub (add_neg now (retention_age t)) t.deliveries) t in
    drop_excess sub (retention_count t) (held_rows sub t'.deliveries) t'
