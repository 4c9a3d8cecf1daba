-- ===== src/Postgres/Suspend.antt =====
-- ExhaustAndSuspend and Resume of store/postgres/postgres.go, each one transaction.
use sharathfold.Prelude.{
  ℕ, String, true, false, map, Option, none, some, if◌then◌else◌, str_eq, ◌==◌, lookup, insert,
}
use sharathfold.Store.{
  Delivery, GapInfo, Status, Time, Context, with_context, Result, ok, err, context_error,
  mark_requires_generation, stale_claim, resume_requires_subscriber_id, database_failed,
}
use sharathfold.Memory.State.{SubMeta, meta_of}
use sharathfold.Memory.Marks.{close_row}
use sharathfold.Memory.Suspend.{retain_row, release_row}
use sharathfold.Postgres.State.{PgStore, Db, with_database, signal, find_row}
use sharathfold.Postgres.Marks.{update_where, is_claimed}
use sharathfold.Postgres.Retention.{apply_retention}

-- INSERT INTO fold_subscribers (…, TRUE) ON CONFLICT DO UPDATE SET suspended = TRUE
abbrev pub suspend : String → PgStore → PgStore
suspend sub t = record t {
  subscribers = insert sub (record (meta_of t.subscribers sub) { suspended = true }) t.subscribers;
}

-- The statements past the first, which closed a row of `sub`.
unfoldable pub suspend_rows : String → Time → PgStore → PgStore
suspend_rows sub now t =
    let t' = suspend sub t in
    apply_retention sub now (record t' { deliveries = map (retain_row sub) t'.deliveries })

-- The row that RETURNING subscriber_id is about.
abbrev pub exhaust_row :
    String → Time → PgStore → PgStore → Option Delivery → PgStore × Result (Unit {0})
exhaust_row id now t closed none = (t, err (stale_claim id))
exhaust_row id now t closed (some d) = (signal (suspend_rows d.subscriber_id now closed), ok tt)

unfoldable pub exhaust_and_suspend :
    Db → Context → Time → String → String → ℕ → String → PgStore → PgStore × Result (Unit {0})
exhaust_and_suspend db ctx now id owner generation err_msg t =
    let claimed = is_claimed t id owner generation in
    let closed = record t {
      deliveries = update_where claimed (close_row Status.dead_lettered err_msg) t.deliveries;
    } in
    with_context ctx (t, err context_error)
      (if generation == 0
        then (t, err mark_requires_generation)
        else with_database db (t, err database_failed)
            (exhaust_row id now t closed (find_row claimed t.deliveries)))

abbrev pub no_gap : GapInfo
no_gap = record { occurred = false; dropped = 0; marker = "" }

-- The two updates of Resume.
unfoldable pub release_rows : String → Time → PgStore → PgStore
release_rows sub now t = record t {
  deliveries = map (release_row sub now) t.deliveries;
  subscribers =
      insert sub (record { suspended = false; gap = false; dropped = 0; marker = "" })
        t.subscribers;
}

-- The subscriber's row after retention. One that was never seen has nothing to resume.
abbrev pub resume_found : String → Time → PgStore → Option SubMeta → PgStore × Result GapInfo
resume_found sub now t none = (t, ok no_gap)
resume_found sub now t (some m) = (
  signal (release_rows sub now t),
  ok (record { occurred = m.gap; dropped = m.dropped; marker = m.marker }),
)

unfoldable pub resume : Db → Context → Time → String → PgStore → PgStore × Result GapInfo
resume db ctx now sub t =
    let t' = apply_retention sub now t in
    with_context ctx (t, err context_error)
      (if str_eq sub ""
        then (t, err resume_requires_subscriber_id)
        else with_database db (t, err database_failed)
            (resume_found sub now t' (lookup sub t'.subscribers)))
