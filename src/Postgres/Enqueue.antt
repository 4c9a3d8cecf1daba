-- ===== src/Postgres/Enqueue.antt =====
-- Enqueue of store/postgres/postgres.go, one transaction.
use sharathfold.Prelude.{
  ◌+◌, String, Bool, not, ◌&&◌, ◌||◌, List, [], ◌∷◌, if◌then◌else◌, str_eq, ◌==◌, insert, contains,
}
use sharathfold.Store.{
  Delivery, Status, Time, Context, with_context, Result, ok, err, context_error, missing_id,
  missing_subscriber_id, database_failed, insert_conflict,
}
use sharathfold.Memory.State.{meta_of, seq_of}
use sharathfold.Postgres.State.{PgStore, Db, with_database, signal, exists_row, is_empty}
use sharathfold.Postgres.Retention.{apply_retention}

abbrev pub is_gated : PgStore → String → Bool
is_gated t sub = not t.skip_suspend_gate && (meta_of t.subscribers sub).suspended

-- The row that is inserted for `d`.
unfoldable pub stored_row : PgStore → Time → Delivery → Delivery
stored_row t now d = record d {
  sequence = seq_of t.subscriber_seq d.subscriber_id + 1;
  status = if is_gated t d.subscriber_id then Status.retained else Status.pending;
  attempt = 0;
  next_attempt = now;
  last_error = "";
  owner = "";
  generation = 0;
  claimed_at = 0;
  created_at = now;
}

-- The two inserts of a round: the counter, and the row.
unfoldable pub insert_row : Time → Delivery → PgStore → PgStore
unfolding stored_row
insert_row now d t = record t {
  subscriber_seq =
      insert d.subscriber_id (seq_of t.subscriber_seq d.subscriber_id + 1) t.subscriber_seq;
  deliveries = stored_row t now d ∷ t.deliveries;
}

-- PRIMARY KEY (id), UNIQUE (subscriber_id, sequence)
abbrev pub conflicts : Delivery → Delivery → Bool
conflicts new d =
    str_eq d.id new.id || (str_eq d.subscriber_id new.subscriber_id && d.sequence == new.sequence)

abbrev pub add_touched : String → List String → List String
add_touched sub touched = if contains touched sub then touched else sub ∷ touched

unfoldable pub enqueue_rows :
    Time → List Delivery → List String → PgStore → Result (PgStore × List String)
unfolding stored_row
enqueue_rows now [] touched t = ok (t, touched)
enqueue_rows now (d ∷ ds) touched t =
    let sub = d.subscriber_id in
    let touched' = if is_gated t sub then add_touched sub touched else touched in
    let rest = enqueue_rows now ds touched' (insert_row now d t) in
    if str_eq d.id ""
    then err missing_id
    else if str_eq sub ""
    then err (missing_subscriber_id d.id)
    else if exists_row (conflicts (stored_row t now d)) t.deliveries
    then err (insert_conflict d.id)
    else rest

unfoldable pub retain_touched : Time → List String → PgStore → PgStore
retain_touched now [] t = t
retain_touched now (sub ∷ touched) t = retain_touched now touched (apply_retention sub now t)

-- Commit, or roll back. A Commit that returns an error may have gone through; then no signal is sent.
abbrev pub commit_enqueue :
    Db → Time → PgStore → Result (PgStore × List String) → PgStore × Result (Unit {0})
commit_enqueue db now t (ok (t', touched)) =
    let u = retain_touched now touched t' in
    if db.loses_answer then (u, err database_failed) else (signal u, ok tt)
commit_enqueue db now t (err e) = (t, err e)

unfoldable pub enqueue : Db → Context → Time → List Delivery → PgStore → PgStore × Result (Unit {0})
enqueue db ctx now ds t =
    with_context ctx (t, err context_error)
      (if is_empty ds
        then (t, ok tt)
        else with_database db (t, err database_failed)
            (commit_enqueue db now t (enqueue_rows now ds [] t)))
