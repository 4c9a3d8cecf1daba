-- ===== src/Postgres/Queries.antt =====
-- The methods of store/postgres/postgres.go that only read, and the Store interface that it implements.
use sharathfold.Prelude.{ℕ, String, Bool, false, Option, none, some, lookup, length, keep_if}
use sharathfold.Store.{
  Context, with_context, Result, ok, err, context_error, is_unfinished, database_failed,
}
use sharathfold.StoreApi.{StoreApi}
use sharathfold.Memory.State.{SubMeta}
use sharathfold.Memory.Retention.{is_held}
use sharathfold.Postgres.State.{PgStore, Db, with_database}
use sharathfold.Postgres.Enqueue.{enqueue}
use sharathfold.Postgres.Claim.{claim}
use sharathfold.Postgres.Marks.{mark_delivered, mark_failed, mark_dead_letter, recover_stale}
use sharathfold.Postgres.Suspend.{exhaust_and_suspend, resume}

abbrev suspended_of : Option SubMeta → Bool
suspended_of none = false
suspended_of (some m) = m.suspended

unfoldable pub is_suspended : Db → Context → String → PgStore → Result Bool
is_suspended db ctx sub t =
    with_context ctx (err context_error)
      (with_database db (err database_failed) (ok (suspended_of (lookup sub t.subscribers))))

unfoldable pub pending_or_in_flight : Db → Context → PgStore → Result ℕ
pending_or_in_flight db ctx t = with_context ctx (err context_error) (
    with_database db (err database_failed)
      (ok (length (keep_if (λ d. is_unfinished d.status) t.deliveries))))

unfoldable pub retained_count : Db → String → PgStore → Result ℕ
retained_count db sub t =
    with_database db (err database_failed) (ok (length (keep_if (is_held sub) t.deliveries)))

abbrev pub has_distributed_ownership : PgStore → Bool
has_distributed_ownership t = t.distributed_ownership

abbrev pub postgres_api : Db → StoreApi PgStore
postgres_api db = record {
  enqueue = enqueue db;
  claim = claim db;
  mark_delivered = mark_delivered db;
  mark_failed = mark_failed db;
  mark_dead_letter = mark_dead_letter db;
  exhaust_and_suspend = exhaust_and_suspend db;
  resume = resume db;
  is_suspended = is_suspended db;
  recover_stale = recover_stale db;
  pending_or_in_flight = pending_or_in_flight db;
}
