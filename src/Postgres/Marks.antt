-- ===== src/Postgres/Marks.antt =====
-- The marks, RecoverStale and BackdateClaimForTest of store/postgres/postgres.go.
use sharathfold.Prelude.{
  ℕ, String, Bool, not, ◌&&◌, ◌||◌, List, map, if◌then◌else◌, ltb, ◌==◌, str_eq, ℤ, length, keep_if,
}
use sharathfold.Store.{
  Delivery, Status, Time, Context, with_context, Result, ok, err, context_error, is_in_flight,
  is_zero, before, add_neg, mark_requires_generation, stale_claim, not_in_flight, database_failed,
}
use sharathfold.Memory.Marks.{unclaim, close_row, retry_row}
use sharathfold.Postgres.State.{PgStore, Db, with_database, signal, exists_row}

-- UPDATE fold_deliveries SET … WHERE …
unfoldable pub update_where :
    (Delivery → Bool) → (Delivery → Delivery) → List Delivery → List Delivery
update_where p f = map (λ d. if p d then f d else d)

-- WHERE id = $1 AND status = 'in_flight' AND owner = $2 AND generation = $3. A NULL owner equals nothing.
abbrev pub is_claimed : PgStore → String → String → ℕ → Delivery → Bool
is_claimed t id owner generation d =
    str_eq d.id id
    && is_in_flight d.status
    && (t.skip_mark_owner_gen_check
        || (not (str_eq d.owner "") && str_eq d.owner owner && d.generation == generation))

-- The update of a mark, and the test of RowsAffected.
unfoldable pub mark :
    Db
    → Context
    → String
    → String
    → ℕ
    → (Delivery → Delivery)
    → PgStore
    → PgStore × Result (Unit {0})
mark db ctx id owner generation f t =
    let claimed = is_claimed t id owner generation in
    with_context ctx (t, err context_error)
      (if generation == 0
        then (t, err mark_requires_generation)
        else with_database db (t, err database_failed)
            (if exists_row claimed t.deliveries
              then (signal (record t { deliveries = update_where claimed f t.deliveries }), ok tt)
              else (t, err (stale_claim id))))

unfoldable pub mark_terminal :
    Db → Context → String → String → ℕ → Status → String → PgStore → PgStore × Result (Unit {0})
unfolding mark
mark_terminal db ctx id owner generation status err_msg t =
    mark db ctx id owner generation (close_row status err_msg) t

unfoldable pub mark_delivered :
    Db → Context → String → String → ℕ → PgStore → PgStore × Result (Unit {0})
unfolding mark_terminal
mark_delivered db ctx id owner generation t =
    mark_terminal db ctx id owner generation Status.delivered "" t

unfoldable pub mark_dead_letter :
    Db → Context → String → String → ℕ → String → PgStore → PgStore × Result (Unit {0})
unfolding mark_terminal
mark_dead_letter db ctx id owner generation err_msg t =
    mark_terminal db ctx id owner generation Status.dead_lettered err_msg t

unfoldable pub mark_failed :
    Db → Context → String → String → ℕ → ℕ → Time → String → PgStore → PgStore × Result (Unit {0})
unfolding mark
mark_failed db ctx id owner generation attempt next err_msg t =
    mark db ctx id owner generation (retry_row attempt next err_msg) t

-- claimed_at IS NOT NULL AND claimed_at < $1
abbrev pub is_stale : Time → Delivery → Bool
is_stale cutoff d =
    is_in_flight d.status && not (is_zero d.claimed_at) && before d.claimed_at cutoff

abbrev pub to_pending : Delivery → Delivery
to_pending d = unclaim (record d { status = Status.pending })

unfoldable pub recover_stale : Db → Context → Time → ℤ → PgStore → PgStore × Result ℕ
recover_stale db ctx now older_than t =
    let stale = is_stale (add_neg now older_than) in
    let n = length (keep_if stale t.deliveries) in
    let t' = record t { deliveries = update_where stale to_pending t.deliveries } in
    with_context ctx (t, err context_error)
      (with_database db (t, err database_failed) (if ltb 0 n then signal t' else t', ok n))

unfoldable pub backdate_claim_for_test : Db → String → Time → PgStore → PgStore × Result (Unit {0})
backdate_claim_for_test db id claimed_at t =
    let flying = λ (d : Delivery). str_eq d.id id && is_in_flight d.status in
    with_database db (t, err database_failed)
      (if exists_row flying t.deliveries
        then (
          record t {
            deliveries =
                update_where flying (λ d. record d { claimed_at = claimed_at }) t.deliveries;
          },
          ok tt,
        )
        else (t, err (not_in_flight id)))
