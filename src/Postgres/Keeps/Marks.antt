-- ===== src/Postgres/Keeps/Marks.antt =====
-- The marks and RecoverStale of store/postgres/postgres.go settle rows.
use sharathfold.Prelude.{
  ℕ, String, true, false, ◌≡◌, refl, arith, inl, inr, ltb, ◌==◌, Bool-cases, ℤ, length, keep_if,
}
use sharathfold.Store.{Delivery, Status, Time, Context, live, done, is_in_flight, add_neg}
use sharathfold.Memory.State.{Store}
use sharathfold.Memory.Invariant.{Same, Settles, Settle, is_open}
use sharathfold.Memory.Invariant.Steps.{Settle-refl}
use sharathfold.Memory.Marks.{close_row, retry_row}
use sharathfold.Memory.Marks.Keeps.{close_row-Same, close_row-Settles, retry_row-Settles}
use sharathfold.Postgres.State.{PgStore, Db, exists_row, view}
use sharathfold.Postgres.Marks.{
  is_claimed, mark, mark_terminal, mark_failed, is_stale, to_pending, recover_stale, update_where,
}
use sharathfold.Postgres.Keeps.Rows.{update_where-Settle}

pub is_claimed-in_flight :
    (t : PgStore) (id owner : String) (generation : ℕ) (d : Delivery)
    → is_claimed t id owner generation d ≡ true
    → is_in_flight d.status ≡ true
is_claimed-in_flight t id owner generation d h = ground arith

-- A mark settles, if what it writes settles a row in flight.
pub mark-Settle :
    (db : Db) (ctx : Context) (id owner : String) (generation : ℕ) (f : Delivery → Delivery)
    (t : PgStore)
    → ((d : Delivery) → Same d (f d))
    → ((d : Delivery) → is_in_flight d.status ≡ true → Settles d (f d))
    → Settle (view t) (view (mark db ctx id owner generation f t).0)
unfolding mark
mark-Settle db done id owner generation f t same settles = Settle-refl (view t)
mark-Settle db live id owner generation f t same settles = elim (Bool-cases (generation == 0)) [
  | inl k ↦ rw k (Settle-refl (view t))
  | inr k ↦ rw k (elim (Bool-cases db.fails) [
    | inl l ↦ rw l (Settle-refl (view t))
    | inr l ↦ rw l (elim (Bool-cases (exists_row (is_claimed t id owner generation) t.deliveries)) [
      | inr j ↦ rw j (Settle-refl (view t))
      | inl j ↦ rw j (
          update_where-Settle (is_claimed t id owner generation) f (view t) _ refl refl refl refl
            refl same (λ d h. settles d (is_claimed-in_flight t id owner generation d h)))
    ])
  ])
]

pub mark_terminal-Settle :
    (db : Db) (ctx : Context) (id owner : String) (generation : ℕ) (status : Status)
    (err_msg : String) (t : PgStore)
    → is_open status ≡ false
    → Settle (view t) (view (mark_terminal db ctx id owner generation status err_msg t).0)
unfolding mark_terminal
mark_terminal-Settle db ctx id owner generation status err_msg t h =
    mark-Settle db ctx id owner generation (close_row status err_msg) t
      (close_row-Same status err_msg) (λ d _. close_row-Settles status err_msg d h)

pub mark_failed-Settle :
    (db : Db) (ctx : Context) (id owner : String) (generation attempt : ℕ) (next : Time)
    (err_msg : String) (t : PgStore)
    → Settle (view t) (view (mark_failed db ctx id owner generation attempt next err_msg t).0)
unfolding mark_failed
mark_failed-Settle db ctx id owner generation attempt next err_msg t =
    mark-Settle db ctx id owner generation (retry_row attempt next err_msg) t
      (λ d. record { id = refl; subscriber_id = refl; sequence = refl })
      (retry_row-Settles attempt next err_msg)

pub to_pending-Same : (d : Delivery) → Same d (to_pending d)
to_pending-Same d = record { id = refl; subscriber_id = refl; sequence = refl }

pub to_pending-Settles : (d : Delivery) → is_in_flight d.status ≡ true → Settles d (to_pending d)
to_pending-Settles d h = ground arith

stale-in_flight :
    (cutoff : Time) (d : Delivery) → is_stale cutoff d ≡ true → is_in_flight d.status ≡ true
stale-in_flight cutoff d h = ground arith

-- RecoverStale's update settles, with or without the signal.
reset-Settle :
    (cutoff : Time) (s t : Store)
    → t.by_id ≡ update_where (is_stale cutoff) to_pending s.by_id
    → t.subs ≡ s.subs
    → t.seq ≡ s.seq
    → t.disable_hol ≡ s.disable_hol
    → t.skip_suspend_gate ≡ s.skip_suspend_gate
    → Settle s t
reset-Settle cutoff s t rows subs seq hol gate =
    update_where-Settle (is_stale cutoff) to_pending s t rows subs seq hol gate to_pending-Same
      (λ d h. to_pending-Settles d (stale-in_flight cutoff d h))

pub recover_stale-Settle :
    (db : Db) (ctx : Context) (now : Time) (older_than : ℤ) (t : PgStore)
    → Settle (view t) (view (recover_stale db ctx now older_than t).0)
unfolding recover_stale
recover_stale-Settle db done now older_than t = Settle-refl (view t)
recover_stale-Settle db live now older_than t = elim (Bool-cases db.fails) [
  | inl l ↦ rw l (Settle-refl (view t))
  | inr l ↦
      rw l
        (elim (Bool-cases
          (ltb 0 (length (keep_if (is_stale (add_neg now older_than)) t.deliveries)))) [
            | inl k ↦
                rw k (reset-Settle (add_neg now older_than) (view t) _ refl refl refl refl refl)
            | inr k ↦
                rw k (reset-Settle (add_neg now older_than) (view t) _ refl refl refl refl refl)
          ])
]
