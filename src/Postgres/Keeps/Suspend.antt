-- ===== src/Postgres/Keeps/Suspend.antt =====
-- ExhaustAndSuspend and Resume of store/postgres/postgres.go keep the order of deliveries.
use sharathfold.Prelude.{
  ℕ, String, Bool, true, false, List, Memᴰ, ◌≡◌, refl, ap, ◌∙◌, inl, inr, Option, none, some, ◌==◌,
  str_eq, Bool-cases, not_true, true-false, lookup, map,
}
use sharathfold.Store.{Delivery, Status, Time, Context, live, done, is_in_flight}
use sharathfold.Memory.State.{SubMeta}
use sharathfold.Memory.Invariant.{Inv, Image-all, in_flight_only, Settle}
use sharathfold.Memory.Invariant.Steps.{Drops-Settle, signal-Settle, map-Image}
use sharathfold.Memory.Marks.{close_row}
use sharathfold.Memory.Marks.Keeps.{close_row-Same, close_row-Settles}
use sharathfold.Memory.Suspend.{release_rows as memory_release_rows, retain_row}
use sharathfold.Memory.Suspend.Suspending.{suspending-Inv, suspending-Past}
use sharathfold.Memory.Suspend.Resumes.{release-Inv, release-Past}
use sharathfold.Postgres.State.{PgStore, Db, view, find_row}
use sharathfold.Postgres.Marks.{update_where, is_claimed}
use sharathfold.Postgres.Retention.{apply_retention}
use sharathfold.Postgres.Suspend.{
  suspend, suspend_rows, exhaust_row, exhaust_and_suspend, release_rows, resume_found, resume,
}
use sharathfold.Postgres.Keeps.Rows.{
  mem-find_row, written, written-Same, update_where-Settle, Kept, Kept-Settle,
}
use sharathfold.Postgres.Keeps.Marks.{is_claimed-in_flight}
use sharathfold.Postgres.Keeps.Retention.{apply_retention-Drops}

module _ (id owner : String) (generation : ℕ) (err_msg : String) (t : PgStore) where
  abbrev close : Delivery → Delivery
  close = close_row Status.dead_lettered err_msg

  -- The tables after the first statement.
  abbrev closed : PgStore
  closed = record t {
    deliveries = update_where (is_claimed t id owner generation) close t.deliveries;
  }

  closed-Settle : Settle (view t) (view closed)
  closed-Settle =
      update_where-Settle (is_claimed t id owner generation) close (view t) (view closed) refl refl
        refl refl refl (close_row-Same Status.dead_lettered err_msg)
        (λ d _. close_row-Settles Status.dead_lettered err_msg d refl)

  -- A row in flight of the subscriber is the row that was closed.
  closed_idle :
      (d : Delivery)
      → Inv (view t)
      → Memᴰ d t.deliveries
      → is_claimed t id owner generation d ≡ true
      → (e : Delivery) → Memᴰ e closed.deliveries
      → e.subscriber_id ≡ d.subscriber_id
      → is_in_flight e.status ≡ false
  unfolding update_where
  closed_idle d v m mine =
      Image-all (λ e. e.subscriber_id ≡ d.subscriber_id → is_in_flight e.status ≡ false)
        (map-Image (written claimed close) t.deliveries
          (written-Same claimed close (close_row-Same Status.dead_lettered err_msg)))
        λ x n. elim (Bool-cases (claimed x)) [
          | inl k ↦ rw k (λ _. refl)
          | inr k ↦ rw k λ h. not_true λ fl.
              let same : x ≡ d = v.ids x d n m (
                in_flight_only x d v n m h fl
                  (is_claimed-in_flight t id owner generation d mine)) in
              true-false (ap claimed same ∙ mine) k
        ]
    where
      claimed : Delivery → Bool
      claimed = is_claimed t id owner generation

  suspend_rows-Kept :
      (now : Time) (d : Delivery) (h : List Delivery)
      → Memᴰ d t.deliveries
      → is_claimed t id owner generation d ≡ true
      → Kept h (view t)
      → Kept h (view (suspend_rows d.subscriber_id now closed))
  unfolding suspend_rows
  suspend_rows-Kept now d h m mine k =
      let sub = d.subscriber_id in
      let (v, p) = Kept-Settle h (view t) (view closed) k closed-Settle in
      let idle = closed_idle d k.0 m mine in
      let w = suspending-Inv sub (view closed) v idle in
      let u : PgStore = record (suspend sub closed) {
        deliveries = map (retain_row sub) closed.deliveries;
      } in
      Kept-Settle h (view u) _ (w, suspending-Past sub (view closed) v idle h p)
        (Drops-Settle (view u) _ (apply_retention-Drops sub now u w))

  exhaust_row-Kept :
      (now : Time) (h : List Delivery) (o : Option Delivery)
      → find_row (is_claimed t id owner generation) t.deliveries ≡ o
      → Kept h (view t)
      → Kept h (view (exhaust_row id now t closed o).0)
  exhaust_row-Kept now h none e k = k
  exhaust_row-Kept now h (some d) e k =
      let (m, mine) = mem-find_row (is_claimed t id owner generation) t.deliveries e in
      let s = view (suspend_rows d.subscriber_id now closed) in
      Kept-Settle h s _ (suspend_rows-Kept now d h m mine k) (signal-Settle s)

pub exhaust_and_suspend-Kept :
    (db : Db) (ctx : Context) (now : Time) (id owner : String) (generation : ℕ) (err_msg : String)
    (t : PgStore) (h : List Delivery)
    → Kept h (view t)
    → Kept h (view (exhaust_and_suspend db ctx now id owner generation err_msg t).0)
unfolding exhaust_and_suspend
exhaust_and_suspend-Kept db done now id owner generation err_msg t h k = k
exhaust_and_suspend-Kept db live now id owner generation err_msg t h k =
    elim (Bool-cases (generation == 0)) [
      | inl a ↦ rw a k
      | inr a ↦ elim (Bool-cases db.fails) [
        | inl b ↦ rw (a, b) k
        | inr b ↦ rw (a, b) (exhaust_row-Kept id owner generation err_msg t now h _ refl k)
      ]
    ]

resume_found-Kept :
    (sub : String) (now : Time) (t : PgStore) (o : Option SubMeta) (h : List Delivery)
    → Kept h (view t)
    → Kept h (view (resume_found sub now t o).0)
unfolding release_rows memory_release_rows
resume_found-Kept sub now t none h k = k
resume_found-Kept sub now t (some m) h (v, p) =
    let s = memory_release_rows sub now (view t) in
    Kept-Settle h s _ (release-Inv sub now (view t) v, release-Past sub now (view t) v h p)
      (signal-Settle s)

pub resume-Kept :
    (db : Db) (ctx : Context) (now : Time) (sub : String) (t : PgStore) (h : List Delivery)
    → Kept h (view t)
    → Kept h (view (resume db ctx now sub t).0)
unfolding resume
resume-Kept db done now sub t h k = k
resume-Kept db live now sub t h k = elim (Bool-cases (str_eq sub "")) [
  | inl a ↦ rw a k
  | inr a ↦ elim (Bool-cases db.fails) [
    | inl b ↦ rw (a, b) k
    | inr b ↦
        let u = apply_retention sub now t in
        rw (a, b)
          (resume_found-Kept sub now u (lookup sub u.subscribers) h (
            Kept-Settle h (view t) (view u) k
              (Drops-Settle (view t) (view u) (apply_retention-Drops sub now t k.0))))
  ]
]
