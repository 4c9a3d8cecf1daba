-- ===== src/Postgres/Keeps/Enqueue.antt =====
-- Enqueue of store/postgres/postgres.go adds rows behind those of the same subscriber, or nothing.
use sharathfold.Prelude.{
  if_both, String, true, false, List, [], ◌∷◌, ◌≡◌, refl, sym, none, inl, inr, str_eq, Bool,
  Bool-cases, if◌then◌else◌,
}
use sharathfold.Store.{Delivery, Time, Context, live, done, Result, ok, err, database_failed}
use sharathfold.Memory.State.{find}
use sharathfold.Memory.Invariant.{Settle}
use sharathfold.Memory.Invariant.Steps.{subset-Settle, Drops-Settle, signal-Settle}
use sharathfold.Memory.Enqueue.{insert_row as memory_insert_row}
use sharathfold.Memory.Enqueue.Row.{insert_row-Inv, insert_row-Past, suspended-insert_row}
use sharathfold.Postgres.State.{PgStore, Db, view, exists_row}
use sharathfold.Postgres.Retention.{apply_retention}
use sharathfold.Postgres.Enqueue.{
  stored_row, insert_row, conflicts, enqueue_rows, retain_touched, commit_enqueue, enqueue,
}
use sharathfold.Postgres.Keeps.Rows.{conflicts-fresh, Kept, Kept-Settle}
use sharathfold.Postgres.Keeps.Retention.{apply_retention-Drops}

-- The two inserts do what the memory store does, which also notes that it saw the subscriber.
insert_row-Settle :
    (now : Time) (d : Delivery) (t : PgStore)
    → Settle (memory_insert_row now d (view t)) (view (insert_row now d t))
unfolding memory_insert_row insert_row
insert_row-Settle now d t =
    subset-Settle (memory_insert_row now d (view t)) (view (insert_row now d t)) (λ e m. m)
      (λ x. sym (suspended-insert_row now d (view t) x)) (λ x. refl) refl refl

row_fresh :
    (now : Time) (d : Delivery) (t : PgStore)
    → exists_row (conflicts (stored_row t now d)) t.deliveries ≡ false
    → find d.id t.deliveries ≡ none
unfolding stored_row
row_fresh now d t h = conflicts-fresh (stored_row t now d) t.deliveries h

-- What holds of the tables that the rounds leave in the transaction.
abbrev KeptBy {ℓ} : {A : Type ℓ} → List Delivery → Result (PgStore × A) → Type 0
KeptBy h (err e) = Unit
KeptBy h (ok (t, a)) = Kept h (view t)

insert_row-Kept :
    (now : Time) (d : Delivery) (t : PgStore) (h : List Delivery)
    → exists_row (conflicts (stored_row t now d)) t.deliveries ≡ false
    → Kept h (view t)
    → Kept h (view (insert_row now d t))
insert_row-Kept now d t h free (v, p) =
    let fresh = row_fresh now d t free in
    Kept-Settle h (memory_insert_row now d (view t)) (view (insert_row now d t))
      (insert_row-Inv now d (view t) v fresh, insert_row-Past now d (view t) v fresh h p)
      (insert_row-Settle now d t)

enqueue_rows-KeptBy :
    (now : Time) (ds : List Delivery) (touched : List String) (t : PgStore) (h : List Delivery)
    → Kept h (view t)
    → KeptBy h (enqueue_rows now ds touched t)
unfolding enqueue_rows
enqueue_rows-KeptBy now [] touched t h k = k
enqueue_rows-KeptBy now (d ∷ ds) touched t h k = elim (Bool-cases (str_eq d.id "")) [
  | inl a ↦ rw a tt
  | inr a ↦ elim (Bool-cases (str_eq d.subscriber_id "")) [
    | inl b ↦ rw (a, b) tt
    | inr b ↦ elim (Bool-cases (exists_row (conflicts (stored_row t now d)) t.deliveries)) [
      | inl c ↦ rw (a, b, c) tt
      | inr c ↦
          rw (a, b, c)
            (enqueue_rows-KeptBy now ds _ (insert_row now d t) h (insert_row-Kept now d t h c k))
    ]
  ]
]

retain_touched-Kept :
    (now : Time) (touched : List String) (t : PgStore) (h : List Delivery)
    → Kept h (view t)
    → Kept h (view (retain_touched now touched t))
unfolding retain_touched
retain_touched-Kept now [] t h k = k
retain_touched-Kept now (sub ∷ touched) t h k =
    let u = apply_retention sub now t in
    retain_touched-Kept now touched u h (
      Kept-Settle h (view t) (view u) k
        (Drops-Settle (view t) (view u) (apply_retention-Drops sub now t k.0)))

commit_enqueue-Kept :
    (db : Db) (now : Time) (t : PgStore) (r : Result (PgStore × List String)) (h : List Delivery)
    → Kept h (view t)
    → KeptBy h r
    → Kept h (view (commit_enqueue db now t r).0)
commit_enqueue-Kept db now t (err e) h k j = k
commit_enqueue-Kept db now t (ok (u, touched)) h k j =
    let s = view (retain_touched now touched u) in
    let same = retain_touched-Kept now touched u h j in
    if_both (λ (x : PgStore × Result (Unit {0})). Kept h (view x.0)) db.loses_answer _ _ same
      (Kept-Settle h s _ same (signal-Settle s))

-- What is not empty, in a transaction that may fail.
begun-Kept :
    (db : Db) (b : Bool) (now : Time) (t : PgStore) (r : Result (PgStore × List String))
    (h : List Delivery)
    → Kept h (view t)
    → KeptBy h r
    → Kept h (view (if b then (t, err database_failed) else commit_enqueue db now t r).0)
begun-Kept db true now t r h k j = k
begun-Kept db false now t r h k j = commit_enqueue-Kept db now t r h k j

pub enqueue-Kept :
    (db : Db) (ctx : Context) (now : Time) (ds : List Delivery) (t : PgStore) (h : List Delivery)
    → Kept h (view t)
    → Kept h (view (enqueue db ctx now ds t).0)
unfolding enqueue
enqueue-Kept db done now ds t h k = k
enqueue-Kept db live now [] t h k = k
enqueue-Kept db live now (d ∷ ds) t h k =
    begun-Kept db db.fails now t (enqueue_rows now (d ∷ ds) [] t) h k
      (enqueue_rows-KeptBy now (d ∷ ds) [] t h k)
