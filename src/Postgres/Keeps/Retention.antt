-- ===== src/Postgres/Keeps/Retention.antt =====
-- applyRetentionTx of store/postgres/postgres.go only drops rows, where only suspended subscribers have
-- rows that are held.
use sharathfold.Prelude.{
  ℕ, String, true, ◌&&◌, List, [], ◌∷◌, Memᴰ, ◌≡◌, refl, sym, ap, ◌∙◌, arith, inl, inr, Option,
  none, some, eq_iff, Bool-cases, ltb, length, lookup, mem-keep_if, mem-sort_by,
}
use sharathfold.Store.{Delivery, Time, before, add_neg, is_retained}
use sharathfold.Memory.State.{SubMeta, meta_of, or_new}
use sharathfold.Memory.Rows.{mem-delete}
use sharathfold.Memory.Invariant.{Inv, suspended}
use sharathfold.Memory.Invariant.Steps.{Drops, Drops-refl, Drops-trans}
use sharathfold.Memory.Retention.Drops.{insert-suspended}
use sharathfold.Memory.Retention.{is_held, by_sequence}
use sharathfold.Postgres.State.{PgStore, view, retention_count, retention_age}
use sharathfold.Postgres.Retention.{
  with_gap, drop_retained, drop_all, drop_excess, aged_rows, held_rows, apply_retention,
}

-- The gap is recorded on a subscriber that is suspended, so its record stays so.
with_gap-suspended :
    (o : Option SubMeta) → (or_new o).suspended ≡ true → (with_gap o).suspended ≡ true
with_gap-suspended none h = refl
with_gap-suspended (some m) h = h

drop_retained-suspended :
    (sub reason : String) (d : Delivery) (t : PgStore) (x : String)
    → suspended (view t) sub ≡ true
    → suspended (view (drop_retained sub reason d t)) x ≡ suspended (view t) x
unfolding drop_retained meta_of
drop_retained-suspended sub reason d t x h =
    insert-suspended sub x _ (view t) (with_gap-suspended (lookup sub t.subscribers) h ∙ sym h)

drop_retained-Drops :
    (sub reason : String) (d : Delivery) (t : PgStore)
    → suspended (view t) sub ≡ true
    → Drops (view t) (view (drop_retained sub reason d t))
unfolding drop_retained
drop_retained-Drops sub reason d t h = record {
  rows = λ e m. mem-delete d.id t.deliveries m;
  suspension = λ x. drop_retained-suspended sub reason d t x h;
  counters = λ x. refl;
  hol = refl;
  gate = refl;
}

-- The subscriber is suspended, if there is a row to drop.
abbrev Asleep : String → List Delivery → PgStore → Type 0
Asleep sub ds t = (d : Delivery) → Memᴰ d ds → suspended (view t) sub ≡ true

Asleep-drop_retained :
    (sub reason : String) (d : Delivery) (ds : List Delivery) (t : PgStore)
    → Asleep sub (d ∷ ds) t
    → Asleep sub ds (drop_retained sub reason d t)
Asleep-drop_retained sub reason d ds t h e m =
    drop_retained-suspended sub reason d t sub (h d (Memᴰ.head refl)) ∙ h e (Memᴰ.tail m)

drop_all-Drops :
    (sub reason : String) (ds : List Delivery) (t : PgStore)
    → Asleep sub ds t
    → Drops (view t) (view (drop_all sub reason ds t))
unfolding drop_all
drop_all-Drops sub reason [] t h = Drops-refl (view t)
drop_all-Drops sub reason (d ∷ ds) t h =
    Drops-trans (drop_retained-Drops sub reason d t (h d (Memᴰ.head refl))) (
      drop_all-Drops sub reason ds (drop_retained sub reason d t)
        (Asleep-drop_retained sub reason d ds t h))

drop_excess-Drops :
    (sub : String) (max_count : ℕ) (ds : List Delivery) (t : PgStore)
    → Asleep sub ds t
    → Drops (view t) (view (drop_excess sub max_count ds t))
unfolding drop_excess
drop_excess-Drops sub max_count [] t h = Drops-refl (view t)
drop_excess-Drops sub max_count (d ∷ ds) t h = elim (Bool-cases (ltb max_count (length (d ∷ ds)))) [
  | inl k ↦ rw k (
      Drops-trans (drop_retained-Drops sub "count" d t (h d (Memᴰ.head refl))) (
        drop_excess-Drops sub max_count ds (drop_retained sub "count" d t)
          (Asleep-drop_retained sub "count" d ds t h)))
  | inr k ↦ rw k (Drops-refl (view t))
]

-- A held row's subscriber is suspended.
held-asleep :
    (sub : String) (t : PgStore) (d : Delivery)
    → Inv (view t)
    → Memᴰ d t.deliveries
    → is_held sub d ≡ true
    → suspended (view t) sub ≡ true
held-asleep sub t d v m h =
    let mine : d.subscriber_id ≡ sub = ground (arith, eq_iff d.subscriber_id sub) in
    let held : is_retained d.status ≡ true = ground arith in
    ap (suspended (view t)) (sym mine) ∙ v.held d m held

aged-Asleep :
    (sub : String) (cutoff : Time) (t : PgStore)
    → Inv (view t)
    → Asleep sub (aged_rows sub cutoff t.deliveries) t
unfolding aged_rows
aged-Asleep sub cutoff t v d m =
    let (n, h) =
      mem-keep_if (λ d. is_held sub d && before d.created_at cutoff) t.deliveries
        (mem-sort_by by_sequence _ m) in
    held-asleep sub t d v n (ground arith)

-- Dropped rows aside, those that are held were held, and their subscriber is still suspended.
held_rows-Asleep :
    (sub : String) (t u : PgStore)
    → Inv (view t)
    → Drops (view t) (view u)
    → Asleep sub (held_rows sub u.deliveries) u
unfolding held_rows
held_rows-Asleep sub t u v drops d m =
    let (n, h) = mem-keep_if (is_held sub) u.deliveries (mem-sort_by by_sequence _ m) in
    drops.suspension sub ∙ held-asleep sub t d v (drops.rows d n) h

pub apply_retention-Drops :
    (sub : String) (now : Time) (t : PgStore)
    → Inv (view t)
    → Drops (view t) (view (apply_retention sub now t))
unfolding apply_retention
apply_retention-Drops sub now t v =
    let cutoff = add_neg now (retention_age t) in
    let first =
      drop_all-Drops sub "age" (aged_rows sub cutoff t.deliveries) t (aged-Asleep sub cutoff t v) in
    let u = drop_all sub "age" (aged_rows sub cutoff t.deliveries) t in
    Drops-trans first (
      drop_excess-Drops sub (retention_count t) (held_rows sub u.deliveries) u
        (held_rows-Asleep sub t u v first))
