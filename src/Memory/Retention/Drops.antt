-- ===== src/Memory/Retention/Drops.antt =====
-- applyRetentionLocked of store/memory/memory.go only drops rows: no suspension is lifted and no
-- counter moves.
use sharathfold.Prelude.{
  ℕ, String, ◌&&◌, List, [], ◌∷◌, ◌≡◌, refl, ap, ◌∙◌, inl, inr, ltb, length, str_eq, str_eq→eq,
  Bool-cases, insert,
}
use sharathfold.Store.{Delivery, Time, add_neg}
use sharathfold.Memory.State.{Store, SubMeta, meta_of, retention_count, retention_age}
use sharathfold.Memory.Rows.{mem-delete, meta_of-insert}
use sharathfold.Memory.Invariant.{suspended}
use sharathfold.Memory.Invariant.Steps.{Drops, Drops-refl, Drops-trans}
use sharathfold.Memory.Retention.{
  drop_retained, is_held, is_aged, drop_aged, drop_excess, apply_retention,
}

-- A new record of the subscriber that agrees on the suspension.
pub insert-suspended :
    (sub x : String) (m : SubMeta) (s : Store)
    → m.suspended ≡ suspended s sub
    → (meta_of (insert sub m s.subs) x).suspended ≡ suspended s x
insert-suspended sub x m s h = elim (Bool-cases (str_eq sub x)) [
  | inl k ↦ rw (meta_of-insert sub x m s.subs, k) (h ∙ ap (suspended s) (str_eq→eq sub x k))
  | inr k ↦ rw (meta_of-insert sub x m s.subs, k)
]

drop_retained-Drops :
    (d : Delivery) (reason : String) (s : Store) → Drops s (drop_retained d reason s)
unfolding drop_retained
drop_retained-Drops d reason s = record {
  rows = λ e m. mem-delete d.id s.by_id m;
  suspension = λ x. insert-suspended d.subscriber_id x _ s refl;
  counters = λ x. refl;
  hol = refl;
  gate = refl;
}

pub drop_aged-Drops :
    (sub : String) (cutoff : Time) (ds : List Delivery) (s : Store)
    → Drops s (drop_aged sub cutoff ds s).0
unfolding drop_aged
drop_aged-Drops sub cutoff [] s = Drops-refl s
drop_aged-Drops sub cutoff (d ∷ ds) s = elim (Bool-cases (is_held sub d && is_aged cutoff d)) [
  | inl k ↦ rw k (
      Drops-trans (drop_retained-Drops d "age" s)
        (drop_aged-Drops sub cutoff ds (drop_retained d "age" s)))
  | inr k ↦ rw k (drop_aged-Drops sub cutoff ds s)
]

pub drop_excess-Drops :
    (max_count : ℕ) (ds : List Delivery) (s : Store) → Drops s (drop_excess max_count ds s)
unfolding drop_excess
drop_excess-Drops max_count [] s = Drops-refl s
drop_excess-Drops max_count (d ∷ ds) s = elim (Bool-cases (ltb max_count (length (d ∷ ds)))) [
  | inl k ↦ rw k (
      Drops-trans (drop_retained-Drops d "count" s)
        (drop_excess-Drops max_count ds (drop_retained d "count" s)))
  | inr k ↦ rw k (Drops-refl s)
]

pub apply_retention-Drops :
    (sub : String) (now : Time) (s : Store) → Drops s (apply_retention sub now s)
unfolding apply_retention
apply_retention-Drops sub now s =
    Drops-trans (drop_aged-Drops sub (add_neg now (retention_age s)) s.by_id s)
      (drop_excess-Drops (retention_count s) _ _)
