-- ===== src/Memory/Suspend/Resumes.antt =====
-- Resume of store/memory/memory.go keeps the order of deliveries.
use sharathfold.Prelude.{
  ◌≤◌, String, true, false, List, Memᴰ, ◌≡◌, sym, ap, ◌∙◌, arith, ◌≢◌, ◌⊎◌, inl, inr, if◌then◌else◌,
  str_eq, eq_iff, Bool-cases, not_true, true-false,
}
use sharathfold.Store.{
  Delivery, Status, Time, Context, live, done, is_unfinished, is_in_flight, is_retained,
}
use sharathfold.Memory.State.{Store, signal}
use sharathfold.Memory.Rows.{meta_of-insert}
use sharathfold.Memory.Invariant.{
  Inv, Past, Same, Image, Image-all, Image-all_pairs, image_ids, image_sequences, image_bounded,
  is_open, suspended, Settle-Inv, Settle-Past,
}
use sharathfold.Memory.Invariant.Steps.{map-Image, Drops-Settle, signal-Settle}
use sharathfold.Memory.Retention.{apply_retention}
use sharathfold.Memory.Retention.Drops.{apply_retention-Drops}
use sharathfold.Memory.Suspend.{release_row, release_rows, resume}

release_row-Same : (sub : String) (now : Time) (d : Delivery) → Same d (release_row sub now d)
release_row-Same sub now d = ground arith

release_row-in_flight :
    (sub : String) (now : Time) (d : Delivery)
    → is_in_flight (release_row sub now d).status ≡ true
    → is_in_flight d.status ≡ true
release_row-in_flight sub now d h = ground arith

-- What Resume makes unfinished was held back.
release_row-unfinished :
    (sub : String) (now : Time) (d : Delivery)
    → is_unfinished (release_row sub now d).status ≡ true
    → (is_unfinished d.status ≡ true) ⊎ ((is_retained d.status ≡ true) × (d.subscriber_id ≡ sub))
release_row-unfinished sub now d h = ground (arith, eq_iff d.subscriber_id sub)

release_row-retained :
    (sub : String) (now : Time) (d : Delivery)
    → is_retained (release_row sub now d).status ≡ true
    → (is_retained d.status ≡ true) × (d.subscriber_id ≢ sub)
release_row-retained sub now d h = ground (arith, eq_iff d.subscriber_id sub)

release_row-is_open :
    (sub : String) (now : Time) (d : Delivery)
    → is_open (release_row sub now d).status ≡ true
    → is_open d.status ≡ true
release_row-is_open sub now d h = ground arith

in_flight-unfinished : (st : Status) → is_in_flight st ≡ true → is_unfinished st ≡ true
in_flight-unfinished st h = ground arith

suspended-release_rows :
    (sub : String) (now : Time) (x : String) (s : Store)
    → suspended (release_rows sub now s) x ≡ (if str_eq sub x then false else suspended s x)
unfolding release_rows
suspended-release_rows sub now x s = ground (
  arith,
  meta_of-insert sub x (record { suspended = false; gap = false; dropped = 0; marker = "" }) s.subs,
)

module _ (sub : String) (now : Time) (s : Store) (v : Inv s) where
  abbrev t : Store
  t = release_rows sub now s

  i : Image (release_row sub now) s.by_id t.by_id
  unfolding release_rows
  i = map-Image (release_row sub now) s.by_id (release_row-Same sub now)

  -- A subscriber with a row in flight has none held back.
  flight_not_held :
      (d e : Delivery)
      → Memᴰ d s.by_id
      → Memᴰ e s.by_id
      → d.subscriber_id ≡ e.subscriber_id
      → is_in_flight d.status ≡ true
      → is_retained e.status ≡ true
      → ⊥
  flight_not_held d e m n h fl r =
      true-false (in_flight-unfinished d.status fl)
        (v.quiet d m (ap (suspended s) h ∙ v.held e n r))

  release_head_first :
      (d e : Delivery)
      → Memᴰ d t.by_id
      → Memᴰ e t.by_id
      → d.subscriber_id ≡ e.subscriber_id
      → is_in_flight d.status ≡ true
      → is_unfinished e.status ≡ true
      → d.sequence ≤ e.sequence
  release_head_first =
      Image-all_pairs
        (λ d e.
          d.subscriber_id ≡ e.subscriber_id
          → is_in_flight d.status ≡ true
          → is_unfinished e.status ≡ true
          → d.sequence ≤ e.sequence)
        i
        λ d e m n h fl un.
          let sd = release_row-Same sub now d in
          let se = release_row-Same sub now e in
          let fl' = release_row-in_flight sub now d fl in
          let h' = sym sd.subscriber_id ∙ h ∙ se.subscriber_id in
          rw (sd.sequence, se.sequence)
            (elim (release_row-unfinished sub now e un) [
              | inl u ↦ v.head_first d e m n h' fl' u
              | inr r ↦ absurd (flight_not_held d e m n h' fl' r.0)
            ])

  release_quiet :
      (d : Delivery)
      → Memᴰ d t.by_id
      → suspended t d.subscriber_id ≡ true
      → is_unfinished d.status ≡ false
  release_quiet =
      Image-all (λ d. suspended t d.subscriber_id ≡ true → is_unfinished d.status ≡ false) i
        λ d m h. not_true λ u.
          let sd = (release_row-Same sub now d).subscriber_id in
          let k : suspended t d.subscriber_id ≡ true = ap (suspended t) (sym sd) ∙ h in
          ground (
            arith,
            suspended-release_rows sub now d.subscriber_id s,
            eq_iff sub d.subscriber_id,
            v.quiet d m,
            release_row-unfinished sub now d u,
          )

  release_held :
      (d : Delivery)
      → Memᴰ d t.by_id
      → is_retained d.status ≡ true
      → suspended t d.subscriber_id ≡ true
  release_held =
      Image-all (λ d. is_retained d.status ≡ true → suspended t d.subscriber_id ≡ true) i
        λ d m h.
          ap (suspended t) (release_row-Same sub now d).subscriber_id
          ∙ ground (
            arith,
            suspended-release_rows sub now d.subscriber_id s,
            eq_iff sub d.subscriber_id,
            v.held d m,
            release_row-retained sub now d h,
          )

  pub release-Inv : Inv t
  unfolding release_rows
  release-Inv = record {
    hol_on = v.hol_on;
    gate_on = v.gate_on;
    ids = image_ids s t v i;
    sequences = image_sequences s t v i;
    bounded = image_bounded s t v i (λ x. omega arith);
    head_first = release_head_first;
    quiet = release_quiet;
    held = release_held;
  }

  pub release-Past : (h : List Delivery) → Past h s → Past h t
  unfolding release_rows
  release-Past h p = record {
    counted = p.counted;
    before = λ d e m n.
        Image-all
          (λ e.
            d.subscriber_id ≡ e.subscriber_id → is_open e.status ≡ true → d.sequence ≤ e.sequence)
          i
          (λ e n q o.
            let se = release_row-Same sub now e in
            rw se.sequence
              (p.before d e m n (q ∙ se.subscriber_id) (release_row-is_open sub now e o)))
          e n;
  }

-- Resume keeps the invariant, and puts nothing before what was claimed.
pub resume-Inv :
    (ctx : Context) (now : Time) (sub : String) (s : Store) (h : List Delivery)
    → Inv s
    → Past h s
    → let t = (resume ctx now sub s).0 in Inv t × Past h t
unfolding resume
resume-Inv done now sub s h v p = (v, p)
resume-Inv live now sub s h v p = elim (Bool-cases (str_eq sub "")) [
  | inl k ↦ rw k (v, p)
  | inr k ↦ rw k (
      let s' = apply_retention sub now s in
      let drops = Drops-Settle s s' (apply_retention-Drops sub now s) in
      let v' = Settle-Inv s s' v drops in
      let t = release_rows sub now s' in
      (
        Settle-Inv t (signal t) (release-Inv sub now s' v') (signal-Settle t),
        Settle-Past h t (signal t) (release-Past sub now s' v' h (Settle-Past h s s' p drops))
            (signal-Settle t),
      ))
]
