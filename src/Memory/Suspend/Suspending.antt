-- ===== src/Memory/Suspend/Suspending.antt =====
-- Suspending a subscriber in ExhaustAndSuspend of store/memory/memory.go: its pending rows are retained.
use sharathfold.Prelude.{
  ◌≤◌, String, true, false, List, map, Memᴰ, ◌≡◌, sym, ap, ◌∙◌, arith, ◌≢◌, ◌⊎◌, if◌then◌else◌,
  str_eq, eq_iff, not_true,
}
use sharathfold.Store.{Delivery, is_unfinished, is_in_flight, is_retained}
use sharathfold.Memory.State.{Store, meta_of}
use sharathfold.Memory.Rows.{meta_of-insert}
use sharathfold.Memory.Invariant.{
  Inv, Past, Same, Image, Image-all, Image-all_pairs, image_ids, image_sequences, image_bounded,
  is_open, suspended,
}
use sharathfold.Memory.Invariant.Steps.{map-Image}
use sharathfold.Memory.Suspend.{retain_row, set_suspended}

-- The store after the rows of `sub` are held back.
abbrev pub suspending : String → Store → Store
suspending sub s =
    let t = set_suspended sub true s in record t { by_id = map (retain_row sub) t.by_id }

retain_row-Same : (sub : String) (d : Delivery) → Same d (retain_row sub d)
retain_row-Same sub d = ground arith

retain_row-in_flight :
    (sub : String) (d : Delivery)
    → is_in_flight (retain_row sub d).status ≡ true
    → is_in_flight d.status ≡ true
retain_row-in_flight sub d h = ground arith

retain_row-unfinished :
    (sub : String) (d : Delivery)
    → is_unfinished (retain_row sub d).status ≡ true
    → (is_unfinished d.status ≡ true) × (is_in_flight d.status ≡ true ⊎ d.subscriber_id ≢ sub)
retain_row-unfinished sub d h = ground (arith, eq_iff d.subscriber_id sub)

retain_row-retained :
    (sub : String) (d : Delivery)
    → is_retained (retain_row sub d).status ≡ true
    → (is_retained d.status ≡ true) ⊎ (d.subscriber_id ≡ sub)
retain_row-retained sub d h = ground (arith, eq_iff d.subscriber_id sub)

retain_row-is_open :
    (sub : String) (d : Delivery)
    → is_open (retain_row sub d).status ≡ true
    → is_open d.status ≡ true
retain_row-is_open sub d h = ground arith

pub suspended-suspending :
    (sub x : String) (s : Store)
    → suspended (suspending sub s) x ≡ (if str_eq sub x then true else suspended s x)
suspended-suspending sub x s =
    ground (arith, meta_of-insert sub x (record (meta_of s.subs sub) { suspended = true }) s.subs)

module _ (sub : String) (s : Store) (v : Inv s)
    (idle : (d : Delivery)
      → Memᴰ d s.by_id
      → d.subscriber_id ≡ sub
      → is_in_flight d.status ≡ false) where
  abbrev t : Store
  t = suspending sub s

  i : Image (retain_row sub) s.by_id t.by_id
  i = map-Image (retain_row sub) s.by_id (retain_row-Same sub)

  suspending_head_first :
      (d e : Delivery)
      → Memᴰ d t.by_id
      → Memᴰ e t.by_id
      → d.subscriber_id ≡ e.subscriber_id
      → is_in_flight d.status ≡ true
      → is_unfinished e.status ≡ true
      → d.sequence ≤ e.sequence
  suspending_head_first =
      Image-all_pairs
        (λ d e.
          d.subscriber_id ≡ e.subscriber_id
          → is_in_flight d.status ≡ true
          → is_unfinished e.status ≡ true
          → d.sequence ≤ e.sequence)
        i
        λ d e m n h fl un.
          let sd = retain_row-Same sub d in
          let se = retain_row-Same sub e in
          rw (sd.sequence, se.sequence)
            (v.head_first d e m n (sym sd.subscriber_id ∙ h ∙ se.subscriber_id)
              (retain_row-in_flight sub d fl) (retain_row-unfinished sub e un).0)

  suspending_quiet :
      (d : Delivery)
      → Memᴰ d t.by_id
      → suspended t d.subscriber_id ≡ true
      → is_unfinished d.status ≡ false
  suspending_quiet =
      Image-all (λ d. suspended t d.subscriber_id ≡ true → is_unfinished d.status ≡ false) i
        λ d m h. not_true λ u.
          let (un, other) = retain_row-unfinished sub d u in
          let sd = (retain_row-Same sub d).subscriber_id in
          let k : suspended t d.subscriber_id ≡ true = ap (suspended t) (sym sd) ∙ h in
          ground (
            arith,
            suspended-suspending sub d.subscriber_id s,
            eq_iff sub d.subscriber_id,
            v.quiet d m,
            idle d m,
          )

  suspending_held :
      (d : Delivery)
      → Memᴰ d t.by_id
      → is_retained d.status ≡ true
      → suspended t d.subscriber_id ≡ true
  suspending_held =
      Image-all (λ d. is_retained d.status ≡ true → suspended t d.subscriber_id ≡ true) i
        λ d m h.
          ap (suspended t) (retain_row-Same sub d).subscriber_id
          ∙ ground (
            arith,
            suspended-suspending sub d.subscriber_id s,
            eq_iff sub d.subscriber_id,
            v.held d m,
            retain_row-retained sub d h,
          )

  pub suspending-Inv : Inv t
  suspending-Inv = record {
    hol_on = v.hol_on;
    gate_on = v.gate_on;
    ids = image_ids s t v i;
    sequences = image_sequences s t v i;
    bounded = image_bounded s t v i (λ x. omega arith);
    head_first = suspending_head_first;
    quiet = suspending_quiet;
    held = suspending_held;
  }

  pub suspending-Past : (h : List Delivery) → Past h s → Past h t
  suspending-Past h p = record {
    counted = p.counted;
    before = λ d e m n.
        Image-all
          (λ e.
            d.subscriber_id ≡ e.subscriber_id → is_open e.status ≡ true → d.sequence ≤ e.sequence)
          i
          (λ e n q o.
            let se = retain_row-Same sub e in
            rw se.sequence (p.before d e m n (q ∙ se.subscriber_id) (retain_row-is_open sub e o)))
          e n;
  }

-- The row in flight is the only one of its subscriber, so none is left when it is closed.
