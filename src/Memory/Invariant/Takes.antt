-- ===== src/Memory/Invariant/Takes.antt =====
-- The steps that take rows up: each row taken is the first unfinished one of a subscriber that is not
-- suspended. They keep the invariant, and the order with all that was taken before.
use mathlib.Core.List.Memᴰ
use mathlib.Core.List.{append-nil}
use sharathfold.Prelude.{
  ◌≤◌, String, true, false, List, [], ◌++◌, Memᴰ, ◌≡◌, sym, ap, ◌∙◌, subst, arith, ◌⊎◌, inl, inr,
  true-false, not_true,
}
use sharathfold.Store.{Delivery, Status, is_pending, is_unfinished, is_in_flight, is_retained}
use sharathfold.Memory.State.{Store, seq_of}
use sharathfold.Memory.Invariant.{
  Inv, Past, Same, Image, Image-all, Image-all_pairs, Settle, Settle-Inv, Settle-Past, image_ids,
  image_sequences, image_bounded, is_open, is_open-cases, is_open_of, suspended,
}

-- Each returned row is not later than what was open of its subscriber.
abbrev pub Heads : Store → List Delivery → Type 0
Heads s out =
    (o e : Delivery)
    → Memᴰ o out
    → Memᴰ e s.by_id
    → o.subscriber_id ≡ e.subscriber_id
    → is_open e.status ≡ true
    → o.sequence ≤ e.sequence

-- Each returned row was open.
abbrev pub Opened : Store → List Delivery → Type 0
Opened s out =
    (o : Delivery)
    → Memᴰ o out
    → (d : Delivery) × Memᴰ d s.by_id
      × (o.subscriber_id ≡ d.subscriber_id)
      × (o.sequence ≡ d.sequence)
      × (is_open d.status ≡ true)

-- What a claim keeps: the invariant, and the order with all that was claimed before.
pub record Claims (h : List Delivery) (s t : Store) (out : List Delivery) : Type 0 where
  pub inv : Inv t
  pub past : Past (h ++ out) t
  pub heads : Heads s out
  pub opened : Opened s out

-- A step that hands out nothing.
pub Claims-nothing : (h : List Delivery) (s t : Store) → Inv t → Past h t → Claims h s t []
Claims-nothing h s t v p = record {
  inv = v;
  past = subst (λ l. Past l t) (sym (append-nil h)) p;
  heads = λ o e m. absurd (Memᴰ.not-nil m);
  opened = λ o m. absurd (Memᴰ.not-nil m);
}

pub Claims-none :
    (h : List Delivery) (s t : Store) → Inv s → Past h s → Settle s t → Claims h s t []
Claims-none h s t v p k = Claims-nothing h s t (Settle-Inv s t v k) (Settle-Past h s t p k)

-- The row `d`, taken up as `o`.
pub record Taken (s : Store) (d o : Delivery) : Type 0 where
  pub same : Same d o
  pub was_pending : is_pending d.status ≡ true
  pub flies : is_in_flight o.status ≡ true
  pub awake : suspended s d.subscriber_id ≡ false
  pub first :
      (e : Delivery)
      → Memᴰ e s.by_id
      → d.subscriber_id ≡ e.subscriber_id
      → is_unfinished e.status ≡ true
      → d.sequence ≤ e.sequence

-- From `s` to `t` some rows are taken up, and `out` is made of such rows.
pub record Takes (s t : Store) (out : List Delivery) : Type 0 where
  pub g : Delivery → Delivery
  pub image : Image g s.by_id t.by_id
  pub moved : (d : Delivery) → Memᴰ d s.by_id → (g d ≡ d) ⊎ Taken s d (g d)
  pub returned : (o : Delivery) → Memᴰ o out → (d : Delivery) × Memᴰ d s.by_id × Taken s d o
  pub suspension : (sub : String) → suspended t sub ≡ suspended s sub
  pub counters : (sub : String) → seq_of t.seq sub ≡ seq_of s.seq sub
  pub hol : t.disable_hol ≡ s.disable_hol
  pub gate : t.skip_suspend_gate ≡ s.skip_suspend_gate

-- The rows are taken also where nothing is returned.
pub Takes-forget : (s t : Store) (out : List Delivery) → Takes s t out → Takes s t []
Takes-forget s t out k = record {
  g = k.g;
  image = k.image;
  moved = k.moved;
  returned = λ o m. absurd (Memᴰ.not-nil m);
  suspension = k.suspension;
  counters = k.counters;
  hol = k.hol;
  gate = k.gate;
}

pending-unfinished : (st : Status) → is_pending st ≡ true → is_unfinished st ≡ true
pending-unfinished st h = ground arith

flying-kept : (st : Status) → is_in_flight st ≡ true → is_retained st ≡ false
flying-kept st h = ground arith

module _ (s t : Store) (out : List Delivery) (v : Inv s) (k : Takes s t out) where
  -- What is unfinished afterwards was unfinished, in flight only if it was or if it was taken.
  moved-unfinished :
      (d : Delivery)
      → Memᴰ d s.by_id
      → is_unfinished (k.g d).status ≡ true
      → is_unfinished d.status ≡ true
  moved-unfinished d m u = elim (k.moved d m) [
    | inl q ↦ rw q at u
    | inr x ↦ pending-unfinished d.status x.was_pending
  ]

  moved-retained :
      (d : Delivery)
      → Memᴰ d s.by_id
      → is_retained (k.g d).status ≡ true
      → is_retained d.status ≡ true
  moved-retained d m r = elim (k.moved d m) [
    | inl q ↦ rw q at r
    | inr x ↦ absurd (true-false r (flying-kept (k.g d).status x.flies))
  ]

  moved-is_open :
      (d : Delivery) → Memᴰ d s.by_id → is_open (k.g d).status ≡ true → is_open d.status ≡ true
  moved-is_open d m o = is_open_of d.status (elim (is_open-cases (k.g d).status o) [
    | inl u ↦ inl (moved-unfinished d m u)
    | inr r ↦ inr (moved-retained d m r)
  ])

  takes_head_first :
      (d e : Delivery)
      → Memᴰ d t.by_id
      → Memᴰ e t.by_id
      → d.subscriber_id ≡ e.subscriber_id
      → is_in_flight d.status ≡ true
      → is_unfinished e.status ≡ true
      → d.sequence ≤ e.sequence
  takes_head_first =
      Image-all_pairs
        (λ d e.
          d.subscriber_id ≡ e.subscriber_id
          → is_in_flight d.status ≡ true
          → is_unfinished e.status ≡ true
          → d.sequence ≤ e.sequence)
        k.image
        λ d e m n h fl un.
          let sd = k.image.same d in
          let se = k.image.same e in
          let h' = sym sd.subscriber_id ∙ h ∙ se.subscriber_id in
          let un' = moved-unfinished e n un in
          rw (sd.sequence, se.sequence)
            (elim (k.moved d m) [
              | inl q ↦ v.head_first d e m n h' (rw q at fl) un'
              | inr x ↦ x.first e n h' un'
            ])

  takes_quiet :
      (d : Delivery)
      → Memᴰ d t.by_id
      → suspended t d.subscriber_id ≡ true
      → is_unfinished d.status ≡ false
  takes_quiet =
      Image-all (λ d. suspended t d.subscriber_id ≡ true → is_unfinished d.status ≡ false) k.image
        λ d m h. not_true λ u. true-false (moved-unfinished d m u) (
          v.quiet d m (
            sym (k.suspension d.subscriber_id)
            ∙ ap (suspended t) (sym (k.image.same d).subscriber_id)
            ∙ h))

  takes_held :
      (d : Delivery)
      → Memᴰ d t.by_id
      → is_retained d.status ≡ true
      → suspended t d.subscriber_id ≡ true
  takes_held =
      Image-all (λ d. is_retained d.status ≡ true → suspended t d.subscriber_id ≡ true) k.image
        λ d m h.
          ap (suspended t) (k.image.same d).subscriber_id
          ∙ k.suspension d.subscriber_id
          ∙ v.held d m (moved-retained d m h)

  pub Takes-Inv : Inv t
  Takes-Inv = record {
    hol_on = k.hol ∙ v.hol_on;
    gate_on = k.gate ∙ v.gate_on;
    ids = image_ids s t v k.image;
    sequences = image_sequences s t v k.image;
    bounded = image_bounded s t v k.image (λ x. omega (arith, k.counters x));
    head_first = takes_head_first;
    quiet = takes_quiet;
    held = takes_held;
  }

  -- A row that is taken is not later than what is still open of its subscriber.
  Taken-first :
      (d o e : Delivery)
      → Taken s d o
      → Memᴰ e s.by_id
      → o.subscriber_id ≡ e.subscriber_id
      → is_open e.status ≡ true
      → o.sequence ≤ e.sequence
  Taken-first d o e x m h op =
      let q = sym x.same.subscriber_id ∙ h in
      rw x.same.sequence (elim (is_open-cases e.status op) [
        | inl u ↦ x.first e m q u
        | inr r ↦ absurd (true-false (ap (suspended s) q ∙ v.held e m r) x.awake)
      ])

  -- What comes before all that was open comes before all that is.
  open_after :
      (d e : Delivery)
      → ((f : Delivery)
          → Memᴰ f s.by_id
          → d.subscriber_id ≡ f.subscriber_id
          → is_open f.status ≡ true
          → d.sequence ≤ f.sequence)
      → Memᴰ e t.by_id
      → d.subscriber_id ≡ e.subscriber_id
      → is_open e.status ≡ true
      → d.sequence ≤ e.sequence
  open_after d e b =
      Image-all
        (λ e. d.subscriber_id ≡ e.subscriber_id → is_open e.status ≡ true → d.sequence ≤ e.sequence)
        k.image
        (λ e n q o.
          let se = k.image.same e in
          rw se.sequence (b e n (q ∙ se.subscriber_id) (moved-is_open e n o)))
        e

  returned-first :
      (o e : Delivery)
      → Memᴰ o out
      → Memᴰ e s.by_id
      → o.subscriber_id ≡ e.subscriber_id
      → is_open e.status ≡ true
      → o.sequence ≤ e.sequence
  returned-first o e m n = let (d, l, x) = k.returned o m in Taken-first d o e x n

  returned-counted : (o : Delivery) → Memᴰ o out → o.sequence ≤ seq_of t.seq o.subscriber_id
  returned-counted o m =
      let (d, n, x) = k.returned o m in
      rw (x.same.sequence, x.same.subscriber_id)
        (omega (arith, v.bounded d n, k.counters d.subscriber_id))

  Takes-Past : (h : List Delivery) → Past h s → Past (h ++ out) t
  Takes-Past h past = record {
    counted = λ d m. elim (Memᴰ.append_cases h m) [
      | inl n ↦ omega (arith, past.counted d n, k.counters d.subscriber_id)
      | inr n ↦ returned-counted d n
    ];
    before = λ d e m n. elim (Memᴰ.append_cases h m) [
      | inl l ↦ open_after d e (λ f j. past.before d f l j) n
      | inr l ↦ open_after d e (λ f j. returned-first d f l j) n
    ];
  }

  pub Takes-Claims : (h : List Delivery) → Past h s → Claims h s t out
  Takes-Claims h past = record {
    inv = Takes-Inv;
    past = Takes-Past h past;
    heads = returned-first;
    opened = λ o m.
        let (d, n, x) = k.returned o m in
        (
          d,
          n,
          x.same.subscriber_id,
          x.same.sequence,
          is_open_of d.status (inl (pending-unfinished d.status x.was_pending)),
        );
  }
