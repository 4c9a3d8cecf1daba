-- ===== src/Memory/Invariant.antt =====
-- The invariant of store/memory/memory.go that keeps a subscriber's deliveries in order, and the
-- steps that preserve it because they only settle rows.
pub mod Steps
pub mod Takes
use mathlib.Core.List.Memᴰ
use native.Mathlib.Nat.{le_trans, le_antisymm}
use sharathfold.Prelude.{
  ℕ, ◌≤◌, String, Bool, true, false, ◌||◌, List, [], ◌∷◌, Memᴰ, ◌≡◌, refl, sym, ◌∙◌, ap, subst,
  not_true, true-false, arith, ◌⊎◌, inl, inr,
}
use sharathfold.Store.{Delivery, Status, is_unfinished, is_in_flight, is_retained}
use sharathfold.Memory.State.{Store, meta_of, seq_of, new}

-- The subscriber is suspended.
abbrev pub suspended : Store → String → Bool
suspended s sub = (meta_of s.subs sub).suspended

-- The row has still to be delivered: it waits, is under way, or is held back.
abbrev pub is_open : Status → Bool
is_open st = is_unfinished st || is_retained st

pub record Inv (s : Store) : Type 0 where
  -- The two gates that only tests turn off.
  pub hol_on : s.disable_hol ≡ false
  pub gate_on : s.skip_suspend_gate ≡ false
  -- No two rows share a key of the map.
  pub ids : (d e : Delivery) → Memᴰ d s.by_id → Memᴰ e s.by_id → d.id ≡ e.id → d ≡ e
  -- No two rows of a subscriber share a sequence number.
  pub sequences :
      (d e : Delivery)
      → Memᴰ d s.by_id
      → Memᴰ e s.by_id
      → d.subscriber_id ≡ e.subscriber_id
      → d.sequence ≡ e.sequence
      → d.id ≡ e.id
  -- The counter of a subscriber is at its last sequence number.
  pub bounded : (d : Delivery) → Memᴰ d s.by_id → d.sequence ≤ seq_of s.seq d.subscriber_id
  -- What is in flight comes before all that is unfinished.
  pub head_first :
      (d e : Delivery)
      → Memᴰ d s.by_id
      → Memᴰ e s.by_id
      → d.subscriber_id ≡ e.subscriber_id
      → is_in_flight d.status ≡ true
      → is_unfinished e.status ≡ true
      → d.sequence ≤ e.sequence
  -- A suspended subscriber has nothing pending or in flight.
  pub quiet :
      (d : Delivery)
      → Memᴰ d s.by_id
      → suspended s d.subscriber_id ≡ true
      → is_unfinished d.status ≡ false
  -- Only a suspended subscriber has rows held back.
  pub held :
      (d : Delivery)
      → Memᴰ d s.by_id
      → is_retained d.status ≡ true
      → suspended s d.subscriber_id ≡ true

-- Same row: what identifies a row does not change.
pub record Same (d e : Delivery) : Type 0 where
  pub id : e.id ≡ d.id
  pub subscriber_id : e.subscriber_id ≡ d.subscriber_id
  pub sequence : e.sequence ≡ d.sequence

-- The rows `es` are images of rows of `ds` under `g`; some may have been dropped.
pub record Image (g : Delivery → Delivery) (ds es : List Delivery) : Type 0 where
  pub same : (d : Delivery) → Same d (g d)
  pub origin : (e : Delivery) → Memᴰ e es → (d : Delivery) × Memᴰ d ds × (e ≡ g d)

-- The row moves towards its end: nothing that was settled is taken up again.
pub record Settles (d e : Delivery) : Type 0 where
  pub unfinished : is_unfinished e.status ≡ true → is_unfinished d.status ≡ true
  pub in_flight : is_in_flight e.status ≡ true → is_in_flight d.status ≡ true
  pub retained : is_retained e.status ≡ true → is_retained d.status ≡ true

-- The step from `s` to `t` only settles rows or drops them.
pub record Settle (s t : Store) : Type 0 where
  pub g : Delivery → Delivery
  pub image : Image g s.by_id t.by_id
  pub settles : (d : Delivery) → Memᴰ d s.by_id → Settles d (g d)
  pub suspension : (sub : String) → suspended t sub ≡ suspended s sub
  pub counters : (sub : String) → seq_of t.seq sub ≡ seq_of s.seq sub
  pub hol : t.disable_hol ≡ s.disable_hol
  pub gate : t.skip_suspend_gate ≡ s.skip_suspend_gate

-- What holds of every image holds of every row of the new list.
pub Image-all {ℓ} :
    {g : Delivery → Delivery} {ds es : List Delivery} (P : Delivery → Type ℓ)
    → Image g ds es
    → ((d : Delivery) → Memᴰ d ds → P (g d))
    → (e : Delivery) → Memᴰ e es
    → P e
Image-all P i h e m = let (d, n, p) = i.origin e m in subst P (sym p) (h d n)

-- So for two rows.
pub Image-all_pairs {ℓ} :
    {g : Delivery → Delivery} {ds es : List Delivery} (P : Delivery → Delivery → Type ℓ)
    → Image g ds es
    → ((d e : Delivery) → Memᴰ d ds → Memᴰ e ds → P (g d) (g e))
    → (d e : Delivery) → Memᴰ d es
    → Memᴰ e es
    → P d e
Image-all_pairs {g = g} P i h d e m n =
    Image-all (λ x. P x e) i (λ x k. Image-all (P (g x)) i (λ y l. h x y k l) e n) d m

-- The first three parts of the invariant hold whatever happens to the rows' statuses.
module _ (s t : Store) (v : Inv s) {g : Delivery → Delivery} (i : Image g s.by_id t.by_id) where
  pub image_ids : (d e : Delivery) → Memᴰ d t.by_id → Memᴰ e t.by_id → d.id ≡ e.id → d ≡ e
  image_ids =
      Image-all_pairs (λ d e. d.id ≡ e.id → d ≡ e) i
        λ d e m n h. ap g (v.ids d e m n (sym (i.same d).id ∙ h ∙ (i.same e).id))

  pub image_sequences :
      (d e : Delivery)
      → Memᴰ d t.by_id
      → Memᴰ e t.by_id
      → d.subscriber_id ≡ e.subscriber_id
      → d.sequence ≡ e.sequence
      → d.id ≡ e.id
  image_sequences =
      Image-all_pairs
        (λ d e. d.subscriber_id ≡ e.subscriber_id → d.sequence ≡ e.sequence → d.id ≡ e.id) i
        λ d e m n h k.
          (i.same d).id
          ∙ v.sequences d e m n (sym (i.same d).subscriber_id ∙ h ∙ (i.same e).subscriber_id)
              (sym (i.same d).sequence ∙ k ∙ (i.same e).sequence)
          ∙ sym (i.same e).id

  pub image_bounded :
      ((sub : String) → seq_of s.seq sub ≤ seq_of t.seq sub)
      → (d : Delivery) → Memᴰ d t.by_id
      → d.sequence ≤ seq_of t.seq d.subscriber_id
  image_bounded grows =
      Image-all (λ d. d.sequence ≤ seq_of t.seq d.subscriber_id) i
        λ d m.
          rw ((i.same d).subscriber_id, (i.same d).sequence)
            (le_trans (v.bounded d m) (grows d.subscriber_id))

-- A step that only settles rows keeps the invariant.
module _ (s t : Store) (v : Inv s) (k : Settle s t) where
  settle_head_first :
      (d e : Delivery)
      → Memᴰ d t.by_id
      → Memᴰ e t.by_id
      → d.subscriber_id ≡ e.subscriber_id
      → is_in_flight d.status ≡ true
      → is_unfinished e.status ≡ true
      → d.sequence ≤ e.sequence
  settle_head_first =
      Image-all_pairs
        (λ d e.
          d.subscriber_id ≡ e.subscriber_id
          → is_in_flight d.status ≡ true
          → is_unfinished e.status ≡ true
          → d.sequence ≤ e.sequence)
        k.image
        λ d e m n h fl un.
          let sd = k.image.same d in
          let se = k.image.same e in
          rw (sd.sequence, se.sequence)
            (v.head_first d e m n (sym sd.subscriber_id ∙ h ∙ se.subscriber_id)
              ((k.settles d m).in_flight fl) ((k.settles e n).unfinished un))

  settle_quiet :
      (d : Delivery)
      → Memᴰ d t.by_id
      → suspended t d.subscriber_id ≡ true
      → is_unfinished d.status ≡ false
  settle_quiet =
      Image-all (λ d. suspended t d.subscriber_id ≡ true → is_unfinished d.status ≡ false) k.image
        λ d m h. not_true (λ u. true-false ((k.settles d m).unfinished u) (
          v.quiet d m (
            sym (k.suspension d.subscriber_id)
            ∙ ap (suspended t) (sym (k.image.same d).subscriber_id)
            ∙ h)))

  settle_held :
      (d : Delivery)
      → Memᴰ d t.by_id
      → is_retained d.status ≡ true
      → suspended t d.subscriber_id ≡ true
  settle_held =
      Image-all (λ d. is_retained d.status ≡ true → suspended t d.subscriber_id ≡ true) k.image
        λ d m h.
          ap (suspended t) (k.image.same d).subscriber_id
          ∙ k.suspension d.subscriber_id
          ∙ v.held d m ((k.settles d m).retained h)

  pub Settle-Inv : Inv t
  Settle-Inv = record {
    hol_on = k.hol ∙ v.hol_on;
    gate_on = k.gate ∙ v.gate_on;
    ids = image_ids s t v k.image;
    sequences = image_sequences s t v k.image;
    bounded = image_bounded s t v k.image (λ sub. omega (arith, k.counters sub));
    head_first = settle_head_first;
    quiet = settle_quiet;
    held = settle_held;
  }

in_flight-unfinished : (st : Status) → is_in_flight st ≡ true → is_unfinished st ≡ true
in_flight-unfinished st h = ground arith

-- Two rows of a subscriber that are both in flight are one row.
pub in_flight_only :
    {s : Store} (d e : Delivery)
    → Inv s
    → Memᴰ d s.by_id
    → Memᴰ e s.by_id
    → d.subscriber_id ≡ e.subscriber_id
    → is_in_flight d.status ≡ true
    → is_in_flight e.status ≡ true
    → d.id ≡ e.id
in_flight_only d e v m n h p q = v.sequences d e m n h (
    le_antisymm (v.head_first d e m n h p (in_flight-unfinished e.status q))
      (v.head_first e d n m (sym h) q (in_flight-unfinished d.status p)))

-- The deliveries `h` were claimed before: what is still open of their subscribers is not earlier.
pub record Past (h : List Delivery) (s : Store) : Type 0 where
  pub counted : (d : Delivery) → Memᴰ d h → d.sequence ≤ seq_of s.seq d.subscriber_id
  pub before :
      (d e : Delivery)
      → Memᴰ d h
      → Memᴰ e s.by_id
      → d.subscriber_id ≡ e.subscriber_id
      → is_open e.status ≡ true
      → d.sequence ≤ e.sequence

pub is_open-cases :
    (st : Status) → is_open st ≡ true → (is_unfinished st ≡ true) ⊎ (is_retained st ≡ true)
is_open-cases st h = ground arith

pub is_open_of :
    (st : Status) → (is_unfinished st ≡ true) ⊎ (is_retained st ≡ true) → is_open st ≡ true
is_open_of st h = ground arith

Settles-is_open : (d e : Delivery) → Settles d e → is_open e.status ≡ true → is_open d.status ≡ true
Settles-is_open d e p h =
    is_open_of d.status (elim (is_open-cases e.status h) [
      | inl u ↦ inl (p.unfinished u)
      | inr r ↦ inr (p.retained r)
    ])

pub Settle-Past : (h : List Delivery) (s t : Store) → Past h s → Settle s t → Past h t
Settle-Past h s t p k = record {
  counted = λ d m. omega (arith, p.counted d m, k.counters d.subscriber_id);
  before = λ d e m n.
      Image-all
        (λ e. d.subscriber_id ≡ e.subscriber_id → is_open e.status ≡ true → d.sequence ≤ e.sequence)
        k.image
        (λ e n q o.
          let se = k.image.same e in
          rw se.sequence
            (p.before d e m n (q ∙ se.subscriber_id) (Settles-is_open e (k.g e) (k.settles e n) o)))
        e n;
}
