-- ===== src/Memory/Enqueue/Row.antt =====
-- The row that Enqueue of store/memory/memory.go inserts goes behind those of the same subscriber.
use mathlib.Core.List.Memᴰ
use sharathfold.Prelude.{
  ◌+◌, ◌≤◌, ◌<◌, String, true, false, List, Memᴰ, ◌≡◌, refl, sym, ◌∙◌, subst, arith, ◌≢◌, ◌⊎◌, inl,
  inr, none, if◌then◌else◌, str_eq, eq_iff, true-false,
}
use sharathfold.Store.{Delivery, Time, is_unfinished, is_in_flight, is_retained}
use sharathfold.Memory.State.{Store, seq_of, find}
use sharathfold.Memory.Rows.{find-none, meta_of-touch_meta, seq_of-insert}
use sharathfold.Memory.Invariant.{Inv, Past, suspended, is_open}
use sharathfold.Memory.Enqueue.{stored_row, insert_row}

module _ (now : Time) (d : Delivery) (s : Store) where
  abbrev t : Store
  t = insert_row now d s

  abbrev row : Delivery
  row = stored_row s now d

  -- A row after the step is the new one or an old one.
  row-or-old : (e : Delivery) → Memᴰ e t.by_id → (e ≡ row) ⊎ Memᴰ e s.by_id
  unfolding insert_row
  row-or-old e m = Memᴰ.cases_cons m

  pub suspended-insert_row : (sub : String) → suspended t sub ≡ suspended s sub
  unfolding insert_row
  suspended-insert_row sub = ground (arith, meta_of-touch_meta d.subscriber_id sub s.subs)

  seq_of-insert_row :
      (sub : String)
      → seq_of t.seq sub ≡ (
          if str_eq d.subscriber_id sub then seq_of s.seq d.subscriber_id + 1 else seq_of s.seq sub)
  unfolding insert_row
  seq_of-insert_row sub = seq_of-insert d.subscriber_id sub _ s.seq

  seq_of-grows : (sub : String) → seq_of s.seq sub ≤ seq_of t.seq sub
  seq_of-grows sub = ground (arith, seq_of-insert_row sub, eq_iff d.subscriber_id sub)

  -- The new row comes after every row of its subscriber.
  row-after :
      Inv s
      → (e : Delivery) → Memᴰ e s.by_id
      → e.subscriber_id ≡ row.subscriber_id
      → e.sequence < row.sequence
  unfolding stored_row
  row-after v e m h = ground (arith, v.bounded e m, h)

  row-not_in_flight : is_in_flight row.status ≡ false
  unfolding stored_row
  row-not_in_flight = ground arith

  -- It is held back exactly if its subscriber is suspended.
  row-status :
      s.skip_suspend_gate ≡ false
      → (is_unfinished row.status ≡ true) × (suspended s row.subscriber_id ≡ false)
        ⊎ (is_retained row.status ≡ true)
          × (is_unfinished row.status ≡ false)
          × (suspended s row.subscriber_id ≡ true)
  unfolding stored_row
  row-status g = ground arith

  -- What holds of the new row and of the old ones holds of all.
  all_rows {ℓ} :
      (P : Delivery → Type ℓ)
      → P row
      → ((e : Delivery) → Memᴰ e s.by_id → P e)
      → (e : Delivery) → Memᴰ e t.by_id
      → P e
  all_rows P p q e m = elim (row-or-old e m) [ inl h ↦ subst P (sym h) p | inr n ↦ q e n ]

  all_pairs {ℓ} :
      (P : Delivery → Delivery → Type ℓ)
      → P row row
      → ((e : Delivery) → Memᴰ e s.by_id → P row e × P e row)
      → ((e f : Delivery) → Memᴰ e s.by_id → Memᴰ f s.by_id → P e f)
      → (e f : Delivery) → Memᴰ e t.by_id
      → Memᴰ f t.by_id
      → P e f
  all_pairs P p q r e f m n =
      all_rows (λ x. P x f) (all_rows (P row) p (λ y k. (q y k).0) f n)
        (λ x k. all_rows (P x) (q x k).1 (λ y l. r x y k l) f n) e m

module _ (now : Time) (d : Delivery) (s : Store) (v : Inv s)
    (fresh : find d.id s.by_id ≡ none) where
  abbrev u : Store
  u = insert_row now d s

  row-fresh : (e : Delivery) → Memᴰ e s.by_id → e.id ≢ (row now d s).id
  unfolding stored_row
  row-fresh e m = find-none d.id s.by_id fresh m

  insert_ids : (e f : Delivery) → Memᴰ e u.by_id → Memᴰ f u.by_id → e.id ≡ f.id → e ≡ f
  insert_ids =
      all_pairs now d s (λ e f. e.id ≡ f.id → e ≡ f) (λ _. refl)
        (λ e m. (λ h. absurd (row-fresh e m (sym h)), λ h. absurd (row-fresh e m h))) v.ids

  insert_sequences :
      (e f : Delivery)
      → Memᴰ e u.by_id
      → Memᴰ f u.by_id
      → e.subscriber_id ≡ f.subscriber_id
      → e.sequence ≡ f.sequence
      → e.id ≡ f.id
  insert_sequences =
      all_pairs now d s
        (λ e f. e.subscriber_id ≡ f.subscriber_id → e.sequence ≡ f.sequence → e.id ≡ f.id)
        (λ _ _. refl)
        (λ e m. (
          λ h k. absurd (omega (arith, row-after now d s v e m (sym h), k)),
          λ h k. absurd (omega (arith, row-after now d s v e m h, k)),
        ))
        v.sequences

  row-bounded : (row now d s).sequence ≤ seq_of u.seq (row now d s).subscriber_id
  unfolding stored_row
  row-bounded =
      ground
        (arith, seq_of-insert_row now d s d.subscriber_id, eq_iff d.subscriber_id d.subscriber_id)

  insert_bounded : (e : Delivery) → Memᴰ e u.by_id → e.sequence ≤ seq_of u.seq e.subscriber_id
  insert_bounded =
      all_rows now d s (λ e. e.sequence ≤ seq_of u.seq e.subscriber_id) row-bounded
        λ e m. omega (arith, v.bounded e m, seq_of-grows now d s e.subscriber_id)

  insert_head_first :
      (e f : Delivery)
      → Memᴰ e u.by_id
      → Memᴰ f u.by_id
      → e.subscriber_id ≡ f.subscriber_id
      → is_in_flight e.status ≡ true
      → is_unfinished f.status ≡ true
      → e.sequence ≤ f.sequence
  insert_head_first =
      all_pairs now d s
        (λ e f.
          e.subscriber_id ≡ f.subscriber_id
          → is_in_flight e.status ≡ true
          → is_unfinished f.status ≡ true
          → e.sequence ≤ f.sequence)
        (λ _ _ _. omega arith)
        (λ e m. (
          λ _ fl _. absurd (true-false fl (row-not_in_flight now d s)),
          λ h _ _. omega (arith, row-after now d s v e m h),
        ))
        v.head_first

  insert_quiet :
      (e : Delivery)
      → Memᴰ e u.by_id
      → suspended u e.subscriber_id ≡ true
      → is_unfinished e.status ≡ false
  insert_quiet =
      all_rows now d s (λ e. suspended u e.subscriber_id ≡ true → is_unfinished e.status ≡ false)
        (λ h. ground (
          arith,
          row-status now d s v.gate_on,
          suspended-insert_row now d s (row now d s).subscriber_id,
        ))
        (λ e m h. v.quiet e m (sym (suspended-insert_row now d s e.subscriber_id) ∙ h))

  insert_held :
      (e : Delivery)
      → Memᴰ e u.by_id
      → is_retained e.status ≡ true
      → suspended u e.subscriber_id ≡ true
  insert_held =
      all_rows now d s (λ e. is_retained e.status ≡ true → suspended u e.subscriber_id ≡ true)
        (λ h. ground (
          arith,
          row-status now d s v.gate_on,
          suspended-insert_row now d s (row now d s).subscriber_id,
        ))
        (λ e m h. suspended-insert_row now d s e.subscriber_id ∙ v.held e m h)

  pub insert_row-Inv : Inv u
  unfolding insert_row
  insert_row-Inv = record {
    hol_on = v.hol_on;
    gate_on = v.gate_on;
    ids = insert_ids;
    sequences = insert_sequences;
    bounded = insert_bounded;
    head_first = insert_head_first;
    quiet = insert_quiet;
    held = insert_held;
  }

  row-after-Past :
      (h : List Delivery)
      → Past h s
      → (e : Delivery) → Memᴰ e h
      → e.subscriber_id ≡ (row now d s).subscriber_id
      → e.sequence < (row now d s).sequence
  unfolding stored_row
  row-after-Past h p e m q = ground (arith, p.counted e m, q)

  pub insert_row-Past : (h : List Delivery) → Past h s → Past h u
  insert_row-Past h p = record {
    counted = λ e m. omega (arith, p.counted e m, seq_of-grows now d s e.subscriber_id);
    before = λ e f m n.
        all_rows now d s
          (λ f.
            e.subscriber_id ≡ f.subscriber_id → is_open f.status ≡ true → e.sequence ≤ f.sequence)
          (λ q _. omega (arith, row-after-Past h p e m q)) (λ f k. p.before e f m k) f n;
  }
