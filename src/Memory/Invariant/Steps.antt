-- ===== src/Memory/Invariant/Steps.antt =====
-- The steps that only settle rows: how they arise and how they compose.
use mathlib.Core.List.Memᴰ
use sharathfold.Prelude.{
  String, List, map, Memᴰ, ◌≡◌, refl, sym, ◌∙◌, ap, if◌then◌else◌, str_eq, Bool-cases, str_eq→eq,
  inl, inr,
}
use sharathfold.Store.{Delivery}
use sharathfold.Memory.State.{Store, signal, seq_of, update}
use sharathfold.Memory.Invariant.{Same, Image, Settles, Settle, suspended}

pub Same-refl : (d : Delivery) → Same d d
Same-refl d = record { id = refl; subscriber_id = refl; sequence = refl }

pub Same-trans : {d e f : Delivery} → Same d e → Same e f → Same d f
Same-trans p q = record {
  id = q.id ∙ p.id;
  subscriber_id = q.subscriber_id ∙ p.subscriber_id;
  sequence = q.sequence ∙ p.sequence;
}

pub Settles-refl : (d : Delivery) → Settles d d
Settles-refl d = record { unfinished = λ h. h; in_flight = λ h. h; retained = λ h. h }

-- A change of every row that keeps what identifies it.
pub map-Image :
    (g : Delivery → Delivery) (ds : List Delivery)
    → ((d : Delivery) → Same d (g d))
    → Image g ds (map g ds)
map-Image g ds same = record {
  same = same;
  origin = λ e m. let (d, n, p) = Memᴰ.of_map g ds m in (d, n, sym p);
}

-- Rows that are left alone, or dropped.
pub subset-Image :
    (ds es : List Delivery) → ((d : Delivery) → Memᴰ d es → Memᴰ d ds) → Image (λ d. d) ds es
subset-Image ds es sub = record { same = Same-refl; origin = λ e m. (e, sub e m, refl) }

pub Image-trans :
    {g h : Delivery → Delivery} {ds es fs : List Delivery}
    → Image g ds es
    → Image h es fs
    → Image (λ d. h (g d)) ds fs
Image-trans {g = g} {h = h} i j = record {
  same = λ d. Same-trans (i.same d) (j.same (g d));
  origin =
      λ f m. let (e, n, p) = j.origin f m in let (d, l, q) = i.origin e n in (d, l, p ∙ ap h q);
}

-- A step that leaves the rows' statuses alone, or drops rows.
pub subset-Settle :
    (s t : Store)
    → ((d : Delivery) → Memᴰ d t.by_id → Memᴰ d s.by_id)
    → ((sub : String) → suspended t sub ≡ suspended s sub)
    → ((sub : String) → seq_of t.seq sub ≡ seq_of s.seq sub)
    → t.disable_hol ≡ s.disable_hol
    → t.skip_suspend_gate ≡ s.skip_suspend_gate
    → Settle s t
subset-Settle s t sub p q hol gate = record {
  g = λ d. d;
  image = subset-Image s.by_id t.by_id sub;
  settles = λ d m. Settles-refl d;
  suspension = p;
  counters = q;
  hol = hol;
  gate = gate;
}

-- A step that drops rows, and leaves the others, the suspensions and the counters.
pub record Drops (s t : Store) : Type 0 where
  pub rows : (d : Delivery) → Memᴰ d t.by_id → Memᴰ d s.by_id
  pub suspension : (sub : String) → suspended t sub ≡ suspended s sub
  pub counters : (sub : String) → seq_of t.seq sub ≡ seq_of s.seq sub
  pub hol : t.disable_hol ≡ s.disable_hol
  pub gate : t.skip_suspend_gate ≡ s.skip_suspend_gate

pub Drops-refl : (s : Store) → Drops s s
Drops-refl s = record {
  rows = λ d m. m;
  suspension = λ x. refl;
  counters = λ x. refl;
  hol = refl;
  gate = refl;
}

pub Drops-trans : {s t u : Store} → Drops s t → Drops t u → Drops s u
Drops-trans p q = record {
  rows = λ d m. p.rows d (q.rows d m);
  suspension = λ x. q.suspension x ∙ p.suspension x;
  counters = λ x. q.counters x ∙ p.counters x;
  hol = q.hol ∙ p.hol;
  gate = q.gate ∙ p.gate;
}

pub Drops-Settle : (s t : Store) → Drops s t → Settle s t
Drops-Settle s t p = subset-Settle s t p.rows p.suspension p.counters p.hol p.gate

pub Settle-refl : (s : Store) → Settle s s
Settle-refl s = Drops-Settle s s (Drops-refl s)

-- To wake the workers changes no row.
pub signal-Settle : (s : Store) → Settle s (signal s)
signal-Settle s = subset-Settle s (signal s) (λ d m. m) (λ x. refl) (λ x. refl) refl refl

-- A write to the one row under a key settles, if it settles that row.
module _ (id : String) (f : Delivery → Delivery) where
  abbrev pub write_at : Delivery → Delivery
  write_at d = if str_eq d.id id then f d else d

  write_at-Same : ((d : Delivery) → Same d (f d)) → (d : Delivery) → Same d (write_at d)
  write_at-Same same d = elim (Bool-cases (str_eq d.id id)) [
    | inl k ↦ rw k (same d)
    | inr k ↦ rw k (Same-refl d)
  ]

  pub update-Image :
      (ds : List Delivery) → ((d : Delivery) → Same d (f d)) → Image write_at ds (update id f ds)
  unfolding update
  update-Image ds same = map-Image write_at ds (write_at-Same same)

  pub update-Settle :
      (s : Store)
      → ((d : Delivery) → Same d (f d))
      → ((d : Delivery) → Memᴰ d s.by_id → d.id ≡ id → Settles d (f d))
      → Settle s (record s { by_id = update id f s.by_id })
  update-Settle s same h = record {
    g = write_at;
    image = update-Image s.by_id same;
    settles = λ d m. elim (Bool-cases (str_eq d.id id)) [
      | inl k ↦ rw k (h d m (str_eq→eq d.id id k))
      | inr k ↦ rw k (Settles-refl d)
    ];
    suspension = λ x. refl;
    counters = λ x. refl;
    hol = refl;
    gate = refl;
  }
