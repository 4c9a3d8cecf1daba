-- ===== src/Postgres/Refines.antt =====
-- The marks of store/postgres/postgres.go do what those of store/memory/memory.go do.
use mathlib.Core.List.Memᴰ
use sharathfold.Prelude.{
  ℕ, String, Bool, true, false, List, [], ◌∷◌, Memᴰ, some, ◌≡◌, refl, sym, ap, ◌∙◌, subst, arith,
  inl, inr, if◌then◌else◌, ◌==◌, str_eq, str_eq→eq, eq_iff, Bool-cases, true-false, not_true,
}
use sharathfold.Store.{
  Delivery, Context, with_context, live, done, Result, ok, err, context_error,
  mark_requires_generation, stale_claim,
}
use sharathfold.Memory.State.{Store, find, update}
use sharathfold.Memory.State as memory
use sharathfold.Memory.Rows.{mem-find, find-mem}
use sharathfold.Memory.Invariant.{Inv}
use sharathfold.Memory.Marks.{require_owner, write_row, finish_mark}
use sharathfold.Memory.Marks.{
  mark_terminal as memory_mark_terminal, mark_failed as memory_mark_failed,
}
use sharathfold.Memory.Marks.Keeps.{Owned, require_owner-Owned, Owned-require_owner}
use sharathfold.Postgres.State.{PgStore, Db, view, signal, exists_row}
use sharathfold.Postgres.Marks.{update_where, is_claimed, mark, mark_terminal, mark_failed}

-- Whether a call went through. The two stores word their refusals differently.
abbrev pub went_through {ℓ} : {A : Type ℓ} → Result A → Bool
went_through (ok a) = true
went_through (err e) = false

-- The two calls leave the same rows, and both go through or neither.
abbrev pub Agree {ℓ} : {A : Type ℓ} → PgStore × Result A → Store × Result A → Type 0
Agree a b = (view a.0 ≡ b.0) × (went_through a.1 ≡ went_through b.1)

-- A row passes the test, if EXISTS is true.
exists_row-true :
    (p : Delivery → Bool) (ds : List Delivery)
    → exists_row p ds ≡ true
    → (d : Delivery) × Memᴰ d ds × (p d ≡ true)
unfolding exists_row
exists_row-true p [] h = cc
exists_row-true p (d ∷ ds) h = elim (Bool-cases (p d)) [
  | inl k ↦ (d, Memᴰ.head refl, k)
  | inr k ↦ let (e, m, q) = exists_row-true p ds (rw k at h) in (e, Memᴰ.tail m, q)
]

exists_row-mem :
    (p : Delivery → Bool) (ds : List Delivery) {d : Delivery}
    → Memᴰ d ds
    → p d ≡ true
    → exists_row p ds ≡ true
unfolding exists_row
exists_row-mem p [] m h = absurd (Memᴰ.not-nil m)
exists_row-mem p (e ∷ ds) {d} m h = elim (Bool-cases (p e)) [
  | inl k ↦ rw k refl
  | inr k ↦ rw k (elim (Memᴰ.cases_cons m) [
    | inl q ↦ absurd (true-false (ap p (sym q) ∙ h) k)
    | inr n ↦ exists_row-mem p ds n h
  ])
]

-- Two tests that agree on the rows select the same ones.
update_where-agree :
    (p q : Delivery → Bool) (f : Delivery → Delivery) (ds : List Delivery)
    → ((d : Delivery) → Memᴰ d ds → p d ≡ q d)
    → update_where p f ds ≡ update_where q f ds
unfolding update_where
update_where-agree p q f [] h = refl
update_where-agree p q f (d ∷ ds) h = rw (h d (Memᴰ.head refl)) (
    ap (λ l. (if q d then f d else d) ∷ l) (update_where-agree p q f ds (λ e m. h e (Memᴰ.tail m))))

module _ (t : PgStore) (v : Inv (view t)) (id owner : String) (generation : ℕ)
    (named : str_eq owner "" ≡ false) (checks : t.skip_mark_owner_gen_check ≡ false) where
  abbrev claimed : Delivery → Bool
  claimed = is_claimed t id owner generation

  -- What is claimed is in flight under the stamp, and the other way round.
  claimed-Owned :
      (d : Delivery)
      → (generation == 0) ≡ false
      → Memᴰ d t.deliveries
      → claimed d ≡ true
      → Owned id owner generation (view t) d
  claimed-Owned d g m h =
      let same : d.id ≡ id = str_eq→eq d.id id (ground arith) in
      record {
        there =
            subst (λ x. find x t.deliveries ≡ some d) same
              (find-mem t.deliveries m (λ e n q. v.ids e d n m q));
        in_flight = ground arith;
        owner_is = ground (arith, eq_iff d.owner owner);
        generation_is = ground arith;
        generation_set = ground arith;
      }

  Owned-claimed :
      (d : Delivery)
      → Owned id owner generation (view t) d
      → Memᴰ d t.deliveries × (claimed d ≡ true)
  Owned-claimed d o =
      let (m, q) = mem-find id t.deliveries o.there in
      (
        m,
        ground (
          arith,
          eq_iff d.id id,
          eq_iff d.owner owner,
          o.in_flight,
          o.owner_is,
          o.generation_is,
          q,
          named,
        ),
      )

  -- The key alone selects the row that is claimed.
  Owned-agree :
      (d : Delivery)
      → Owned id owner generation (view t) d
      → (e : Delivery) → Memᴰ e t.deliveries
      → claimed e ≡ str_eq e.id id
  Owned-agree d o e n = elim (Bool-cases (str_eq e.id id)) [
    | inr k ↦ not_true (λ h. true-false (claimed-id e h) k) ∙ sym k
    | inl k ↦
        let (m, c) = Owned-claimed d o in
        let same : d ≡ e =
          v.ids d e m n ((mem-find id t.deliveries o.there).1 ∙ sym (str_eq→eq e.id id k)) in
        ap claimed (sym same) ∙ c ∙ sym k
  ]
    where
      claimed-id : (e : Delivery) → claimed e ≡ true → str_eq e.id id ≡ true
      claimed-id e h = ground arith

  -- The two marks with the write `f`, once the context and the database let them run.
  abbrev marked : (Delivery → Delivery) → PgStore × Result (Unit {0})
  marked f =
      if exists_row claimed t.deliveries
      then (signal (record t { deliveries = update_where claimed f t.deliveries }), ok tt)
      else (t, err (stale_claim id))

  marked-agree :
      (f : Delivery → Delivery) (r : Result Delivery)
      → (generation == 0) ≡ false
      → require_owner id owner generation (view t) ≡ r
      → let a = marked f in
        let b = finish_mark (view t) (write_row id f (view t)) r in
        (view a.0 ≡ b.0) × (went_through a.1 ≡ went_through b.1)
  unfolding update update_where
  marked-agree f (ok d) g e =
      let o = require_owner-Owned id owner generation (view t) e in
      let (m, c) = Owned-claimed d o in
      rw (exists_row-mem claimed t.deliveries m c) (
        ap (λ rows. memory.signal (record (view t) { by_id = rows }))
            (update_where-agree claimed (λ x. str_eq x.id id) f t.deliveries (Owned-agree d o)),
        refl,
      )
  marked-agree f (err x) g e = rw (not_true nothing) (refl, refl)
    where
      nothing : exists_row claimed t.deliveries ≡ true → ⊥
      nothing h =
          let (d, m, c) = exists_row-true claimed t.deliveries h in
          let q : ok d ≡ err x =
            sym (Owned-require_owner id owner generation (view t) d (claimed-Owned d g m c)) ∙ e in
          cc

  mark-marked :
      (db : Db) (f : Delivery → Delivery)
      → db.fails ≡ false
      → (generation == 0) ≡ false
      → mark db live id owner generation f t ≡ marked f
  unfolding mark
  mark-marked db f up g = rw (g, up) refl

  mark-no_generation :
      (db : Db) (f : Delivery → Delivery)
      → (generation == 0) ≡ true
      → mark db live id owner generation f t ≡ (t, err mark_requires_generation)
  unfolding mark
  mark-no_generation db f g = rw g refl

  require_owner-no_generation :
      (generation == 0) ≡ true
      → require_owner id owner generation (view t) ≡ err mark_requires_generation
  unfolding require_owner
  require_owner-no_generation g = rw g refl

  live_marks-agree :
      (db : Db) (f : Delivery → Delivery)
      → db.fails ≡ false
      → let a = mark db live id owner generation f t in
        let b =
          finish_mark
            (view t)
            (write_row id f (view t))
            (require_owner id owner generation (view t)) in
        (view a.0 ≡ b.0) × (went_through a.1 ≡ went_through b.1)
  live_marks-agree db f up = elim (Bool-cases (generation == 0)) [
    | inl g ↦ rw (mark-no_generation db f g, require_owner-no_generation g) (refl, refl)
    | inr g ↦ rw (mark-marked db f up g) (marked-agree f _ g refl)
  ]

  -- The checks that come before agree, too.
  pub mark-agree :
      (db : Db) (ctx : Context) (f : Delivery → Delivery)
      → db.fails ≡ false
      → let a = mark db ctx id owner generation f t in
        let s = view t in
        let b =
          with_context ctx
            (s, err context_error)
            (finish_mark s (write_row id f s) (require_owner id owner generation s)) in
        (view a.0 ≡ b.0) × (went_through a.1 ≡ went_through b.1)
  unfolding mark
  mark-agree db done f up = (refl, refl)
  mark-agree db live f up = live_marks-agree db f up
