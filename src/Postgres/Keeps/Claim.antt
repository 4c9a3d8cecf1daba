-- ===== src/Postgres/Keeps/Claim.antt =====
-- Claim of store/postgres/postgres.go takes the first unfinished row of a subscriber that is awake.
use mathlib.Core.List.Memᴰ
use sharathfold.Prelude.{
  ℕ, ◌≤◌, String, Bool, true, false, not, ◌&&◌, List, [], map, Memᴰ, Option, none, some, ◌≡◌, refl,
  sym, ap, subst, arith, inl, inr, if◌then◌else◌, ltb, ◌==◌, str_eq, eq_iff, if_both, Bool-cases,
  Option-cases, true-false, contains, contains-mem, mem-keep_if, mem-sort_by, ℤ, le_zero, to_nat,
}
use sharathfold.Store.{Delivery, Time, Context, live, done, Result, ok, err, is_unfinished}
use sharathfold.Memory.Invariant.{Inv, Past, Same, suspended}
use sharathfold.Memory.Invariant.Steps.{Same-refl, map-Image, Settle-refl}
use sharathfold.Memory.Invariant.Takes.{
  Taken, Takes, Takes-Claims, Takes-forget, Claims, Claims-none,
}
use sharathfold.Memory.Claim.Calls.{rows_of}
use sharathfold.Postgres.State.{PgStore, Db, exists_row, view, refresh, is_empty}
use sharathfold.Postgres.Claim.{
  is_behind, is_suspended, is_eligible, is_granted, row_less, candidates, claim_row, claim_as,
  run_claim, if_ok, claim_owned, check_ownership_metadata, grant_owned, grant_listed,
  claim_refreshed, returned, claim,
}
use sharathfold.Tokens.{parse_distributed_owner}
use sharathfold.Postgres.Keeps.Rows.{exists_row-false, mem-take}

module _ (db : Db) (now : Time) (owner : String) (grant : Delivery → Option ℕ) (limit : ℕ)
    (t : PgStore) where
  abbrev may_take : Delivery → Bool
  may_take d = is_eligible t now d && is_granted (grant d)

  abbrev cs : List Delivery
  cs = candidates db now grant limit t

  -- A candidate is a row of the table that may be taken, and that is not locked.
  mem-candidates :
      (d : Delivery)
      → Memᴰ d cs
      → Memᴰ d t.deliveries × (may_take d ≡ true) × (not (db.locked d.id) ≡ true)
  unfolding candidates
  mem-candidates d m =
      let (n, free) = mem-keep_if (λ d. not (db.locked d.id)) _ (mem-take limit _ m) in
      let (l, h) = mem-keep_if may_take t.deliveries (mem-sort_by (row_less db) _ n) in (l, h, free)

  -- Each row that is returned is an eligible row, taken up.
  pub run_claim-of :
      (o : Delivery)
      → Memᴰ o (run_claim db now owner grant limit t).1
      → (d : Delivery) × Memᴰ d cs × (o ≡ claim_as owner now d (grant d))
  unfolding run_claim
  run_claim-of o m =
      let (d, n, p) =
        Memᴰ.of_map (λ d. claim_as owner now d (grant d)) cs (mem-sort_by db.returns_first _ m) in
      (d, n, sym p)

  -- The grant under which a returned row was taken.
  pub run_claim-granted :
      (o : Delivery)
      → Memᴰ o (run_claim db now owner grant limit t).1
      → (d : Delivery) × (g : ℕ) × Memᴰ d t.deliveries
        × (not (db.locked d.id) ≡ true)
        × (grant d ≡ some g)
        × (o ≡ claim_row owner now g d)
  run_claim-granted o m =
      let (d, n, p) = run_claim-of o m in
      let (l, h, free) = mem-candidates d n in
      elim (Option-cases (grant d)) [
        | inl e ↦ absurd (granted_not_none d (ground arith) e)
        | inr (g, e) ↦ (d, g, l, free, e, rw e at p)
      ]
    where
      granted_not_none : (d : Delivery) → is_granted (grant d) ≡ true → grant d ≡ none → ⊥
      granted_not_none d h e = true-false h (ap is_granted e)

  -- Under the invariant.
  module _ (v : Inv (view t)) where
    -- No earlier row of the subscriber is unfinished.
    not_behind-first :
        (d e : Delivery)
        → is_behind t d ≡ false
        → Memᴰ e t.deliveries
        → d.subscriber_id ≡ e.subscriber_id
        → is_unfinished e.status ≡ true
        → d.sequence ≤ e.sequence
    unfolding is_behind
    not_behind-first d e h m q u =
        let off : t.disable_hol ≡ false = v.hol_on in
        let none_before : exists_row
              (λ e.
                str_eq e.subscriber_id d.subscriber_id
                && ltb e.sequence d.sequence
                && is_unfinished e.status)
              t.deliveries
            ≡ false =
          rw off at h in
        let apart = exists_row-false _ t.deliveries none_before m in
        ground (arith, eq_iff e.subscriber_id d.subscriber_id)

    claim_as-Same : (d : Delivery) (g : Option ℕ) → Same d (claim_as owner now d g)
    claim_as-Same d none = Same-refl d
    claim_as-Same d (some g) = record { id = refl; subscriber_id = refl; sequence = refl }

    eligible-awake :
        (d : Delivery) → is_suspended t d ≡ false → suspended (view t) d.subscriber_id ≡ false
    unfolding is_suspended
    eligible-awake d h = ground (arith, v.gate_on)

    granted-Taken :
        (d : Delivery) (g : Option ℕ)
        → is_eligible t now d ≡ true
        → is_granted g ≡ true
        → Taken (view t) d (claim_as owner now d g)
    granted-Taken d none h a = cc
    granted-Taken d (some g) h a = record {
      same = claim_as-Same d (some g);
      was_pending = ground arith;
      flies = refl;
      awake = eligible-awake d (ground arith);
      first = λ e. not_behind-first d e (ground arith);
    }

    candidate-Taken : (d : Delivery) → Memᴰ d cs → Taken (view t) d (claim_as owner now d (grant d))
    candidate-Taken d m =
        let (l, h, free) = mem-candidates d m in
        granted-Taken d (grant d) (ground arith) (ground arith)

    abbrev chosen : List String
    chosen = map (λ (d : Delivery). d.id) cs

    -- A row of the table whose key was chosen is the candidate of that key.
    chosen-mem : (d : Delivery) → Memᴰ d t.deliveries → contains chosen d.id ≡ true → Memᴰ d cs
    chosen-mem d m h =
        let (c, n, p) = Memᴰ.of_map (λ (d : Delivery). d.id) cs (contains-mem chosen h) in
        subst (λ x. Memᴰ x cs) (v.ids c d (mem-candidates c n).0 m p) n

    abbrev taken : Delivery → Delivery
    taken d = if contains chosen d.id then claim_as owner now d (grant d) else d

    taken-Same : (d : Delivery) → Same d (taken d)
    taken-Same d = elim (Bool-cases (contains chosen d.id)) [
      | inl k ↦ rw k (claim_as-Same d (grant d))
      | inr k ↦ rw k (Same-refl d)
    ]

    pub run_claim-Takes :
        let r = run_claim db now owner grant limit t in Takes (view t) (view r.0) r.1
    unfolding run_claim
    run_claim-Takes = record {
      g = taken;
      image = map-Image taken t.deliveries taken-Same;
      moved = λ d m. elim (Bool-cases (contains chosen d.id)) [
        | inl k ↦ rw k (inr (candidate-Taken d (chosen-mem d m k)))
        | inr k ↦ rw k (inl refl)
      ];
      returned = λ o m.
          let (d, n, p) = run_claim-of o m in
          (
            d,
            (mem-candidates d n).0,
            subst (λ x. Taken (view t) d x) (sym p) (candidate-Taken d n),
          );
      suspension = λ x. refl;
      counters = λ x. refl;
      hol = refl;
      gate = refl;
    }

    pub run_claim-Claims :
        (h : List Delivery)
        → Past h (view t)
        → Claims h
            (view t)
            (view (run_claim db now owner grant limit t).0)
            (rows_of (returned db (run_claim db now owner grant limit t)).1)
    run_claim-Claims h p =
        let r = run_claim db now owner grant limit t in
        let lost = Takes-forget (view t) (view r.0) r.1 run_claim-Takes in
        if_both (λ (x : Result (List Delivery)). Claims h (view t) (view r.0) (rows_of x))
          db.loses_answer _ _ (Takes-Claims (view t) (view r.0) [] v lost h p)
          (Takes-Claims (view t) (view r.0) r.1 v run_claim-Takes h p)

-- What Claim keeps, however it ends.
abbrev pub Pays : List Delivery → PgStore → PgStore × Result (List Delivery) → Type 0
Pays h t x = Claims h (view t) (view x.0) (rows_of x.1)

unchanged-Claims :
    (t : PgStore) (h : List Delivery)
    → Inv (view t)
    → Past h (view t)
    → Claims h (view t) (view t) []
unchanged-Claims t h v p = Claims-none h (view t) (view t) v p (Settle-refl (view t))

module _ (db : Db) (now : Time) (owner : String) (generation : ℕ) (partitions : List ℕ) (limit : ℕ)
    (t : PgStore) (h : List Delivery) (v : Inv (view t)) (p : Past h (view t)) where
  if_ok-Pays :
      (r : Result (Unit {0})) (x : PgStore × Result (List Delivery))
      → Pays h t x
      → Pays h t (if_ok t r x)
  if_ok-Pays (err e) x k = unchanged-Claims t h v p
  if_ok-Pays (ok u) x k = k

  claim_owned-Pays : (node : Option String) → Pays h t (claim_owned db now owner limit t node)
  claim_owned-Pays none = unchanged-Claims t h v p
  claim_owned-Pays (some node) = if_both (Pays h t) db.fails_later _ _ (unchanged-Claims t h v p) (
      if_ok-Pays (check_ownership_metadata t) _
        (run_claim-Claims db now owner (grant_owned t node) limit t v h p))

  claim_refreshed-Pays : Pays h t (claim_refreshed db now owner generation partitions limit t)
  claim_refreshed-Pays =
      if_both (Pays h t) t.distributed_ownership _ _
        (claim_owned-Pays (parse_distributed_owner owner))
        (if_both (Pays h t) (is_empty partitions) _ _ (unchanged-Claims t h v p) (
          if_both (Pays h t) db.fails_later _ _ (unchanged-Claims t h v p)
            (run_claim-Claims db now owner (grant_listed partitions generation) limit t v h p)))

pub claim-Pays :
    (db : Db) (ctx : Context) (now : Time) (owner : String) (generation : ℕ) (partitions : List ℕ)
    (limit : ℤ) (t : PgStore) (h : List Delivery)
    → Inv (view t)
    → Past h (view t)
    → Pays h t (claim db ctx now owner generation partitions limit t)
unfolding claim refresh
claim-Pays db done now owner generation partitions limit t h v p = unchanged-Claims t h v p
claim-Pays db live now owner generation partitions limit t h v p =
    let same = unchanged-Claims t h v p in
    if_both (Pays h t) (str_eq owner "") _ _ same (
      if_both (Pays h t) (generation == 0) _ _ same (
        if_both (Pays h t) (le_zero limit) _ _ same (
          if_both (Pays h t) db.fails _ _ same (
            claim_refreshed-Pays db now owner generation partitions (to_nat limit) (refresh t) h v
              p))))
