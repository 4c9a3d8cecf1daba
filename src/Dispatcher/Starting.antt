-- ===== src/Dispatcher/Starting.antt =====
-- New and then Start of fold.go give a dispatcher whose partitions are all claimed by running workers.
use sharathfold.Prelude.{
  has_slash, ℕ, zero, suc, String, false, ◌≡◌, refl, sym, ap, ◌∙◌, subst, arith, inl, inr, none,
  Bool-cases, ℤ, pos, negsuc, le_zero, if◌then◌else◌,
}
use sharathfold.Store.{live, Time, Result}
use sharathfold.Store as stores
use sharathfold.Backoff.{or_default}
use sharathfold.Hash.{or_default_partitions, or_default_partitions-pos}
use sharathfold.Partition.{Ownership, ok, build_ownership}
use sharathfold.Partition.Exclusive.{Shared, full_space_exclusive}
use sharathfold.Dispatcher.{
  Dispatcher, Config, Host, returns, launch, start, effective_stale_age, new_dispatcher,
  dispatcher_of, is_set, with_ownership,
}
use sharathfold.Dispatcher.Resizing.{Manned, tokens-mem}

or_default-suc : (d : ℤ) (fallback : ℕ) → (k : ℕ) × (or_default d (suc fallback) ≡ suc k)
or_default-suc (pos zero) fallback = (fallback, refl)
or_default-suc (pos (suc n)) fallback = (n, refl)
or_default-suc (negsuc n) fallback = (fallback, refl)

-- The ownership map of a dispatcher over the whole hash space.
whole_space :
    (workers partitions : ℤ) (node_id incarnation : String)
    → let n = or_default workers 1 in
      let total = or_default_partitions partitions in
      (o : Ownership) × (build_ownership (pos n) (pos total) false none node_id incarnation ≡ ok o)
      × (o.partitions ≡ total)
      × (o.overlap ≡ false)
      × (o.narrowed ≡ false)
      × Shared total n node_id incarnation o
whole_space workers partitions node_id incarnation =
    let total = or_default_partitions partitions in
    let (k, e) = or_default-suc workers 0 in
    let same : or_default_partitions (pos total) ≡ total =
      ground (arith, or_default_partitions-pos partitions) in
    let (o, built, a, b, c, shared) = full_space_exclusive k (pos total) node_id incarnation in
    (
      o,
      ap (λ n. build_ownership (pos n) (pos total) false none node_id incarnation) e ∙ built,
      a ∙ same,
      b,
      c,
      subst (λ n. Shared total n node_id incarnation o) (sym e)
          (subst (λ n. Shared n (suc k) node_id incarnation o) same shared),
    )

module _ {S : Type 0} (h : Host S) (now : Time) where
  -- RecoverStale of the store succeeds on a live context.
  abbrev pub Recovers : Type 0
  Recovers =
      (age : ℤ) (s : S)
      → (t : S) × (n : ℕ) × (h.api.recover_stale live now age s ≡ (t, stores.ok n))

  start_launches :
      (d : Dispatcher S)
      → Recovers
      → d.closed ≡ false
      → d.started ≡ false
      → (t : S) × (n : ℕ) × (start h.api live now d ≡ launch d (t, stores.ok n))
  unfolding start
  start_launches d recovers a b =
      let age = effective_stale_age d.stale_claim_age in
      let (t, n, r) = recovers age d.store in
      elim (Bool-cases (le_zero age)) [
        | inl k ↦ (d.store, 0, rw (a, b, k) refl)
        | inr k ↦ (t, n, rw (a, b, k, r) refl)
      ]

  abbrev incarnation : Config → String → String
  incarnation c random = if is_set c.node_id then random else ""

  new_dispatcher_guards :
      (c : Config) (random : String) (s : S)
      → has_slash c.node_id ≡ false
      → h.distributed s ≡ is_set c.node_id
      → c.overlap_partitions ≡ false
      → c.partitions_claim ≡ none
      → new_dispatcher h c random s
        ≡ with_ownership c (incarnation c random) (h.prepare c s) (
            build_ownership
              (pos (or_default c.workers 1))
              (pos (or_default_partitions c.partitions))
              false
              none
              c.node_id
              (incarnation c random))
  unfolding new_dispatcher
  new_dispatcher_guards c random s slash named exclusive full =
      elim (Bool-cases (is_set c.node_id)) [
        | inl k ↦ rw (slash, named, exclusive, full, k) refl
        | inr k ↦ rw (slash, named, exclusive, full, k) refl
      ]

  -- A dispatcher that is made and started over the whole hash space, with exclusive ownership and a
  -- node name exactly if the store enforces distributed ownership, on a store whose RecoverStale
  -- succeeds, has the configured number of workers, or one where that is not positive. Its workers
  -- share the partitions out, each partition to the worker that is its index modulo their number,
  -- and each of them has been spawned.
  pub start-Manned :
      (c : Config) (random : String) (s : S)
      → Recovers
      → has_slash c.node_id ≡ false
      → h.distributed s ≡ is_set c.node_id
      → c.overlap_partitions ≡ false
      → c.partitions_claim ≡ none
      → (d e : Dispatcher S) × (new_dispatcher h c random s ≡ returns d)
        × (start h.api live now d ≡ (e, returns tt))
        × Manned e
        × (e.workers ≡ or_default c.workers 1)
        × Shared e.own.partitions e.workers e.node_id e.incarnation_id e.own
  start-Manned c random s recovers slash named exclusive full =
      let inc = incarnation c random in
      let (o, built, total, overlap, narrowed, shared) =
        whole_space c.workers c.partitions c.node_id inc in
      let d = dispatcher_of c inc (h.prepare c s) o in
      let (t, n, launched) = start_launches d recovers refl refl in
      (
        d,
        (launch d (t, stores.ok n)).0,
        new_dispatcher_guards c random s slash named exclusive full
            ∙ ap (with_ownership c inc (h.prepare c s)) built,
        launched,
        record {
          is_open = refl;
          is_started = refl;
          exclusive = overlap;
          full = narrowed;
          some_partitions = omega (arith, total, or_default_partitions-pos c.partitions);
          manned = λ w b. tokens-mem d d.workers 0 w (omega arith) (omega arith);
        },
        refl,
        subst (λ m. Shared m d.workers c.node_id inc o) (sym total) shared,
      )
