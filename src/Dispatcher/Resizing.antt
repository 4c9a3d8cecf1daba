-- ===== src/Dispatcher/Resizing.antt =====
-- Start and Resize of fold.go: who claims which partition, and that each owner has a worker.
use mathlib.Core.List.Memᴰ
use sharathfold.Prelude.{
  ℕ, suc, ◌+◌, ◌-◌, ◌%◌, ◌≤◌, ◌<◌, true, false, List, [], ◌∷◌, ◌++◌, map, Memᴰ, ◌≡◌, ◌≢◌, refl, ap,
  ◌∙◌, subst, arith, inl, inr, none, ltb, ◌==◌, Bool-cases, ℤ, pos,
}
use sharathfold.Store.{Context, live}
use sharathfold.Backoff.{uint64_mod}
use sharathfold.Hash.{or_default_partitions}
use sharathfold.Assign.{range_from}
use sharathfold.Assign.Cover.{range_from-mem}
use sharathfold.Partition.{build_ownership, claim_owner_id}
use sharathfold.Partition.Exclusive.{Shared, full_space_exclusive}
use sharathfold.Dispatcher.{Dispatcher, FoldError, returns, fails, grown, tokens, resize}

map-mem {ℓ} :
    {A : Type ℓ} {B : Type ℓ} (f : A → B) {x : A} (xs : List A) → Memᴰ x xs → Memᴰ (f x) (map f xs)
map-mem f [] m = absurd (Memᴰ.not-nil m)
map-mem f (y ∷ xs) m = elim (Memᴰ.cases_cons m) [
  | inl e ↦ Memᴰ.head (ap f e)
  | inr n ↦ Memᴰ.tail (map-mem f xs n)
]

module _ {S : Type 0} where
  -- A started dispatcher over the whole hash space, each of whose owners has a worker.
  pub record Manned (d : Dispatcher S) : Type 0 where
    pub is_open : d.closed ≡ false
    pub is_started : d.started ≡ true
    pub exclusive : d.own.overlap ≡ false
    pub full : d.own.narrowed ≡ false
    pub some_partitions : 0 < d.own.partitions
    pub manned :
        (w : ℕ) → w < d.workers → Memᴰ (claim_owner_id d.node_id d.incarnation_id w) d.spawned

  pub tokens-mem :
      (d : Dispatcher S) (n from w : ℕ)
      → from ≤ w
      → w < from + n
      → Memᴰ (claim_owner_id d.node_id d.incarnation_id w) (tokens d n from)
  unfolding tokens
  tokens-mem d n from w a b =
      map-mem (claim_owner_id d.node_id d.incarnation_id) (range_from n from)
        (range_from-mem n from w a b)

  -- The workers of the old count are there, and those beyond it are spawned.
  manned-grown :
      (d : Dispatcher S) (n w : ℕ)
      → Manned d
      → w < n
      → Memᴰ
          (claim_owner_id d.node_id d.incarnation_id w)
          (d.spawned ++ tokens d (n - d.workers) d.workers)
  manned-grown d n w h b = elim (Bool-cases (ltb w d.workers)) [
    | inl k ↦ Memᴰ.append_left (tokens d (n - d.workers) d.workers) (h.manned w (ground arith))
    | inr k ↦
        Memᴰ.append_right d.spawned
          (tokens-mem d (n - d.workers) d.workers w (ground arith) (ground arith))
  ]

  -- What a resize to n workers leaves of the dispatcher d.
  pub record Resized (d e : Dispatcher S) (n : ℕ) : Type 0 where
    pub manned : Manned e
    pub workers : e.workers ≡ n
    pub store : e.store ≡ d.store
    pub partitions : e.own.partitions ≡ d.own.partitions
    pub generation : e.generation ≡ (d.generation + 1) % uint64_mod
    pub shared : Shared d.own.partitions n d.node_id d.incarnation_id e.own

  resize_guards :
      (d : Dispatcher S) (k : ℕ)
      → Manned d
      → suc k ≢ d.workers
      → resize live (pos (suc k)) d
        ≡ grown d (suc k) (
            build_ownership
              (pos (suc k))
              (pos d.own.partitions)
              false
              none
              d.node_id
              d.incarnation_id)
  unfolding resize
  resize_guards d k h ne =
      let differs : (suc k == d.workers) ≡ false = ground arith in
      rw (h.is_open, h.is_started, h.exclusive, h.full, differs) refl

  -- A resize of a started dispatcher over the whole hash space to another number of workers, at
  -- least one, succeeds: the generation is bumped, the store and the number of partitions stay,
  -- worker w claims exactly the partitions that are w modulo the new number, and each worker of the
  -- new number has been spawned.
  pub resize_shares :
      (d : Dispatcher S) (k : ℕ)
      → Manned d
      → suc k ≢ d.workers
      → (e : Dispatcher S) × (resize live (pos (suc k)) d ≡ (e, returns tt)) × Resized d e (suc k)
  resize_shares d k h ne =
      let (o, built, total, overlap, narrowed, shared) =
        full_space_exclusive k (pos d.own.partitions) d.node_id d.incarnation_id in
      let same : or_default_partitions (pos d.own.partitions) ≡ d.own.partitions =
        ground (arith, h.some_partitions) in
      (
        _,
        resize_guards d k h ne ∙ ap (grown d (suc k)) built,
        record {
          manned = record {
            is_open = h.is_open;
            is_started = h.is_started;
            exclusive = overlap;
            full = narrowed;
            some_partitions = omega (arith, total, same, h.some_partitions);
            manned = λ w b. manned-grown d (suc k) w h b;
          };
          workers = refl;
          store = refl;
          partitions = total ∙ same;
          generation = refl;
          shared = subst (λ n. Shared n (suc k) d.node_id d.incarnation_id o) same shared;
        },
      )

  -- A resize that fails changes nothing, whatever the dispatcher.
  pub resize_failed :
      (ctx : Context) (workers : ℤ) (d : Dispatcher S) (e : FoldError)
      → (resize ctx workers d).1 ≡ fails e
      → (resize ctx workers d).0 ≡ d
  unfolding resize
  resize_failed ctx workers d e h = ground arith
