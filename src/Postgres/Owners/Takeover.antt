-- ===== src/Postgres/Owners/Takeover.antt =====
-- ForceTakeover of store/postgres/ownership.go: how it goes through.
pub mod Again
pub mod Reset
use mathlib.Core.List.Memᴰ
use sharathfold.Prelude.{
  ℕ, ◌+◌, ◌%◌, ◌<◌, String, Bool, true, false, not, ◌&&◌, ◌||◌, List, [], ◌∷◌, Memᴰ, Option, none,
  some, ◌≡◌, refl, sym, ap, ◌∙◌, subst, arith, ◌⊎◌, inl, inr, if◌then◌else◌, if_split, ◌==◌, ==_iff,
  str_eq, str_eq→eq, eq_refl, Bool-cases, Option-cases, true-false,
}
use sharathfold.Store.{Delivery, Context, live, done, Result, Status, is_in_flight}
use sharathfold.Backoff.{uint64_mod}
use sharathfold.Memory.Invariant.{Inv}
use sharathfold.Postgres.State.{
  PgStore, OwnerRow, OwnerState, active, draining, Db, is_active, signal, view, find_owner, refresh,
  is_empty, exists_row,
}
use sharathfold.Prelude.{has_slash}
use sharathfold.Postgres.Marks.{update_where, to_pending, is_claimed, mark}
use sharathfold.Postgres.Ownership.{
  OwnershipError, Owned, guarded, in_flight_on, hand_over, abort_drain, write_owner, update_owner,
  takeover_row, checked_takeover, force_takeover, reset_in_flight,
}
use sharathfold.Postgres.Owners.Steps.{find_owner-map, at_owner, mem-find_owner}
use sharathfold.Postgres.Keeps.Rows.{exists_row-false}

-- What a guarded method that goes through has passed.
pub record Passed (db : Db) (ctx : Context) (t : PgStore)
    (body : PgStore → PgStore × Owned (Unit {0})) : Type 0 where
  pub ctx_live : ctx ≡ live
  pub db_up : db.fails ≡ false
  pub distributed : (refresh t).distributed_ownership ≡ true
  pub result : guarded db ctx t body ≡ body (refresh t)

pub guarded-Passed :
    (db : Db) (ctx : Context) (t : PgStore) (body : PgStore → PgStore × Owned (Unit {0}))
    → (guarded db ctx t body).1 ≡ Owned.ok tt
    → Passed db ctx t body
guarded-Passed db done t body h = cc
guarded-Passed db live t body h = elim (Bool-cases db.fails) [
  | inl k ↦ let q : Owned.err OwnershipError.database_down ≡ Owned.ok tt = rw k at h in cc
  | inr k ↦ elim (Bool-cases (refresh t).distributed_ownership) [
    | inr l ↦
        let q : Owned.err OwnershipError.distributed_required ≡ Owned.ok tt = rw (k, l) at h in cc
    | inl l ↦ record { ctx_live = refl; db_up = k; distributed = l; result = rw (k, l) refl }
  ]
]

-- How a takeover that is past its checks goes through, and the store that it leaves.
pub data Took (p : ℕ) (to : String) (expected : ℕ) (t : PgStore) : PgStore → Type 0 where
  aborted :
      (o : OwnerRow)
      → find_owner p t.partition_owners ≡ some o
      → str_eq o.owner_node to ≡ true
      → (o.generation == expected) ≡ true
      → Took p to expected t (signal (write_owner p abort_drain t))
  kept :
      (o : OwnerRow)
      → find_owner p t.partition_owners ≡ some o
      → str_eq o.owner_node to ≡ true
      → is_active o.state ≡ true
      → (o.generation == expected || o.generation == (expected + 1) % uint64_mod) ≡ true
      → Took p to expected t t
  seized :
      (o : OwnerRow)
      → find_owner p t.partition_owners ≡ some o
      → str_eq o.owner_node to ≡ false
      → (o.generation == expected) ≡ true
      → Took p to expected t (signal (reset_in_flight p (write_owner p (hand_over to) t)))

-- What holds of a result that is no error.
abbrev Goes : ℕ → String → ℕ → PgStore → PgStore × Owned (Unit {0}) → Type 0
Goes p to expected t x = x.1 ≡ Owned.ok tt → Took p to expected t x.0

stopped :
    (p : ℕ) (to : String) (expected : ℕ) (t : PgStore) (e : OwnershipError)
    → Goes p to expected t (t, Owned.err e)
stopped p to expected t e h = cc

and_true : (a b : Bool) → (a && b) ≡ true → (a ≡ true) × (b ≡ true)
and_true a b h = ground arith

takeover_row-Goes :
    (p : ℕ) (to : String) (expected : ℕ) (t : PgStore) (r : Option OwnerRow)
    → find_owner p t.partition_owners ≡ r
    → Goes p to expected t (takeover_row p to expected t r)
takeover_row-Goes p to expected t none e = stopped p to expected t _
takeover_row-Goes p to expected t (some o) e =
    let Ok = Goes p to expected t in
    if_split Ok (str_eq o.owner_node to) _ _
      (λ mine.
        if_split Ok (not (is_active o.state) && o.generation == expected) _ _
          (λ d _. Took.aborted o e mine (and_true _ _ d).1)
          (λ _.
            if_split Ok
              (is_active o.state
                && (o.generation == expected || o.generation == (expected + 1) % uint64_mod))
              _ _ (λ a _. let (x, y) = and_true _ _ a in Took.kept o e mine x y)
              (λ _. stopped p to expected t _)))
      (λ other.
        if_split Ok (not (o.generation == expected)) _ _ (λ _. stopped p to expected t _)
          (λ same _. Took.seized o e other (ground arith)))

-- The three checks have passed, too.
pub record Checked (db : Db) (p : ℕ) (to : String) (expected : ℕ) (t u : PgStore) : Type 0 where
  pub has_node : str_eq to "" ≡ false
  pub no_slash : has_slash to ≡ false
  pub has_generation : (expected == 0) ≡ false
  pub db_stays_up : db.fails_later ≡ false
  pub took : Took p to expected t u

pub checked_takeover-Checked :
    (db : Db) (p : ℕ) (to : String) (expected : ℕ) (t : PgStore)
    → (checked_takeover db p to expected t).1 ≡ Owned.ok tt
    → Checked db p to expected t (checked_takeover db p to expected t).0
checked_takeover-Checked db p to expected t =
    let Ok : PgStore × Owned (Unit {0}) → Type 0 =
      λ x. x.1 ≡ Owned.ok tt → Checked db p to expected t x.0 in
    if_split Ok (str_eq to "") _ _ (λ _ h. cc)
      λ a.
        if_split Ok (has_slash to) _ _ (λ _ h. cc)
          λ b.
            if_split Ok (expected == 0) _ _ (λ _ h. cc)
              λ c.
                if_split Ok db.fails_later _ _ (λ _ h. cc)
                  λ up h. record {
                    has_node = a;
                    no_slash = b;
                    has_generation = c;
                    db_stays_up = up;
                    took =
                        takeover_row-Goes p to expected t (find_owner p t.partition_owners) refl h;
                  }
