-- ===== src/Postgres/Owners/Takeover/Again.antt =====
-- A ForceTakeover that went through may be repeated.
use sharathfold.Prelude.{
  ℕ, ◌+◌, ◌%◌, ◌<◌, String, Bool, true, false, not, ◌||◌, some, ◌≡◌, refl, sym, subst, ap, ◌∙◌,
  arith, inl, inr, if◌then◌else◌, ◌==◌, str_eq, eq_refl, Bool-cases,
}
use sharathfold.Store.{Context, live}
use sharathfold.Backoff.{uint64_mod}
use sharathfold.Postgres.State.{PgStore, OwnerRow, Db, is_active, find_owner, refresh, is_empty}
use sharathfold.Postgres.Ownership.{
  OwnershipError, Owned, guarded, hand_over, abort_drain, takeover_row, checked_takeover,
  force_takeover, reset_in_flight,
}
use sharathfold.Postgres.Owners.Steps.{found-updated}
use sharathfold.Postgres.Owners.Takeover.{Took, Checked, guarded-Passed, checked_takeover-Checked}

-- The node owns the partition as after a takeover.
record Held (p : ℕ) (to : String) (expected : ℕ) (t : PgStore) : Type 0 where
  o : OwnerRow
  there : find_owner p t.partition_owners ≡ some o
  mine : str_eq o.owner_node to ≡ true
  at_rest : is_active o.state ≡ true
  generation : (o.generation == expected || o.generation == (expected + 1) % uint64_mod) ≡ true

Took-Held :
    (p : ℕ) (to : String) (expected : ℕ) (t u : PgStore)
    → expected + 1 < uint64_mod
    → Took p to expected t u
    → Held p to expected u
unfolding reset_in_flight
Took-Held p to expected t u small (Took.aborted o e mine same) = record {
  o = abort_drain o;
  there = found-updated p abort_drain t.partition_owners o (λ x. refl) e;
  mine = mine;
  at_rest = refl;
  generation = ground arith;
}
Took-Held p to expected t u small (Took.kept o e mine a g) = record {
  o = o;
  there = e;
  mine = mine;
  at_rest = a;
  generation = g;
}
Took-Held p to expected t u small (Took.seized o e other same) = record {
  o = hand_over to o;
  there = found-updated p (hand_over to) t.partition_owners o (λ x. refl) e;
  mine = eq_refl to;
  at_rest = refl;
  generation = next_generation o.generation expected small same;
}
  where
    next_generation :
        (g expected : ℕ)
        → expected + 1 < uint64_mod
        → (g == expected) ≡ true
        → (g + 1 == expected || g + 1 == (expected + 1) % uint64_mod) ≡ true
    next_generation g expected small same = ground arith

-- A takeover by the node that owns the partition changes nothing.
Held-takeover_row :
    (p : ℕ) (to : String) (expected : ℕ) (t : PgStore) (h : Held p to expected t)
    → takeover_row p to expected t (some h.o) ≡ (t, Owned.ok tt)
Held-takeover_row p to expected t h = rw (h.mine, h.at_rest, h.generation) refl

Checked-again :
    (db : Db) (p : ℕ) (to : String) (expected : ℕ) (t u : PgStore)
    → expected + 1 < uint64_mod
    → Checked db p to expected t u
    → checked_takeover db p to expected u ≡ (u, Owned.ok tt)
Checked-again db p to expected t u small c =
    let h = Took-Held p to expected t u small c.took in
    rw (c.has_node, c.no_slash, c.has_generation, c.db_stays_up, h.there)
      (Held-takeover_row p to expected u h)

-- The process has seen that ownership is distributed.
Took-distributed :
    (p : ℕ) (to : String) (expected : ℕ) (t u : PgStore)
    → Took p to expected t u
    → u.distributed_ownership ≡ t.distributed_ownership
unfolding reset_in_flight
Took-distributed p to expected t u (Took.aborted o e mine same) = refl
Took-distributed p to expected t u (Took.kept o e mine a g) = refl
Took-distributed p to expected t u (Took.seized o e other same) = refl

refresh-fixed : (t : PgStore) → t.distributed_ownership ≡ true → refresh t ≡ t
unfolding refresh
refresh-fixed t h = ap (λ b. record t { distributed_ownership = b }) flag
  where
    flag :
        (if is_empty t.partition_owners then t.distributed_ownership else true)
        ≡ t.distributed_ownership
    flag = elim (Bool-cases (is_empty t.partition_owners)) [
      | inl k ↦ rw k refl
      | inr k ↦ rw k (sym h)
    ]

on_else {ℓ} : {A : Type ℓ} (b : Bool) (x y : A) → b ≡ true → (if not b then x else y) ≡ y
on_else true x y h = refl
on_else false x y h = cc

-- The checks of a guarded method pass.
guarded-refreshed :
    (db : Db) (ctx : Context) (t : PgStore) (body : PgStore → PgStore × Owned (Unit {0}))
    → ctx ≡ live
    → db.fails ≡ false
    → t.distributed_ownership ≡ true
    → guarded db ctx t body ≡ body t
guarded-refreshed db ctx t body c up on =
    rw (c, up)
      (subst
        (λ (u : PgStore).
          (if not u.distributed_ownership
            then (u, Owned.err OwnershipError.distributed_required)
            else body u)
          ≡ body t)
        (sym (refresh-fixed t on)) (on_else t.distributed_ownership _ (body t) on))

-- A ForceTakeover that went through can be sent again with the same arguments, as after an answer that
-- was lost: it goes through again, and changes nothing. The generation is below 2^64 - 1.
pub force_takeover_again :
    (db : Db) (ctx : Context) (p : ℕ) (to : String) (expected : ℕ) (t : PgStore)
    → expected + 1 < uint64_mod
    → (force_takeover db ctx p to expected t).1 ≡ Owned.ok tt
    → let u = (force_takeover db ctx p to expected t).0 in
      force_takeover db ctx p to expected u ≡ (u, Owned.ok tt)
unfolding force_takeover
force_takeover_again db ctx p to expected t small h =
    let body = checked_takeover db p to expected in
    let k = guarded-Passed db ctx t body h in
    let ok_body : (body (refresh t)).1 ≡ Owned.ok tt = ap (λ x. x.1) (sym k.result) ∙ h in
    let c = checked_takeover-Checked db p to expected (refresh t) ok_body in
    let u = (body (refresh t)).0 in
    let on = Took-distributed p to expected (refresh t) u c.took ∙ k.distributed in
    rw k.result (
      guarded-refreshed db ctx u body k.ctx_live k.db_up on
      ∙ Checked-again db p to expected (refresh t) u small c)
