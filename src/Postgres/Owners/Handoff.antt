-- ===== src/Postgres/Owners/Handoff.antt =====
-- A planned handoff of store/postgres/ownership.go: BeginHandoff stops the claims of a partition, and
-- CompleteHandoff waits until its rows have landed.
use sharathfold.Prelude.{
  ℕ, ◌+◌, arith, String, true, false, ◌&&◌, ◌||◌, List, Memᴰ, Option, none, some, ◌≡◌, ◌≢◌, refl,
  sym, ap, ◌∙◌, subst, if_both, if_split, str_eq, ℤ,
}
use sharathfold.Store.{Delivery, in_flight, Context, Time, ok}
use sharathfold.Postgres.Keeps.Rows.{exists_row-false}
use sharathfold.Postgres.State.{
  PgStore, OwnerRow, OwnerState, active, draining, Db, is_active, find_owner, refresh, is_empty,
  exists_row,
}
use sharathfold.Prelude.{has_slash}
use sharathfold.Postgres.Claim.{claim}
use sharathfold.Postgres.Ownership.{
  Owned, in_flight_on, start_draining, hand_over, is_none, begin_row, checked_begin, begin_handoff,
  complete_to, complete_row, complete_found, complete_handoff,
}
use sharathfold.Postgres.Owners.Steps.{found-updated}
use sharathfold.Postgres.Owners.Takeover.{guarded-Passed}
use sharathfold.Postgres.Owners.Fence.{claim-Fenced}

-- The partition drains.
abbrev Drains : ℕ → PgStore → PgStore → Type 0
Drains p t u =
    ((o : OwnerRow) × (find_owner p u.partition_owners ≡ some o) × (o.state ≡ draining))
    × (u.distributed_ownership ≡ t.distributed_ownership)
    × (u.bypass_draining_claim_gate ≡ t.bypass_draining_claim_gate)

abbrev Begun : ℕ → PgStore → PgStore × Owned (Unit {0}) → Type 0
Begun p t x = x.1 ≡ Owned.ok tt → Drains p t x.0

begin_row-Begun :
    (p : ℕ) (from to : String) (t : PgStore) (r : Option OwnerRow)
    → find_owner p t.partition_owners ≡ r
    → Begun p t (begin_row p from to t r)
begin_row-Begun p from to t none e = λ h. cc
begin_row-Begun p from to t (some o) e =
    if_both (Begun p t) (str_eq o.owner_node from && is_active o.state && is_none o.next_owner) _ _
      (λ _.
        let found = found-updated p (start_draining to) t.partition_owners o (λ x. refl) e in
        ((start_draining to o, found, refl), refl, refl))
      (λ h. cc)

checked_begin-Begun :
    (db : Db) (p : ℕ) (from to : String) (t : PgStore) → Begun p t (checked_begin db p from to t)
checked_begin-Begun db p from to t =
    if_both (Begun p t) (str_eq from "" || str_eq to "") _ _ (λ h. cc)
      (if_both (Begun p t) (has_slash from || has_slash to) _ _ (λ h. cc)
        (if_both (Begun p t) (str_eq from to) _ _ (λ h. cc)
          (if_both (Begun p t) db.fails_later _ _ (λ h. cc)
            (begin_row-Begun p from to t (find_owner p t.partition_owners) refl))))

-- A process that has seen distributed ownership still sees it.
refresh-on :
    (t : PgStore) → t.distributed_ownership ≡ true → (refresh t).distributed_ownership ≡ true
unfolding refresh
refresh-on t h = if_both (λ b. b ≡ true) (is_empty t.partition_owners) _ _ h refl

-- Once BeginHandoff has gone through, the next Claim, by any worker, hands out no row of the partition.
-- The gate for draining partitions is on.
pub begin_handoff_stops_claims :
    (db : Db) (ctx : Context) (p : ℕ) (from to : String) (t : PgStore) (db' : Db) (ctx' : Context)
    (now : Time) (owner : String) (generation : ℕ) (partitions : List ℕ) (limit : ℤ)
    (out : List Delivery) (d : Delivery)
    → t.bypass_draining_claim_gate ≡ false
    → (begin_handoff db ctx p from to t).1 ≡ Owned.ok tt
    → let u = (begin_handoff db ctx p from to t).0 in
      (claim db' ctx' now owner generation partitions limit u).1 ≡ ok out
      → Memᴰ d out
      → d.partition ≢ p
unfolding begin_handoff refresh
begin_handoff_stops_claims db ctx p from to t db' ctx' now owner generation partitions limit out d
      gate h paid m at_p =
    let body = checked_begin db p from to in
    let k = guarded-Passed db ctx t body h in
    let s = refresh t in
    let ((o, found, drains), dist, bypass) =
      subst (Drains p s) (ap (λ x. x.0) (sym k.result))
        (checked_begin-Begun db p from to s (ap (λ x. x.1) (sym k.result) ∙ h)) in
    let u = (begin_handoff db ctx p from to t).0 in
    let (node, po, parsed, owned, mine, at_rest, same_generation, same_owner, free) =
      claim-Fenced db' ctx' now owner generation partitions limit u out d
        (refresh-on u (dist ∙ k.distributed)) (bypass ∙ gate) paid m in
    let q : some po ≡ some o = sym owned ∙ ap (λ n. find_owner n u.partition_owners) at_p ∙ found in
    let same : po ≡ o = cc in
    let bad : active ≡ draining = sym at_rest ∙ ap (λ (o : OwnerRow). o.state) same ∙ drains in cc

-- What the guard of CompleteHandoff rules out.
none_in_flight :
    (p : ℕ) (ds : List Delivery)
    → exists_row (in_flight_on p) ds ≡ false
    → (d : Delivery) → Memᴰ d ds
    → ¬ ((d.partition ≡ p) × (d.status ≡ in_flight))
none_in_flight p ds clear d m (at_p, taken) =
    let idle : in_flight_on p d ≡ false = exists_row-false (in_flight_on p) ds clear m in
    ground (arith, idle)

-- What CompleteHandoff found and left.
abbrev pub HandedOff : ℕ → PgStore → PgStore → Type 0
HandedOff p t u =
    (o : OwnerRow) × (to : String) × (find_owner p t.partition_owners ≡ some o)
    × (o.state ≡ draining)
    × (o.next_owner ≡ some to)
    × ((d : Delivery) → Memᴰ d t.deliveries → ¬ ((d.partition ≡ p) × (d.status ≡ in_flight)))
    × (find_owner p u.partition_owners
        ≡ some (record o {
          owner_node = to;
          generation = o.generation + 1;
          state = active;
          next_owner = none;
        }))
    × (u.deliveries ≡ t.deliveries)

abbrev Completed : ℕ → PgStore → PgStore × Owned (Unit {0}) → Type 0
Completed p t x = x.1 ≡ Owned.ok tt → HandedOff p t x.0

complete_to-Completed :
    (p : ℕ) (t : PgStore) (o : OwnerRow) (st : OwnerState) (next : Option String)
    → find_owner p t.partition_owners ≡ some o
    → o.state ≡ st
    → o.next_owner ≡ next
    → Completed p t (complete_to p t st next)
complete_to-Completed p t o active next e a n = λ h. cc
complete_to-Completed p t o draining none e a n = λ h. cc
complete_to-Completed p t o draining (some to) e a n =
    if_split (Completed p t) (exists_row (in_flight_on p) t.deliveries) _ _ (λ _ h. cc)
      λ clear _.
        let found = found-updated p (hand_over to) t.partition_owners o (λ x. refl) e in
        (o, to, e, a, n, none_in_flight p t.deliveries clear, found, refl)

complete_row-Completed :
    (p : ℕ) (t : PgStore) (r : Option OwnerRow)
    → find_owner p t.partition_owners ≡ r
    → Completed p t (complete_row p t r)
complete_row-Completed p t none e = λ h. cc
complete_row-Completed p t (some o) e = complete_to-Completed p t o o.state o.next_owner e refl refl

-- A CompleteHandoff that goes through found the partition draining and none of its rows in flight. It
-- leaves the deliveries, and makes the next owner the owner, at rest and under the next generation.
pub complete_handoff-HandedOff :
    (db : Db) (ctx : Context) (p : ℕ) (t : PgStore)
    → (complete_handoff db ctx p t).1 ≡ Owned.ok tt
    → HandedOff p t (complete_handoff db ctx p t).0
unfolding complete_handoff refresh
complete_handoff-HandedOff db ctx p t h =
    let k = guarded-Passed db ctx t (complete_found db p) h in
    let s = refresh t in
    subst (HandedOff p t) (ap (λ x. x.0) (sym k.result)) (
      if_both (Completed p s) db.fails_later _ _ (λ e. cc)
        (complete_row-Completed p s (find_owner p s.partition_owners) refl)
        (ap (λ x. x.1) (sym k.result) ∙ h))
