-- ===== src/Postgres/Owners/Fence.antt =====
-- Claim of store/postgres/postgres.go under distributed ownership: only the durable owner of a partition
-- is handed its rows, under the durable generation.
use mathlib.Core.List.Memᴰ
use sharathfold.Prelude.{
  ℕ, String, true, false, List, [], Memᴰ, Option, none, some, ◌≡◌, refl, ap, ◌∙◌, arith, inl, inr,
  if_both, if_split, true-false, ◌==◌, str_eq, str_eq→eq, ℤ, le_zero, to_nat, Bool-cases,
}
use sharathfold.Store.{Delivery, Context, Time, live, done, Result, ok, err, Error, database_failed}
use sharathfold.Postgres.State.{
  PgStore, OwnerRow, OwnerState, active, draining, Db, is_active, find_owner, refresh,
}
use sharathfold.Tokens.{parse_distributed_owner}
use sharathfold.Postgres.Claim.{
  grant_of, grant_owned, if_ok, claim_owned, claim_refreshed, claim, check_ownership_metadata,
  run_claim, returned,
}
use sharathfold.Postgres.Keeps.Claim.{run_claim-granted}

-- The row `o` was handed to a node that owns its partition, under the owner's generation.
abbrev pub Fenced : Db → PgStore → String → Delivery → Type 0
Fenced db t owner o =
    (node : String) × (po : OwnerRow) × (parse_distributed_owner owner ≡ some node)
    × (find_owner o.partition t.partition_owners ≡ some po)
    × (po.owner_node ≡ node)
    × (po.state ≡ active)
    × (o.generation ≡ po.generation)
    × (o.owner ≡ owner)
    × (db.locked o.id ≡ false)

active-of : (st : OwnerState) → is_active st ≡ true → st ≡ active
active-of active h = refl
active-of draining h = cc

-- Why a row was granted.
grant_of-some :
    (t : PgStore) (node : String) (r : Option OwnerRow) (g : ℕ)
    → t.bypass_draining_claim_gate ≡ false
    → grant_of t node r ≡ some g
    → (po : OwnerRow) × (r ≡ some po)
      × (po.owner_node ≡ node)
      × (po.state ≡ active)
      × (g ≡ po.generation)
grant_of-some t node none g b h = cc
grant_of-some t node (some po) g b h = elim (Bool-cases (str_eq po.owner_node node)) [
  | inr k ↦ let q : none ≡ some g = rw k at h in cc
  | inl k ↦ elim (Bool-cases (is_active po.state)) [
    | inr l ↦ let q : none ≡ some g = rw (k, b, l) at h in cc
    | inl l ↦
        let q : some po.generation ≡ some g = rw (k, b, l) at h in
        (po, refl, str_eq→eq po.owner_node node k, active-of po.state l, cc)
  ]
]

-- What a claim pays out.
abbrev Fences : Db → PgStore → String → PgStore × Result (List Delivery) → Type 0
Fences db t owner x =
    (out : List Delivery) → x.1 ≡ ok out → (o : Delivery) → Memᴰ o out → Fenced db t owner o

-- An error pays out nothing, and neither does an empty list.
refused : (db : Db) (t u : PgStore) (owner : String) (x : Error) → Fences db t owner (u, err x)
refused db t u owner x out h = cc

nothing : (db : Db) (t u : PgStore) (owner : String) → Fences db t owner (u, ok [])
nothing db t u owner out h o m = let q : out ≡ [] = cc in absurd (Memᴰ.not-nil (rw q at m))

-- An answer that was not lost.
returned-ok :
    (db : Db) (x : PgStore × List Delivery) (out : List Delivery)
    → (returned db x).1 ≡ ok out
    → x.1 ≡ out
returned-ok db (u, rows) out h = elim (Bool-cases db.loses_answer) [
  | inl k ↦
      let q : ◌≡◌ {A = Result (List Delivery)} (err database_failed) (ok out) = rw k at h in cc
  | inr k ↦ let q : ok rows ≡ ok out = rw k at h in cc
]

module _ (db : Db) (now : Time) (owner : String) (limit : ℕ) (t : PgStore)
    (gate : t.bypass_draining_claim_gate ≡ false) where
  run_claim-Fenced :
      (node : String)
      → parse_distributed_owner owner ≡ some node
      → (o : Delivery) → Memᴰ o (run_claim db now owner (grant_owned t node) limit t).1
      → Fenced db t owner o
  unfolding grant_owned
  run_claim-Fenced node e o m =
      let (d, g, l, free, granted, taken) =
        run_claim-granted db now owner (grant_owned t node) limit t o m in
      let (po, there, mine, rest, same) =
        grant_of-some t node (find_owner d.partition t.partition_owners) g gate granted in
      (
        node,
        po,
        e,
        ap (λ (o : Delivery). find_owner o.partition t.partition_owners) taken ∙ there,
        mine,
        rest,
        ap (λ (o : Delivery). o.generation) taken ∙ same,
        ap (λ (o : Delivery). o.owner) taken,
        ap (λ (o : Delivery). db.locked o.id) taken ∙ ground arith,
      )

  if_ok-Fences :
      (r : Result (Unit {0})) (x : PgStore × Result (List Delivery))
      → Fences db t owner x
      → Fences db t owner (if_ok t r x)
  if_ok-Fences (err e) x k = refused db t t owner e
  if_ok-Fences (ok u) x k = k

  claim_owned-Fences :
      (node : Option String)
      → parse_distributed_owner owner ≡ node
      → Fences db t owner (claim_owned db now owner limit t node)
  claim_owned-Fences none e = refused db t t owner _
  claim_owned-Fences (some node) e =
      if_both (Fences db t owner) db.fails_later _ _ (refused db t t owner _) (
        if_ok-Fences (check_ownership_metadata t) _ λ out h o m.
          let q = returned-ok db (run_claim db now owner (grant_owned t node) limit t) out h in
          run_claim-Fenced node e o (rw (← q) at m))

  claim_refreshed-Fences :
      (generation : ℕ) (partitions : List ℕ)
      → t.distributed_ownership ≡ true
      → Fences db t owner (claim_refreshed db now owner generation partitions limit t)
  claim_refreshed-Fences generation partitions on =
      if_split (Fences db t owner) t.distributed_ownership _ _
        (λ _. claim_owned-Fences (parse_distributed_owner owner) refl)
        (λ off. absurd (true-false on off))

claim-Fences :
    (db : Db) (ctx : Context) (now : Time) (owner : String) (generation : ℕ) (partitions : List ℕ)
    (limit : ℤ) (t : PgStore)
    → (refresh t).distributed_ownership ≡ true
    → t.bypass_draining_claim_gate ≡ false
    → Fences db t owner (claim db ctx now owner generation partitions limit t)
unfolding claim refresh
claim-Fences db done now owner generation partitions limit t on gate = refused db t t owner _
claim-Fences db live now owner generation partitions limit t on gate =
    if_both (Fences db t owner) (str_eq owner "") _ _ (refused db t t owner _) (
      if_both (Fences db t owner) (generation == 0) _ _ (refused db t t owner _) (
        if_both (Fences db t owner) (le_zero limit) _ _ (nothing db t t owner) (
          if_both (Fences db t owner) db.fails _ _ (refused db t t owner _) (
            claim_refreshed-Fences db now owner (to_nat limit) (refresh t) gate generation
              partitions on))))

-- Once a process uses distributed ownership, a Claim, with the gate for draining partitions on, hands out
-- a row only if the caller's node durably owns the row's partition and is not draining it, only under the
-- generation of that ownership, and never a row that another transaction has locked.
pub claim-Fenced :
    (db : Db) (ctx : Context) (now : Time) (owner : String) (generation : ℕ) (partitions : List ℕ)
    (limit : ℤ) (t : PgStore) (out : List Delivery) (o : Delivery)
    → (refresh t).distributed_ownership ≡ true
    → t.bypass_draining_claim_gate ≡ false
    → (claim db ctx now owner generation partitions limit t).1 ≡ ok out
    → Memᴰ o out
    → Fenced db t owner o
claim-Fenced db ctx now owner generation partitions limit t out o on gate h m =
    claim-Fences db ctx now owner generation partitions limit t on gate out h o m
