-- ===== src/Postgres/Owners/Invariant.antt =====
-- The invariant of the table of owners: the checks of store/postgres/schema.sql, and what the methods of
-- store/postgres/ownership.go add to them.
use mathlib.Core.List.Memᴰ
use sharathfold.Prelude.{
  ℕ, ◌+◌, ◌≤◌, String, List, [], ◌∷◌, Memᴰ, Option, none, some, ◌≡◌, refl, sym, ap, ◌∙◌, subst,
  arith, ◌⊎◌, inl, inr, ◌==◌, ==_iff, str_eq, Bool-cases,
}
use sharathfold.Runs.{run_calls}
use sharathfold.Postgres.State.{PgStore, OwnerRow, active, draining, find_owner, new_store}
use sharathfold.Prelude.{has_slash}
use sharathfold.Postgres.Ownership.{
  OwnershipError, check_owners, insert_owners, add_missing, inserted, update_owner, start_draining,
  hand_over, abort_drain,
}
use sharathfold.Postgres.Owners.Steps.{OwnerStep, Named, at_owner, mem-find_owner, find_owner-none}
use sharathfold.Postgres.History.{Call, step, run}
use sharathfold.Postgres.Owners.Methods.{step-OwnerStep}

-- The row is at rest without a next owner, or draining to a node with a name.
abbrev pub Settled : OwnerRow → Type 0
Settled o =
    ((o.state ≡ active) × (o.next_owner ≡ none))
    ⊎ ((o.state ≡ draining) × ((to : String) × (o.next_owner ≡ some to) × Named to))

pub record Good (o : OwnerRow) : Type 0 where
  pub node : Named o.owner_node
  pub generation_set : 1 ≤ o.generation
  pub settled : Settled o

pub record Owners (rows : List OwnerRow) : Type 0 where
  -- The partition is the primary key.
  pub keys : (o o' : OwnerRow) → Memᴰ o rows → Memᴰ o' rows → o.partition ≡ o'.partition → o ≡ o'
  pub good : (o : OwnerRow) → Memᴰ o rows → Good o

-- An update of the row of p keeps the invariant, if it keeps it of that row.
update_owner-Owners :
    (p : ℕ) (f : OwnerRow → OwnerRow) (rows : List OwnerRow)
    → ((o : OwnerRow) → (f o).partition ≡ o.partition)
    → ((o : OwnerRow) → Memᴰ o rows → o.partition ≡ p → Good o → Good (f o))
    → Owners rows
    → Owners (update_owner p f rows)
unfolding update_owner
update_owner-Owners p f rows keeps better v = record {
  keys = λ o o' m n h.
      let (x, k, a) = Memᴰ.of_map (at_owner p f) rows m in
      let (y, l, b) = Memᴰ.of_map (at_owner p f) rows n in
      let same = v.keys x y k l (
        sym (at_partition x)
        ∙ ap (λ (o : OwnerRow). o.partition) a
        ∙ h
        ∙ ap (λ (o : OwnerRow). o.partition) (sym b)
        ∙ at_partition y) in
      sym a ∙ ap (at_owner p f) same ∙ b;
  good = λ o m. let (x, k, a) = Memᴰ.of_map (at_owner p f) rows m in subst Good a (at_good x k);
}
  where
    at_partition : (x : OwnerRow) → (at_owner p f x).partition ≡ x.partition
    at_partition x = elim (Bool-cases (x.partition == p)) [
      | inl k ↦ rw k (keeps x)
      | inr k ↦ rw k refl
    ]

    at_good : (x : OwnerRow) → Memᴰ x rows → Good (at_owner p f x)
    at_good x m = elim (Bool-cases (x.partition == p)) [
      | inl k ↦ rw k (better x m ((==_iff x.partition p).0 k) (v.good x m))
      | inr k ↦ rw k (v.good x m)
    ]

add_missing-Owners :
    (p : ℕ) (owner : String) (rows : List OwnerRow) (r : Option OwnerRow)
    → find_owner p rows ≡ r
    → Named owner
    → Owners rows
    → Owners (add_missing p owner rows r)
add_missing-Owners p owner rows (some o) e n v = v
add_missing-Owners p owner rows none e n v = record {
  keys = λ o o' m k h. elim (Memᴰ.cases_cons m) [
    | inl a ↦ elim (Memᴰ.cases_cons k) [
      | inl b ↦ a ∙ sym b
      | inr l ↦ absurd (find_owner-none p rows e l (sym h ∙ ap (λ (o : OwnerRow). o.partition) a))
    ]
    | inr j ↦ elim (Memᴰ.cases_cons k) [
      | inl b ↦ absurd (find_owner-none p rows e j (h ∙ ap (λ (o : OwnerRow). o.partition) b))
      | inr l ↦ v.keys o o' j l h
    ]
  ];
  good = λ o m. elim (Memᴰ.cases_cons m) [ inl a ↦ subst Good (sym a) first | inr k ↦ v.good o k ];
}
  where
    first : Good (inserted p owner)
    first = record { node = n; generation_set = omega arith; settled = inl (refl, refl) }

check_owners-Named :
    (p : ℕ) (owner : String) (owners : List String)
    → check_owners p (owner ∷ owners) ≡ none
    → Named owner × (check_owners (p + 1) owners ≡ none)
unfolding check_owners
check_owners-Named p owner owners h = elim (Bool-cases (str_eq owner "")) [
  | inl a ↦ let q : some (OwnershipError.empty_owner p) ≡ none = rw a at h in cc
  | inr a ↦ elim (Bool-cases (has_slash owner)) [
    | inl b ↦ let q : some (OwnershipError.owner_has_slash owner) ≡ none = rw (a, b) at h in cc
    | inr b ↦ ((a, b), rw (a, b) at h)
  ]
]

insert_owners-Owners :
    (p : ℕ) (owners : List String) (rows : List OwnerRow)
    → check_owners p owners ≡ none
    → Owners rows
    → Owners (insert_owners p owners rows)
unfolding insert_owners
insert_owners-Owners p [] rows h v = v
insert_owners-Owners p (owner ∷ owners) rows h v =
    let (n, rest) = check_owners-Named p owner owners h in
    insert_owners-Owners (p + 1) owners _ rest
      (add_missing-Owners p owner rows (find_owner p rows) refl n v)

start_draining-Good : (to : String) (o : OwnerRow) → Named to → Good o → Good (start_draining to o)
start_draining-Good to o n g = record {
  node = g.node;
  generation_set = g.generation_set;
  settled = inr (refl, (to, refl, n));
}

hand_over-Good : (to : String) (o : OwnerRow) → Named to → Good o → Good (hand_over to o)
hand_over-Good to o n g = record {
  node = n;
  generation_set = omega arith;
  settled = inl (refl, refl);
}

abort_drain-Good : (o : OwnerRow) → Good o → Good (abort_drain o)
abort_drain-Good o g = record {
  node = g.node;
  generation_set = g.generation_set;
  settled = inl (refl, refl);
}

-- The node that a draining row names.
next-Named : (o : OwnerRow) (to : String) → Good o → o.next_owner ≡ some to → Named to
next-Named o to g h = elim g.settled [
  | inl (a, n) ↦ let q : none ≡ some to = sym n ∙ h in cc
  | inr (d, (x, e, n)) ↦
      let q : some x ≡ some to = sym e ∙ h in let same : x ≡ to = cc in subst Named same n
]

OwnerStep-Owners : {rows rows' : List OwnerRow} → OwnerStep rows rows' → Owners rows → Owners rows'
OwnerStep-Owners OwnerStep.stays v = v
OwnerStep-Owners {rows = rows} (OwnerStep.assigns owners c d) v =
    insert_owners-Owners 0 owners rows c v
OwnerStep-Owners {rows = rows} (OwnerStep.drains p to o e a n) v =
    update_owner-Owners p (start_draining to) rows (λ x. refl) (λ x _ _. start_draining-Good to x n)
      v
OwnerStep-Owners {rows = rows} (OwnerStep.hands_off p to o e a n) v =
    update_owner-Owners p (hand_over to) rows (λ x. refl)
      (λ x _ _. hand_over-Good to x (next-Named o to (v.good o (mem-find_owner p rows e).0) n)) v
OwnerStep-Owners {rows = rows} (OwnerStep.seizes p to o e a n) v =
    update_owner-Owners p (hand_over to) rows (λ x. refl) (λ x _ _. hand_over-Good to x n) v
OwnerStep-Owners {rows = rows} (OwnerStep.aborts p o e a) v =
    update_owner-Owners p abort_drain rows (λ x. refl) (λ x _ _. abort_drain-Good x) v

run-Owners_from :
    (cs : List Call) (t : PgStore)
    → Owners t.partition_owners
    → Owners (run cs t).0.partition_owners
unfolding run_calls
run-Owners_from [] t v = v
run-Owners_from (c ∷ cs) t v =
    run-Owners_from cs (step c t).0 (OwnerStep-Owners (step-OwnerStep c t) v)

-- In the tables that any calls reach from fresh ones, a partition has at most one row of owners, its
-- node has a name without a slash, its generation is at least 1, and it has a next owner exactly while
-- it is draining.
pub run-Owners : (cs : List Call) → Owners (run cs new_store).0.partition_owners
run-Owners cs =
    run-Owners_from cs new_store
      (record { keys = λ o o' m. absurd (Memᴰ.not-nil m); good = λ o m. absurd (Memᴰ.not-nil m) })
