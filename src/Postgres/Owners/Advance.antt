-- ===== src/Postgres/Owners/Advance.antt =====
-- The generation of a partition's owner only grows, and a generation belongs to one node.
use sharathfold.Prelude.{
  ℕ, ◌+◌, ◌≤◌, String, List, [], ◌∷◌, Option, none, some, ◌≡◌, refl, sym, ap, ◌∙◌, arith, inl, inr,
  ◌==◌, ==_iff, Bool-cases,
}
use sharathfold.Runs.{run_calls}
use sharathfold.Postgres.State.{PgStore, OwnerRow, find_owner}
use sharathfold.Postgres.Ownership.{
  insert_owners, add_missing, update_owner, start_draining, hand_over, abort_drain,
}
use sharathfold.Postgres.Owners.Steps.{OwnerStep, find_owner-map, at_owner}
use sharathfold.Postgres.History.{Call, step, run}
use sharathfold.Postgres.Owners.Methods.{step-OwnerStep}

-- The row of a partition is later than another: its generation is not lower, and only a higher one
-- may be another node's.
pub record Later (o o' : OwnerRow) : Type 0 where
  pub partition : o'.partition ≡ o.partition
  pub not_lower : o.generation ≤ o'.generation
  pub same_node : o.generation ≡ o'.generation → o.owner_node ≡ o'.owner_node

Later-refl : (o : OwnerRow) → Later o o
Later-refl o = record { partition = refl; not_lower = omega arith; same_node = λ _. refl }

Later-trans : {o o' o'' : OwnerRow} → Later o o' → Later o' o'' → Later o o''
Later-trans p q = record {
  partition = q.partition ∙ p.partition;
  not_lower = omega (arith, p.not_lower, q.not_lower);
  same_node = λ h.
      p.same_node (omega (arith, p.not_lower, q.not_lower, h))
      ∙ q.same_node (omega (arith, p.not_lower, q.not_lower, h));
}

-- Each partition that has an owner still has one, by a later row.
abbrev pub Advances : List OwnerRow → List OwnerRow → Type 0
Advances rows rows' =
    (p : ℕ) (o : OwnerRow)
    → find_owner p rows ≡ some o
    → (o' : OwnerRow) × (find_owner p rows' ≡ some o') × Later o o'

update_owner-Advances :
    (p : ℕ) (f : OwnerRow → OwnerRow) (rows : List OwnerRow)
    → ((o : OwnerRow) → Later o (f o))
    → Advances rows (update_owner p f rows)
unfolding update_owner
update_owner-Advances p f rows later q o h = (
  at_owner p f o,
  find_owner-map q (at_owner p f) rows (λ x. (at_later x).partition) h,
  at_later o,
)
  where
    at_later : (x : OwnerRow) → Later x (at_owner p f x)
    at_later x = elim (Bool-cases (x.partition == p)) [
      | inl k ↦ rw k (later x)
      | inr k ↦ rw k (Later-refl x)
    ]

-- An insert for a partition without a row leaves the rows of the others.
add_missing-found :
    (p q : ℕ) (owner : String) (rows : List OwnerRow) (r : Option OwnerRow) {o : OwnerRow}
    → find_owner p rows ≡ r
    → find_owner q rows ≡ some o
    → find_owner q (add_missing p owner rows r) ≡ some o
unfolding find_owner
add_missing-found p q owner rows (some x) e h = h
add_missing-found p q owner rows none {o} e h = elim (Bool-cases (p == q)) [
  | inl k ↦
      let same : find_owner q rows ≡ none =
        ap (λ n. find_owner n rows) (sym ((==_iff p q).0 k)) ∙ e in
      let no : none ≡ some o = sym same ∙ h in cc
  | inr k ↦ rw k h
]

insert_owners-found :
    (p q : ℕ) (owners : List String) (rows : List OwnerRow) {o : OwnerRow}
    → find_owner q rows ≡ some o
    → find_owner q (insert_owners p owners rows) ≡ some o
unfolding insert_owners
insert_owners-found p q [] rows h = h
insert_owners-found p q (owner ∷ owners) rows h =
    insert_owners-found (p + 1) q owners _
      (add_missing-found p q owner rows (find_owner p rows) refl h)

start_draining-Later : (to : String) (o : OwnerRow) → Later o (start_draining to o)
start_draining-Later to o = record {
  partition = refl;
  not_lower = omega arith;
  same_node = λ _. refl;
}

hand_over-Later : (to : String) (o : OwnerRow) → Later o (hand_over to o)
hand_over-Later to o = record {
  partition = refl;
  not_lower = omega arith;
  same_node = λ h. absurd (omega (arith, h));
}

abort_drain-Later : (o : OwnerRow) → Later o (abort_drain o)
abort_drain-Later o = record { partition = refl; not_lower = omega arith; same_node = λ _. refl }

OwnerStep-Advances : {rows rows' : List OwnerRow} → OwnerStep rows rows' → Advances rows rows'
OwnerStep-Advances OwnerStep.stays p o h = (o, h, Later-refl o)
OwnerStep-Advances {rows = rows} (OwnerStep.assigns owners c d) p o h =
    (o, insert_owners-found 0 p owners rows h, Later-refl o)
OwnerStep-Advances {rows = rows} (OwnerStep.drains p to o e a n) q x h =
    update_owner-Advances p (start_draining to) rows (start_draining-Later to) q x h
OwnerStep-Advances {rows = rows} (OwnerStep.hands_off p to o e a n) q x h =
    update_owner-Advances p (hand_over to) rows (hand_over-Later to) q x h
OwnerStep-Advances {rows = rows} (OwnerStep.seizes p to o e a n) q x h =
    update_owner-Advances p (hand_over to) rows (hand_over-Later to) q x h
OwnerStep-Advances {rows = rows} (OwnerStep.aborts p o e a) q x h =
    update_owner-Advances p abort_drain rows abort_drain-Later q x h

-- Whatever calls are made, by whatever processes and in whatever order, a partition that has an owner
-- keeps one: its generation is never lower afterwards, and as long as it is the same, so is the node.
pub run-Advances :
    (cs : List Call) (t : PgStore) (p : ℕ) (o : OwnerRow)
    → find_owner p t.partition_owners ≡ some o
    → (o' : OwnerRow) × (find_owner p (run cs t).0.partition_owners ≡ some o') × Later o o'
unfolding run_calls
run-Advances [] t p o h = (o, h, Later-refl o)
run-Advances (c ∷ cs) t p o h =
    let (o', e, l) = OwnerStep-Advances (step-OwnerStep c t) p o h in
    let (o'', e', l') = run-Advances cs (step c t).0 p o' e in (o'', e', Later-trans l l')
