-- ===== src/Postgres/Owners/Steps.antt =====
-- The changes that store/postgres/ownership.go makes to the table of owners, as a step relation.
use mathlib.Core.List.Memᴰ
use sharathfold.Prelude.{
  Memᴰ, ◌≢◌, ℕ, String, true, false, List, [], ◌∷◌, map, none, some, ◌≡◌, refl, sym, ap, ◌∙◌, arith,
  inl, inr, if◌then◌else◌, ◌==◌, ==_iff, str_eq, Bool-cases,
}
use sharathfold.Postgres.State.{OwnerRow, active, draining, find_owner}
use sharathfold.Prelude.{has_slash}
use sharathfold.Postgres.Ownership.{
  check_owners, find_conflict, insert_owners, update_owner, start_draining, hand_over, abort_drain,
}

-- The name of a node is not empty, and has no slash.
abbrev pub Named : String → Type 0
Named node = (str_eq node "" ≡ false) × (has_slash node ≡ false)

-- One change of the table.
pub data OwnerStep : List OwnerRow → List OwnerRow → Type 0 where
  stays : {rows : List OwnerRow} → OwnerStep rows rows
  -- EnsureOwnerAssignments, past its checks
  assigns :
      {rows : List OwnerRow} (owners : List String)
      → check_owners 0 owners ≡ none
      → find_conflict 0 owners rows ≡ none
      → OwnerStep rows (insert_owners 0 owners rows)
  -- BeginHandoff
  drains :
      {rows : List OwnerRow} (p : ℕ) (to : String) (o : OwnerRow)
      → find_owner p rows ≡ some o
      → o.state ≡ active
      → Named to
      → OwnerStep rows (update_owner p (start_draining to) rows)
  -- CompleteHandoff
  hands_off :
      {rows : List OwnerRow} (p : ℕ) (to : String) (o : OwnerRow)
      → find_owner p rows ≡ some o
      → o.state ≡ draining
      → o.next_owner ≡ some to
      → OwnerStep rows (update_owner p (hand_over to) rows)
  -- ForceTakeover by another node
  seizes :
      {rows : List OwnerRow} (p : ℕ) (to : String) (o : OwnerRow)
      → find_owner p rows ≡ some o
      → str_eq o.owner_node to ≡ false
      → Named to
      → OwnerStep rows (update_owner p (hand_over to) rows)
  -- ForceTakeover by the owner
  aborts :
      {rows : List OwnerRow} (p : ℕ) (o : OwnerRow)
      → find_owner p rows ≡ some o
      → o.state ≡ draining
      → OwnerStep rows (update_owner p abort_drain rows)

-- A row that is changed in place is found as changed.
pub find_owner-map :
    (q : ℕ) (g : OwnerRow → OwnerRow) (rows : List OwnerRow) {o : OwnerRow}
    → ((x : OwnerRow) → (g x).partition ≡ x.partition)
    → find_owner q rows ≡ some o
    → find_owner q (map g rows) ≡ some (g o)
unfolding find_owner
find_owner-map q g [] keeps h = cc
find_owner-map q g (x ∷ rows) {o} keeps h = elim (Bool-cases (x.partition == q)) [
  | inl k ↦
      let e : some x ≡ some o = rw k at h in
      let same : x ≡ o = cc in
      let there : ((g x).partition == q) ≡ true = ap (λ n. n == q) (keeps x) ∙ k in
      rw there (ap (λ y. some (g y)) same)
  | inr k ↦
      let apart : ((g x).partition == q) ≡ false = ap (λ n. n == q) (keeps x) ∙ k in
      rw apart (find_owner-map q g rows keeps (rw k at h))
]

-- What an update of the row of p does to a row.
abbrev pub at_owner : ℕ → (OwnerRow → OwnerRow) → OwnerRow → OwnerRow
at_owner p f o = if o.partition == p then f o else o

-- A row that is found is in the table, under its key.
pub mem-find_owner :
    (p : ℕ) (rows : List OwnerRow) {o : OwnerRow}
    → find_owner p rows ≡ some o
    → Memᴰ o rows × (o.partition ≡ p)
unfolding find_owner
mem-find_owner p [] h = cc
mem-find_owner p (x ∷ rows) {o} h = elim (Bool-cases (x.partition == p)) [
  | inl k ↦
      let e : some x ≡ some o = rw k at h in
      let same : x ≡ o = cc in (Memᴰ.head (sym same), rw (← same) ((==_iff x.partition p).0 k))
  | inr k ↦ let (m, q) = mem-find_owner p rows (rw k at h) in (Memᴰ.tail m, q)
]

pub find_owner-none :
    (p : ℕ) (rows : List OwnerRow) {o : OwnerRow}
    → find_owner p rows ≡ none
    → Memᴰ o rows
    → o.partition ≢ p
unfolding find_owner
find_owner-none p [] h m q = Memᴰ.not-nil m
find_owner-none p (x ∷ rows) {o} h m q = elim (Bool-cases (x.partition == p)) [
  | inl k ↦ let e : some x ≡ none = rw k at h in cc
  | inr k ↦ elim (Memᴰ.cases_cons m) [
    | inl r ↦ absurd (ground (arith, ap (λ (x : OwnerRow). x.partition) r, q))
    | inr n ↦ find_owner-none p rows (rw k at h) n q
  ]
]

-- An update of the row of p that is found.
pub found-updated :
    (p : ℕ) (f : OwnerRow → OwnerRow) (rows : List OwnerRow) (o : OwnerRow)
    → ((x : OwnerRow) → (f x).partition ≡ x.partition)
    → find_owner p rows ≡ some o
    → find_owner p (update_owner p f rows) ≡ some (f o)
unfolding update_owner
found-updated p f rows o keeps e =
    let at_p : (o.partition == p) ≡ true = (==_iff o.partition p).1 (mem-find_owner p rows e).1 in
    find_owner-map p (at_owner p f) rows (at_keeps) e ∙ rw at_p refl
  where
    at_keeps : (x : OwnerRow) → (at_owner p f x).partition ≡ x.partition
    at_keeps x = elim (Bool-cases (x.partition == p)) [ inl k ↦ rw k (keeps x) | inr k ↦ rw k refl ]
