-- ===== src/Postgres/Keeps/Ownership.antt =====
-- The methods of store/postgres/ownership.go leave the rows, but for those that a takeover resets.
use sharathfold.Prelude.{
  ℕ, String, true, not, ◌&&◌, ◌||◌, List, ◌≡◌, refl, arith, Option, none, some, if_both, inl, inr,
  Bool-cases, ◌==◌, str_eq, ℤ, le_zero, to_nat, replicate,
}
use sharathfold.Store.{Delivery, Context, live, done, is_in_flight}
use sharathfold.Memory.State.{Store}
use sharathfold.Memory.Invariant.{Settle}
use sharathfold.Memory.Invariant.Steps.{Settle-refl, subset-Settle}
use sharathfold.Postgres.State.{
  PgStore, OwnerRow, OwnerState, active, draining, Db, is_active, view, find_owner, refresh,
  is_empty, exists_row,
}
use sharathfold.Prelude.{has_slash}
use sharathfold.Postgres.Marks.{to_pending}
use sharathfold.Postgres.Ownership.{
  OwnershipError, Owned, unless, check_owners, find_conflict, ensure_owner_assignments,
  ensure_owners, begin_row, checked_begin, guarded, begin_handoff, in_flight_on, complete_to,
  complete_row, complete_found, complete_handoff, reset_in_flight, takeover_row, checked_takeover,
  force_takeover,
}
use sharathfold.Postgres.Keeps.Rows.{update_where-Settle}
use sharathfold.Postgres.Keeps.Marks.{to_pending-Same, to_pending-Settles}

-- The method settles rows of `t`.
abbrev pub Quiets {ℓ} : {A : Type ℓ} → PgStore → PgStore × Owned A → Type 0
Quiets t x = Settle (view t) (view x.0)

-- What changes no row, suspension or counter settles.
still-Settle :
    (s t : Store)
    → t.by_id ≡ s.by_id
    → t.subs ≡ s.subs
    → t.seq ≡ s.seq
    → t.disable_hol ≡ s.disable_hol
    → t.skip_suspend_gate ≡ s.skip_suspend_gate
    → Settle s t
still-Settle s t rows subs seq hol gate =
    subset-Settle s t (λ d m. rw rows at m) (λ x. rw subs) (λ x. rw seq) hol gate

in_flight_on-in_flight :
    (p : ℕ) (d : Delivery) → in_flight_on p d ≡ true → is_in_flight d.status ≡ true
in_flight_on-in_flight p d h = ground arith

unless-Quiets :
    (t : PgStore) (o : Option OwnershipError) (x : PgStore × Owned (Unit {0}))
    → Quiets t x
    → Quiets t (unless t o x)
unless-Quiets t none x k = k
unless-Quiets t (some e) x k = Settle-refl (view t)

pub ensure_owner_assignments-Quiets :
    (db : Db) (ctx : Context) (owners : List String) (t : PgStore)
    → Quiets t (ensure_owner_assignments db ctx owners t)
unfolding ensure_owner_assignments
ensure_owner_assignments-Quiets db done owners t = Settle-refl (view t)
ensure_owner_assignments-Quiets db live owners t =
    let same = Settle-refl (view t) in
    if_both (Quiets t) (is_empty owners) _ _ same (
      unless-Quiets t (check_owners 0 owners) _ (
        if_both (Quiets t) db.fails _ _ same
          (unless-Quiets t (find_conflict 0 owners t.partition_owners) _ same)))

pub ensure_owners-Quiets :
    (db : Db) (ctx : Context) (partitions : ℤ) (owner : String) (t : PgStore)
    → Quiets t (ensure_owners db ctx partitions owner t)
unfolding ensure_owners
ensure_owners-Quiets db ctx partitions owner t =
    let same = Settle-refl (view t) in
    if_both (Quiets t) (le_zero partitions) _ _ same (
      if_both (Quiets t) (str_eq owner "") _ _ same
        (ensure_owner_assignments-Quiets db ctx (replicate (to_nat partitions) owner) t))

guarded-Quiets :
    (db : Db) (ctx : Context) (t : PgStore) (body : PgStore → PgStore × Owned (Unit {0}))
    → Quiets (refresh t) (body (refresh t))
    → Quiets t (guarded db ctx t body)
unfolding refresh
guarded-Quiets db done t body k = Settle-refl (view t)
guarded-Quiets db live t body k =
    let same = Settle-refl (view t) in
    if_both (Quiets t) db.fails _ _ same
      (if_both (Quiets t) (not (refresh t).distributed_ownership) _ _ same k)

begin_row-Quiets :
    (p : ℕ) (from to : String) (t : PgStore) (o : Option OwnerRow)
    → Quiets t (begin_row p from to t o)
begin_row-Quiets p from to t none = Settle-refl (view t)
begin_row-Quiets p from to t (some o) =
    if_both (Quiets t) _ _ _ (Settle-refl (view t)) (Settle-refl (view t))

pub begin_handoff-Quiets :
    (db : Db) (ctx : Context) (p : ℕ) (from to : String) (t : PgStore)
    → Quiets t (begin_handoff db ctx p from to t)
unfolding begin_handoff
begin_handoff-Quiets db ctx p from to t =
    let u = refresh t in
    let same = Settle-refl (view u) in
    guarded-Quiets db ctx t (checked_begin db p from to) (
      if_both (Quiets u) (str_eq from "" || str_eq to "") _ _ same (
        if_both (Quiets u) (has_slash from || has_slash to) _ _ same (
          if_both (Quiets u) (str_eq from to) _ _ same (
            if_both (Quiets u) db.fails_later _ _ same
              (begin_row-Quiets p from to u (find_owner p u.partition_owners))))))

complete_to-Quiets :
    (p : ℕ) (t : PgStore) (st : OwnerState) (next : Option String)
    → Quiets t (complete_to p t st next)
complete_to-Quiets p t active next = Settle-refl (view t)
complete_to-Quiets p t draining none = Settle-refl (view t)
complete_to-Quiets p t draining (some to) =
    if_both (Quiets t) (exists_row (in_flight_on p) t.deliveries) _ _ (Settle-refl (view t))
      (still-Settle (view t) _ refl refl refl refl refl)

complete_row-Quiets : (p : ℕ) (t : PgStore) (o : Option OwnerRow) → Quiets t (complete_row p t o)
complete_row-Quiets p t none = Settle-refl (view t)
complete_row-Quiets p t (some o) = complete_to-Quiets p t o.state o.next_owner

pub complete_handoff-Quiets :
    (db : Db) (ctx : Context) (p : ℕ) (t : PgStore) → Quiets t (complete_handoff db ctx p t)
unfolding complete_handoff
complete_handoff-Quiets db ctx p t =
    let u = refresh t in
    guarded-Quiets db ctx t (complete_found db p) (
      if_both (Quiets u) db.fails_later _ _ (Settle-refl (view u))
        (complete_row-Quiets p u (find_owner p u.partition_owners)))

-- The reset takes the rows in flight of the partition back.
reset_in_flight-Settle :
    (p : ℕ) (t : PgStore) (s : Store)
    → s.by_id ≡ (reset_in_flight p t).deliveries
    → s.subs ≡ t.subscribers
    → s.seq ≡ t.subscriber_seq
    → s.disable_hol ≡ t.disable_hol
    → s.skip_suspend_gate ≡ t.skip_suspend_gate
    → Settle (view t) s
unfolding reset_in_flight
reset_in_flight-Settle p t s rows subs seq hol gate = elim (Bool-cases t.skip_in_flight_reset) [
  | inl k ↦ still-Settle (view t) s (rw k at rows) subs seq hol gate
  | inr k ↦
      update_where-Settle (in_flight_on p) to_pending (view t) s (rw k at rows) subs seq hol gate
        to_pending-Same (λ d h. to_pending-Settles d (in_flight_on-in_flight p d h))
]

takeover_row-Quiets :
    (p : ℕ) (to : String) (expected : ℕ) (t : PgStore) (o : Option OwnerRow)
    → Quiets t (takeover_row p to expected t o)
unfolding reset_in_flight
takeover_row-Quiets p to expected t none = Settle-refl (view t)
takeover_row-Quiets p to expected t (some o) =
    let same = Settle-refl (view t) in
    if_both (Quiets t) (str_eq o.owner_node to) _ _
      (if_both (Quiets t) (not (is_active o.state) && o.generation == expected) _ _
        (still-Settle (view t) _ refl refl refl refl refl) (if_both (Quiets t) _ _ _ same same))
      (if_both (Quiets t) (not (o.generation == expected)) _ _ same
        (reset_in_flight-Settle p t _ refl refl refl refl refl))

pub force_takeover-Quiets :
    (db : Db) (ctx : Context) (p : ℕ) (to : String) (expected : ℕ) (t : PgStore)
    → Quiets t (force_takeover db ctx p to expected t)
unfolding force_takeover
force_takeover-Quiets db ctx p to expected t =
    let u = refresh t in
    let same = Settle-refl (view u) in
    guarded-Quiets db ctx t (checked_takeover db p to expected) (
      if_both (Quiets u) (str_eq to "") _ _ same (
        if_both (Quiets u) (has_slash to) _ _ same (
          if_both (Quiets u) (expected == 0) _ _ same (
            if_both (Quiets u) db.fails_later _ _ same
              (takeover_row-Quiets p to expected u (find_owner p u.partition_owners))))))
