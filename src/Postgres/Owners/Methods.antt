-- ===== src/Postgres/Owners/Methods.antt =====
-- Each method of store/postgres takes one step on the table of owners, or none.
use sharathfold.Prelude.{
  ℕ, String, Bool, true, false, not, ◌&&◌, ◌||◌, List, Option, none, some, ◌≡◌, refl, sym, subst,
  arith, if_both, if_split, ◌==◌, str_eq, ℤ, le_zero, to_nat, replicate,
}
use sharathfold.Store.{Context, live, done}
use sharathfold.Postgres.State.{
  PgStore, OwnerRow, OwnerState, active, draining, Db, is_active, find_owner, refresh, is_empty,
  exists_row,
}
use sharathfold.Prelude.{has_slash}
use sharathfold.Postgres.Ownership.{
  OwnershipError, Owned, unless, check_owners, find_conflict, ensure_owner_assignments,
  ensure_owners, begin_row, checked_begin, guarded, begin_handoff, in_flight_on, complete_to,
  complete_row, complete_found, complete_handoff, takeover_row, checked_takeover, force_takeover,
  reset_in_flight,
}
use sharathfold.Postgres.Owners.Steps.{OwnerStep, Named}
use sharathfold.Postgres.Owners.Still.{
  enqueue-Still, claim-Still, mark-Still, recover_stale-Still, exhaust_and_suspend-Still,
  resume-Still,
}
use sharathfold.Postgres.Marks.{mark_delivered, mark_dead_letter, mark_terminal, mark_failed}
use sharathfold.Postgres.History.{Call, step}

-- The method takes a step on the owners of `t`.
abbrev pub Moves {ℓ} : {A : Type ℓ} → PgStore → PgStore × A → Type 0
Moves t x = OwnerStep t.partition_owners x.0.partition_owners

unless-Moves :
    (t : PgStore) (o : Option OwnershipError) (x : PgStore × Owned (Unit {0}))
    → (o ≡ none → Moves t x)
    → Moves t (unless t o x)
unless-Moves t none x k = k refl
unless-Moves t (some e) x k = OwnerStep.stays

pub ensure_owner_assignments-Moves :
    (db : Db) (ctx : Context) (owners : List String) (t : PgStore)
    → Moves t (ensure_owner_assignments db ctx owners t)
unfolding ensure_owner_assignments
ensure_owner_assignments-Moves db done owners t = OwnerStep.stays
ensure_owner_assignments-Moves db live owners t =
    if_both (Moves t) (is_empty owners) _ _ OwnerStep.stays (
      unless-Moves t (check_owners 0 owners) _ λ c. if_both (Moves t) db.fails _ _ OwnerStep.stays (
        unless-Moves t (find_conflict 0 owners t.partition_owners) _
          λ d. OwnerStep.assigns owners c d))

pub ensure_owners-Moves :
    (db : Db) (ctx : Context) (partitions : ℤ) (owner : String) (t : PgStore)
    → Moves t (ensure_owners db ctx partitions owner t)
unfolding ensure_owners
ensure_owners-Moves db ctx partitions owner t =
    if_both (Moves t) (le_zero partitions) _ _ OwnerStep.stays (
      if_both (Moves t) (str_eq owner "") _ _ OwnerStep.stays
        (ensure_owner_assignments-Moves db ctx (replicate (to_nat partitions) owner) t))

guarded-Moves :
    (db : Db) (ctx : Context) (t : PgStore) (body : PgStore → PgStore × Owned (Unit {0}))
    → Moves (refresh t) (body (refresh t))
    → Moves t (guarded db ctx t body)
unfolding refresh
guarded-Moves db done t body k = OwnerStep.stays
guarded-Moves db live t body k =
    if_both (Moves t) db.fails _ _ OwnerStep.stays
      (if_both (Moves t) (not (refresh t).distributed_ownership) _ _ OwnerStep.stays k)

active-of : (st : OwnerState) → is_active st ≡ true → st ≡ active
active-of active h = refl
active-of draining h = cc

draining-of : (st : OwnerState) → not (is_active st) ≡ true → st ≡ draining
draining-of active h = cc
draining-of draining h = refl

or_false : (a b : Bool) → (a || b) ≡ false → (a ≡ false) × (b ≡ false)
or_false a b h = ground arith

begin_row-Moves :
    (p : ℕ) (from to : String) (t : PgStore) (r : Option OwnerRow)
    → find_owner p t.partition_owners ≡ r
    → Named to
    → Moves t (begin_row p from to t r)
begin_row-Moves p from to t none e n = OwnerStep.stays
begin_row-Moves p from to t (some o) e n =
    if_split (Moves t) _ _ _ (λ h. OwnerStep.drains p to o e (active-of o.state (ground arith)) n)
      (λ _. OwnerStep.stays)

pub begin_handoff-Moves :
    (db : Db) (ctx : Context) (p : ℕ) (from to : String) (t : PgStore)
    → Moves t (begin_handoff db ctx p from to t)
unfolding begin_handoff
begin_handoff-Moves db ctx p from to t =
    let u = refresh t in
    guarded-Moves db ctx t (checked_begin db p from to) (
      if_split (Moves u) (str_eq from "" || str_eq to "") _ _ (λ _. OwnerStep.stays)
        λ a.
          if_split (Moves u) (has_slash from || has_slash to) _ _ (λ _. OwnerStep.stays)
            λ b. if_both (Moves u) (str_eq from to) _ _ OwnerStep.stays (
              if_both (Moves u) db.fails_later _ _ OwnerStep.stays (
                begin_row-Moves p from to u (find_owner p u.partition_owners) refl
                  ((or_false _ _ a).1, (or_false _ _ b).1))))

complete_to-Moves :
    (p : ℕ) (t : PgStore) (o : OwnerRow) (st : OwnerState) (next : Option String)
    → find_owner p t.partition_owners ≡ some o
    → o.state ≡ st
    → o.next_owner ≡ next
    → Moves t (complete_to p t st next)
complete_to-Moves p t o active next e a n = OwnerStep.stays
complete_to-Moves p t o draining none e a n = OwnerStep.stays
complete_to-Moves p t o draining (some to) e a n =
    if_both (Moves t) (exists_row (in_flight_on p) t.deliveries) _ _ OwnerStep.stays
      (OwnerStep.hands_off p to o e a n)

complete_row-Moves :
    (p : ℕ) (t : PgStore) (r : Option OwnerRow)
    → find_owner p t.partition_owners ≡ r
    → Moves t (complete_row p t r)
complete_row-Moves p t none e = OwnerStep.stays
complete_row-Moves p t (some o) e = complete_to-Moves p t o o.state o.next_owner e refl refl

pub complete_handoff-Moves :
    (db : Db) (ctx : Context) (p : ℕ) (t : PgStore) → Moves t (complete_handoff db ctx p t)
unfolding complete_handoff
complete_handoff-Moves db ctx p t =
    let u = refresh t in
    guarded-Moves db ctx t (complete_found db p) (
      if_both (Moves u) db.fails_later _ _ OwnerStep.stays
        (complete_row-Moves p u (find_owner p u.partition_owners) refl))

takeover_row-Moves :
    (p : ℕ) (to : String) (expected : ℕ) (t : PgStore) (r : Option OwnerRow)
    → find_owner p t.partition_owners ≡ r
    → Named to
    → Moves t (takeover_row p to expected t r)
unfolding reset_in_flight
takeover_row-Moves p to expected t none e n = OwnerStep.stays
takeover_row-Moves p to expected t (some o) e n =
    if_split (Moves t) (str_eq o.owner_node to) _ _
      (λ _.
        if_split (Moves t) (not (is_active o.state) && o.generation == expected) _ _
          (λ h. OwnerStep.aborts p o e (draining-of o.state (ground arith)))
          (λ _. if_both (Moves t) _ _ _ OwnerStep.stays OwnerStep.stays))
      (λ other.
        if_both (Moves t) (not (o.generation == expected)) _ _ OwnerStep.stays
          (OwnerStep.seizes p to o e other n))

pub force_takeover-Moves :
    (db : Db) (ctx : Context) (p : ℕ) (to : String) (expected : ℕ) (t : PgStore)
    → Moves t (force_takeover db ctx p to expected t)
unfolding force_takeover
force_takeover-Moves db ctx p to expected t =
    let u = refresh t in
    guarded-Moves db ctx t (checked_takeover db p to expected) (
      if_split (Moves u) (str_eq to "") _ _ (λ _. OwnerStep.stays)
        λ a.
          if_split (Moves u) (has_slash to) _ _ (λ _. OwnerStep.stays)
            λ b. if_both (Moves u) (expected == 0) _ _ OwnerStep.stays (
              if_both (Moves u) db.fails_later _ _ OwnerStep.stays
                (takeover_row-Moves p to expected u (find_owner p u.partition_owners) refl (a, b))))

Still-OwnerStep : {rows rows' : List OwnerRow} → rows' ≡ rows → OwnerStep rows rows'
Still-OwnerStep {rows = rows} h = subst (OwnerStep rows) (sym h) OwnerStep.stays

-- Every call is a step of the owners.
pub step-OwnerStep :
    (c : Call) (t : PgStore) → OwnerStep t.partition_owners (step c t).0.partition_owners
unfolding step mark_delivered mark_dead_letter mark_terminal mark_failed
step-OwnerStep (Call.enqueues db ctx now ds) t = Still-OwnerStep (enqueue-Still db ctx now ds t)
step-OwnerStep (Call.claims db ctx now owner generation partitions limit) t =
    Still-OwnerStep (claim-Still db ctx now owner generation partitions limit t)
step-OwnerStep (Call.marks_delivered db ctx id owner generation) t =
    Still-OwnerStep (mark-Still db ctx id owner generation _ t)
step-OwnerStep (Call.marks_dead_letter db ctx id owner generation err_msg) t =
    Still-OwnerStep (mark-Still db ctx id owner generation _ t)
step-OwnerStep (Call.marks_failed db ctx id owner generation attempt next err_msg) t =
    Still-OwnerStep (mark-Still db ctx id owner generation _ t)
step-OwnerStep (Call.exhausts db ctx now id owner generation err_msg) t =
    Still-OwnerStep (exhaust_and_suspend-Still db ctx now id owner generation err_msg t)
step-OwnerStep (Call.resumes db ctx now sub) t = Still-OwnerStep (resume-Still db ctx now sub t)
step-OwnerStep (Call.recovers db ctx now older_than) t =
    Still-OwnerStep (recover_stale-Still db ctx now older_than t)
step-OwnerStep (Call.ensures db ctx owners) t = ensure_owner_assignments-Moves db ctx owners t
step-OwnerStep (Call.ensures_all db ctx partitions owner) t =
    ensure_owners-Moves db ctx partitions owner t
step-OwnerStep (Call.begins db ctx p from to) t = begin_handoff-Moves db ctx p from to t
step-OwnerStep (Call.completes db ctx p) t = complete_handoff-Moves db ctx p t
step-OwnerStep (Call.takes_over db ctx p to expected) t =
    force_takeover-Moves db ctx p to expected t
step-OwnerStep (Call.sets_distributed b) t = OwnerStep.stays
