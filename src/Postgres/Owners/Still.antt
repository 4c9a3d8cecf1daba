-- ===== src/Postgres/Owners/Still.antt =====
-- The methods of store/postgres/postgres.go leave the table of owners.
use sharathfold.Prelude.{
  ℕ, String, List, [], ◌∷◌, Option, none, some, ◌≡◌, refl, ◌∙◌, if_both, ltb, length, ◌==◌, str_eq,
  ℤ, le_zero, to_nat,
}
use sharathfold.Store.{Delivery, Context, Time, live, done, Result, ok, err, add_neg}
use sharathfold.Memory.State.{SubMeta}
use sharathfold.Postgres.State.{
  PgStore, OwnerRow, Db, refresh, is_empty, exists_row, retention_age, retention_count,
}
use sharathfold.Postgres.Retention.{
  drop_retained, drop_all, drop_excess, aged_rows, apply_retention,
}
use sharathfold.Postgres.Enqueue.{
  insert_row, stored_row, conflicts, enqueue_rows, retain_touched, commit_enqueue, enqueue,
}
use sharathfold.Tokens.{parse_distributed_owner}
use sharathfold.Postgres.Claim.{run_claim, if_ok, claim_owned, claim, check_ownership_metadata}
use sharathfold.Postgres.Marks.{is_claimed, mark, recover_stale}
use sharathfold.Postgres.Suspend.{
  suspend_rows, exhaust_row, exhaust_and_suspend, release_rows, resume_found, resume,
}

-- The method leaves the owners of `t`.
abbrev pub Still {ℓ} : {A : Type ℓ} → PgStore → PgStore × A → Type 0
Still t x = x.0.partition_owners ≡ t.partition_owners

drop_all-owners :
    (sub reason : String) (ds : List Delivery) (t : PgStore)
    → (drop_all sub reason ds t).partition_owners ≡ t.partition_owners
unfolding drop_all drop_retained
drop_all-owners sub reason [] t = refl
drop_all-owners sub reason (d ∷ ds) t = drop_all-owners sub reason ds (drop_retained sub reason d t)

drop_excess-owners :
    (sub : String) (max_count : ℕ) (ds : List Delivery) (t : PgStore)
    → (drop_excess sub max_count ds t).partition_owners ≡ t.partition_owners
unfolding drop_excess drop_retained
drop_excess-owners sub max_count [] t = refl
drop_excess-owners sub max_count (d ∷ ds) t =
    if_both (λ (u : PgStore). u.partition_owners ≡ t.partition_owners)
      (ltb max_count (length (d ∷ ds))) _ _
      (drop_excess-owners sub max_count ds (drop_retained sub "count" d t)) refl

apply_retention-owners :
    (sub : String) (now : Time) (t : PgStore)
    → (apply_retention sub now t).partition_owners ≡ t.partition_owners
unfolding apply_retention
apply_retention-owners sub now t =
    drop_excess-owners sub (retention_count t) _ _
    ∙ drop_all-owners sub "age" (aged_rows sub (add_neg now (retention_age t)) t.deliveries) t

-- What the rounds of Enqueue leave in the transaction.
abbrev StillBy : List OwnerRow → Result (PgStore × List String) → Type 0
StillBy rows (err e) = Unit
StillBy rows (ok (t, touched)) = t.partition_owners ≡ rows

enqueue_rows-StillBy :
    (now : Time) (ds : List Delivery) (touched : List String) (t : PgStore)
    → StillBy t.partition_owners (enqueue_rows now ds touched t)
unfolding enqueue_rows insert_row
enqueue_rows-StillBy now [] touched t = refl
enqueue_rows-StillBy now (d ∷ ds) touched t =
    let By = StillBy t.partition_owners in
    if_both By (str_eq d.id "") _ _ tt (
      if_both By (str_eq d.subscriber_id "") _ _ tt (
        if_both By (exists_row (conflicts (stored_row t now d)) t.deliveries) _ _ tt
          (enqueue_rows-StillBy now ds _ (insert_row now d t))))

retain_touched-owners :
    (now : Time) (touched : List String) (t : PgStore)
    → (retain_touched now touched t).partition_owners ≡ t.partition_owners
unfolding retain_touched
retain_touched-owners now [] t = refl
retain_touched-owners now (sub ∷ touched) t =
    retain_touched-owners now touched (apply_retention sub now t) ∙ apply_retention-owners sub now t

commit_enqueue-Still :
    (db : Db) (now : Time) (t : PgStore) (r : Result (PgStore × List String))
    → StillBy t.partition_owners r
    → Still t (commit_enqueue db now t r)
commit_enqueue-Still db now t (err e) k = refl
commit_enqueue-Still db now t (ok (u, touched)) k =
    let same = retain_touched-owners now touched u ∙ k in
    if_both (Still t) db.loses_answer _ _ same same

pub enqueue-Still :
    (db : Db) (ctx : Context) (now : Time) (ds : List Delivery) (t : PgStore)
    → Still t (enqueue db ctx now ds t)
unfolding enqueue
enqueue-Still db done now ds t = refl
enqueue-Still db live now ds t = if_both (Still t) (is_empty ds) _ _ refl (
    if_both (Still t) db.fails _ _ refl
      (commit_enqueue-Still db now t _ (enqueue_rows-StillBy now ds [] t)))

if_ok-Still :
    (t : PgStore) (r : Result (Unit {0})) (x : PgStore × Result (List Delivery))
    → Still t x
    → Still t (if_ok t r x)
if_ok-Still t (err e) x k = refl
if_ok-Still t (ok u) x k = k

claim_owned-Still :
    (db : Db) (now : Time) (owner : String) (limit : ℕ) (t : PgStore) (node : Option String)
    → Still t (claim_owned db now owner limit t node)
unfolding run_claim
claim_owned-Still db now owner limit t none = refl
claim_owned-Still db now owner limit t (some node) =
    if_both (Still t) db.fails_later _ _ refl (if_ok-Still t (check_ownership_metadata t) _ refl)

pub claim-Still :
    (db : Db) (ctx : Context) (now : Time) (owner : String) (generation : ℕ) (partitions : List ℕ)
    (limit : ℤ) (t : PgStore)
    → Still t (claim db ctx now owner generation partitions limit t)
unfolding claim refresh run_claim
claim-Still db done now owner generation partitions limit t = refl
claim-Still db live now owner generation partitions limit t =
    let u = refresh t in
    if_both (Still t) (str_eq owner "") _ _ refl (
      if_both (Still t) (generation == 0) _ _ refl (
        if_both (Still t) (le_zero limit) _ _ refl (
          if_both (Still t) db.fails _ _ refl (
            if_both (Still t) u.distributed_ownership _ _
              (claim_owned-Still db now owner (to_nat limit) u (parse_distributed_owner owner))
              (if_both (Still t) (is_empty partitions) _ _ refl
                (if_both (Still t) db.fails_later _ _ refl refl))))))

pub mark-Still :
    (db : Db) (ctx : Context) (id owner : String) (generation : ℕ) (f : Delivery → Delivery)
    (t : PgStore)
    → Still t (mark db ctx id owner generation f t)
unfolding mark
mark-Still db done id owner generation f t = refl
mark-Still db live id owner generation f t = if_both (Still t) (generation == 0) _ _ refl (
    if_both (Still t) db.fails _ _ refl (
      if_both (Still t) (exists_row (is_claimed t id owner generation) t.deliveries) _ _ refl refl))

pub recover_stale-Still :
    (db : Db) (ctx : Context) (now : Time) (older_than : ℤ) (t : PgStore)
    → Still t (recover_stale db ctx now older_than t)
unfolding recover_stale
recover_stale-Still db done now older_than t = refl
recover_stale-Still db live now older_than t =
    if_both (Still t) db.fails _ _ refl
      (if_both (λ (u : PgStore). u.partition_owners ≡ t.partition_owners) _ _ _ refl refl)

exhaust_row-Still :
    (id : String) (now : Time) (t closed : PgStore) (o : Option Delivery)
    → closed.partition_owners ≡ t.partition_owners
    → Still t (exhaust_row id now t closed o)
unfolding suspend_rows
exhaust_row-Still id now t closed none k = refl
exhaust_row-Still id now t closed (some d) k = apply_retention-owners d.subscriber_id now _ ∙ k

pub exhaust_and_suspend-Still :
    (db : Db) (ctx : Context) (now : Time) (id owner : String) (generation : ℕ) (err_msg : String)
    (t : PgStore)
    → Still t (exhaust_and_suspend db ctx now id owner generation err_msg t)
unfolding exhaust_and_suspend
exhaust_and_suspend-Still db done now id owner generation err_msg t = refl
exhaust_and_suspend-Still db live now id owner generation err_msg t =
    if_both (Still t) (generation == 0) _ _ refl
      (if_both (Still t) db.fails _ _ refl (exhaust_row-Still id now t _ _ refl))

resume_found-Still :
    (sub : String) (now : Time) (t : PgStore) (o : Option SubMeta)
    → Still t (resume_found sub now t o)
unfolding release_rows
resume_found-Still sub now t none = refl
resume_found-Still sub now t (some m) = refl

pub resume-Still :
    (db : Db) (ctx : Context) (now : Time) (sub : String) (t : PgStore)
    → Still t (resume db ctx now sub t)
unfolding resume
resume-Still db done now sub t = refl
resume-Still db live now sub t = if_both (Still t) (str_eq sub "") _ _ refl (
    if_both (Still t) db.fails _ _ refl
      (resume_found-Still sub now (apply_retention sub now t) _ ∙ apply_retention-owners sub now t))
