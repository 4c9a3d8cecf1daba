-- ===== src/Postgres/Owners/Takeover/Reset.antt =====
-- After a ForceTakeover from another node, the claims that were under way on the partition are void.
use sharathfold.Prelude.{
  ℕ, String, Bool, true, false, List, [], ◌∷◌, Memᴰ, some, ◌≡◌, refl, sym, ap, ◌∙◌, subst, arith,
  inl, inr, if_both, if_split, str_eq→eq, ◌≢◌, ◌==◌, ==_iff, str_eq, Bool-cases, true-false,
  not_true,
}
use sharathfold.Store.{Delivery, Context, live, done, Result, ok, is_in_flight}
use sharathfold.Memory.Invariant.{Inv, Image-all, Settle-Inv}
use sharathfold.Memory.Invariant.Steps.{map-Image}
use sharathfold.Postgres.State.{PgStore, OwnerRow, Db, view, find_owner, refresh, exists_row}
use sharathfold.Postgres.Marks.{update_where, to_pending, is_claimed, mark}
use sharathfold.Postgres.Ownership.{
  Owned, in_flight_on, write_owner, hand_over, checked_takeover, force_takeover, reset_in_flight,
}
use sharathfold.Postgres.Owners.Takeover.{Took, guarded-Passed, checked_takeover-Checked}
use sharathfold.Postgres.Keeps.Ownership.{force_takeover-Quiets}
use sharathfold.Postgres.Keeps.Rows.{written, written-Same}
use sharathfold.Postgres.Keeps.Marks.{is_claimed-in_flight, to_pending-Same}

-- No row passes the test, if none does.
exists_row-none :
    (p : Delivery → Bool) (ds : List Delivery)
    → ((d : Delivery) → Memᴰ d ds → p d ≡ false)
    → exists_row p ds ≡ false
unfolding exists_row
exists_row-none p [] h = refl
exists_row-none p (d ∷ ds) h =
    rw (h d (Memᴰ.head refl)) (exists_row-none p ds (λ e m. h e (Memᴰ.tail m)))

-- The reset leaves none of the partition's rows in flight.
reset-idle :
    (p : ℕ) (t : PgStore) (d : Delivery)
    → t.skip_in_flight_reset ≡ false
    → Memᴰ d (reset_in_flight p t).deliveries
    → d.partition ≡ p
    → is_in_flight d.status ≡ false
unfolding reset_in_flight update_where
reset-idle p t d on m =
    Image-all (λ d. d.partition ≡ p → is_in_flight d.status ≡ false)
      (map-Image (written (in_flight_on p) to_pending) t.deliveries
        (written-Same (in_flight_on p) to_pending to_pending-Same))
      (λ x n. idle x) d (rw on at m)
  where
    idle :
        (x : Delivery)
        → (written (in_flight_on p) to_pending x).partition ≡ p
        → is_in_flight (written (in_flight_on p) to_pending x).status ≡ false
    idle x = elim (Bool-cases (in_flight_on p x)) [
      | inl k ↦ rw k (λ _. refl)
      | inr k ↦ rw k (λ h. ground (arith, ==_iff x.partition p))
    ]

-- The one row of a partition is not both the node's and another's.
owner_twice :
    (p : ℕ) (to : String) (t : PgStore) (o x : OwnerRow)
    → find_owner p t.partition_owners ≡ some o
    → find_owner p t.partition_owners ≡ some x
    → str_eq o.owner_node to ≡ false
    → str_eq x.owner_node to ≡ true
    → ⊥
owner_twice p to t o x e e' other mine =
    let q : some o ≡ some x = sym e ∙ e' in
    let same : o ≡ x = cc in
    true-false mine (ap (λ (o : OwnerRow). str_eq o.owner_node to) (sym same) ∙ other)

Took-idle :
    (p : ℕ) (to : String) (expected : ℕ) (t u : PgStore) (o : OwnerRow)
    → find_owner p t.partition_owners ≡ some o
    → str_eq o.owner_node to ≡ false
    → t.skip_in_flight_reset ≡ false
    → Took p to expected t u
    → (d : Delivery) → Memᴰ d u.deliveries
    → d.partition ≡ p
    → is_in_flight d.status ≡ false
unfolding reset_in_flight
Took-idle p to expected t u o e other on (Took.aborted x e' mine same) d m =
    absurd (owner_twice p to t o x e e' other mine)
Took-idle p to expected t u o e other on (Took.kept x e' mine a g) d m =
    absurd (owner_twice p to t o x e e' other mine)
Took-idle p to expected t u o e other on (Took.seized x e' theirs same) d m =
    reset-idle p (write_owner p (hand_over to) t) d on m

-- The key is the row's alone, and the row is not in flight.
not_claimed :
    (u : PgStore) (d e : Delivery) (owner : String) (generation : ℕ)
    → Inv (view u)
    → Memᴰ d u.deliveries
    → Memᴰ e u.deliveries
    → is_in_flight d.status ≡ false
    → is_claimed u d.id owner generation e ≡ false
not_claimed u d e owner generation v m n idle = not_true λ h.
    let same : e ≡ d = v.ids e d n m (str_eq→eq e.id d.id (ground arith)) in
    true-false (is_claimed-in_flight u d.id owner generation e h)
      (ap (λ (x : Delivery). is_in_flight x.status) same ∙ idle)

mark-refused :
    (db : Db) (ctx : Context) (owner : String) (generation : ℕ) (f : Delivery → Delivery)
    (u : PgStore) (d : Delivery)
    → Inv (view u)
    → Memᴰ d u.deliveries
    → is_in_flight d.status ≡ false
    → let r = mark db ctx d.id owner generation f u in (r.0 ≡ u) × (r.1 ≢ ok tt)
unfolding mark
mark-refused db done owner generation f u d v m idle = (refl, λ h. cc)
mark-refused db live owner generation f u d v m idle =
    let Refused : PgStore × Result (Unit {0}) → Type 0 = λ r. (r.0 ≡ u) × (r.1 ≢ ok tt) in
    let none_there =
      exists_row-none (is_claimed u d.id owner generation) u.deliveries
        (λ e n. not_claimed u d e owner generation v m n idle) in
    if_both Refused (generation == 0) _ _ (refl, λ h. cc)
      (if_both Refused db.fails _ _ (refl, λ h. cc)
        (if_split Refused (exists_row (is_claimed u d.id owner generation) u.deliveries) _ _
          (λ h. absurd (true-false h none_there)) (λ _. (refl, λ h. cc))))

-- After a ForceTakeover from another node, with the reset on, no row of the partition is in flight, and
-- the mark of any of them, under any stamp, is refused and changes nothing.
pub force_takeover_fences :
    (db : Db) (ctx : Context) (p : ℕ) (to : String) (expected : ℕ) (t : PgStore) (o : OwnerRow)
    (d : Delivery) (db' : Db) (ctx' : Context) (owner : String) (generation : ℕ)
    (f : Delivery → Delivery)
    → Inv (view t)
    → find_owner p t.partition_owners ≡ some o
    → str_eq o.owner_node to ≡ false
    → t.skip_in_flight_reset ≡ false
    → (force_takeover db ctx p to expected t).1 ≡ Owned.ok tt
    → let u = (force_takeover db ctx p to expected t).0 in
      Memᴰ d u.deliveries
      → d.partition ≡ p
      → let r = mark db' ctx' d.id owner generation f u in
        (is_in_flight d.status ≡ false) × (r.0 ≡ u) × (r.1 ≢ ok tt)
unfolding force_takeover refresh
force_takeover_fences db ctx p to expected t o d db' ctx' owner generation f v e other on h m q =
    let body = checked_takeover db p to expected in
    let k = guarded-Passed db ctx t body h in
    let s = refresh t in
    let c = checked_takeover-Checked db p to expected s (ap (λ x. x.1) (sym k.result) ∙ h) in
    let u = (force_takeover db ctx p to expected t).0 in
    let w = Settle-Inv (view t) (view u) v (force_takeover-Quiets db ctx p to expected t) in
    let n = subst (λ (x : PgStore). Memᴰ d x.deliveries) (ap (λ x. x.0) k.result) m in
    let idle = Took-idle p to expected s (body s).0 o e other on c.took d n q in
    let (same, failed) = mark-refused db' ctx' owner generation f u d w m idle in
    (idle, same, failed)
