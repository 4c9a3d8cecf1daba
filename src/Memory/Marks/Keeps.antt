-- ===== src/Memory/Marks/Keeps.antt =====
-- The marks of store/memory/memory.go settle the one row that they are given, and RecoverStale
-- settles rows.
use sharathfold.Prelude.{
  ℕ, String, true, false, List, [], ◌∷◌, map, Memᴰ, ◌≡◌, refl, sym, ap, ◌∙◌, subst, arith, ◌≢◌, inl,
  inr, some, ltb, ◌==◌, eq_iff, Bool-cases, Option-cases, ℤ,
}
use sharathfold.Store.{
  Delivery, Status, Time, Context, live, done, Result, ok, err, is_in_flight, add_neg,
  mark_requires_generation, unknown_delivery,
}
use sharathfold.Memory.State.{Store, signal, find}
use sharathfold.Memory.Rows.{mem-find}
use sharathfold.Memory.Invariant.{Inv, Same, Settles, Settle, is_open}
use sharathfold.Memory.Invariant.Steps.{Settle-refl, update-Settle, map-Image}
use sharathfold.Memory.Marks.{
  check_claim, require_owner, write_row, finish_mark, close_row, mark_terminal, retry_row,
  mark_failed, recover_row, recover_rows, recover_stale,
}

-- The row `d` is in flight under the stamp of the caller.
pub record Owned (id owner : String) (generation : ℕ) (s : Store) (d : Delivery) : Type 0 where
  pub there : find id s.by_id ≡ some d
  pub in_flight : is_in_flight d.status ≡ true
  pub owner_is : d.owner ≡ owner
  pub generation_is : d.generation ≡ generation
  pub generation_set : generation ≢ 0

check_claim-ok :
    (id owner : String) (generation : ℕ) (e d : Delivery)
    → check_claim id owner generation (some e) ≡ ok d
    → (e ≡ d) × (is_in_flight e.status ≡ true) × (e.owner ≡ owner) × (e.generation ≡ generation)
check_claim-ok id owner generation e d h = ground (arith, eq_iff e.owner owner)

-- A mark goes through only for the row that is in flight under the caller's stamp.
pub require_owner-Owned :
    (id owner : String) (generation : ℕ) (s : Store) {d : Delivery}
    → require_owner id owner generation s ≡ ok d
    → Owned id owner generation s d
unfolding require_owner
require_owner-Owned id owner generation s {d} h = elim (Bool-cases (generation == 0)) [
  | inl k ↦ let p : err mark_requires_generation ≡ ok d = rw k at h in cc
  | inr k ↦
      let p : check_claim id owner generation (find id s.by_id) ≡ ok d = rw k at h in
      elim (Option-cases (find id s.by_id)) [
        | inl e ↦ let q : err (unknown_delivery id) ≡ ok d = rw e at p in cc
        | inr (x, e) ↦
            let (same, flight, o, g) = check_claim-ok id owner generation x d (rw e at p) in
            record {
              there = e ∙ ap some same;
              in_flight = rw same at flight;
              owner_is = rw same at o;
              generation_is = rw same at g;
              generation_set = ground arith;
            }
      ]
]

-- The checks pass for such a row.
pub Owned-require_owner :
    (id owner : String) (generation : ℕ) (s : Store) (d : Delivery)
    → Owned id owner generation s d
    → require_owner id owner generation s ≡ ok d
unfolding require_owner
Owned-require_owner id owner generation s d o = rw o.there (ground (arith, eq_iff d.owner owner))

-- The row under the key is the row in flight.
pub Owned-only :
    {id owner : String} {generation : ℕ} {s : Store} {d : Delivery}
    → Inv s
    → Owned id owner generation s d
    → (e : Delivery) → Memᴰ e s.by_id
    → e.id ≡ id
    → is_in_flight e.status ≡ true
Owned-only {id = id} {s = s} {d = d} v o e m h =
    let (n, p) = mem-find id s.by_id o.there in
    subst (λ (x : Delivery). is_in_flight x.status ≡ true) (v.ids d e n m (p ∙ sym h)) o.in_flight

-- A write that settles the row in flight under the caller's stamp, and wakes the workers.
module _ (P : Store → Store → Type 0) (s : Store) (id owner : String) (generation : ℕ)
    (s' : Store) where
  pub finish_mark-cases :
      P s s
      → ((d : Delivery) → Owned id owner generation s d → P s (signal s'))
      → P s (finish_mark s s' (require_owner id owner generation s)).0
  finish_mark-cases refused passed = go (require_owner id owner generation s) refl
    where
      go :
          (r : Result Delivery)
          → require_owner id owner generation s ≡ r
          → P s (finish_mark s s' r).0
      go (ok d) e = passed d (require_owner-Owned id owner generation s e)
      go (err x) e = refused

-- To write the row in flight settles, if it settles any row in flight.
pub update-Settle-Owned :
    (s : Store) (id owner : String) (generation : ℕ) (d : Delivery) (f : Delivery → Delivery)
    → Inv s
    → Owned id owner generation s d
    → ((d : Delivery) → Same d (f d))
    → ((d : Delivery) → is_in_flight d.status ≡ true → Settles d (f d))
    → Settle s (write_row id f s)
update-Settle-Owned s id owner generation d f v o same settles =
    update-Settle id f s same (λ e m h. settles e (Owned-only v o e m h))

module _ (s : Store) (v : Inv s) (id owner : String) (generation : ℕ) where
  write_owned-Settle :
      (f : Delivery → Delivery)
      → ((d : Delivery) → Same d (f d))
      → ((d : Delivery) → is_in_flight d.status ≡ true → Settles d (f d))
      → Settle s (finish_mark s (write_row id f s) (require_owner id owner generation s)).0
  write_owned-Settle f same settles =
      finish_mark-cases Settle s id owner generation (write_row id f s) (Settle-refl s) λ d o.
        let k = update-Settle-Owned s id owner generation d f v o same settles in
        record {
          g = k.g;
          image = k.image;
          settles = k.settles;
          suspension = k.suspension;
          counters = k.counters;
          hol = k.hol;
          gate = k.gate;
        }

pub close_row-Same :
    (status : Status) (err_msg : String) (d : Delivery) → Same d (close_row status err_msg d)
close_row-Same status err_msg d = record { id = refl; subscriber_id = refl; sequence = refl }

pub close_row-Settles :
    (status : Status) (err_msg : String) (d : Delivery)
    → is_open status ≡ false
    → Settles d (close_row status err_msg d)
close_row-Settles status err_msg d h = ground arith

pub retry_row-Settles :
    (attempt : ℕ) (next : Time) (err_msg : String) (d : Delivery)
    → is_in_flight d.status ≡ true
    → Settles d (retry_row attempt next err_msg d)
retry_row-Settles attempt next err_msg d h = ground arith

-- MarkDelivered and MarkDeadLetter, whose status is final.
pub mark_terminal-Settle :
    (ctx : Context) (id owner : String) (generation : ℕ) (status : Status) (err_msg : String)
    (s : Store)
    → Inv s
    → is_open status ≡ false
    → Settle s (mark_terminal ctx id owner generation status err_msg s).0
unfolding mark_terminal
mark_terminal-Settle live id owner generation status err_msg s v h =
    write_owned-Settle s v id owner generation (close_row status err_msg)
      (close_row-Same status err_msg) (λ d _. close_row-Settles status err_msg d h)
mark_terminal-Settle done id owner generation status err_msg s v h = Settle-refl s

pub mark_failed-Settle :
    (ctx : Context) (id owner : String) (generation attempt : ℕ) (next : Time) (err_msg : String)
    (s : Store)
    → Inv s
    → Settle s (mark_failed ctx id owner generation attempt next err_msg s).0
unfolding mark_failed
mark_failed-Settle live id owner generation attempt next err_msg s v =
    write_owned-Settle s v id owner generation (retry_row attempt next err_msg)
      (λ d. record { id = refl; subscriber_id = refl; sequence = refl })
      (retry_row-Settles attempt next err_msg)
mark_failed-Settle done id owner generation attempt next err_msg s v = Settle-refl s

recover_rows-map :
    (cutoff : Time) (ds : List Delivery) → (recover_rows cutoff ds).0 ≡ map (recover_row cutoff) ds
unfolding recover_rows
recover_rows-map cutoff [] = refl
recover_rows-map cutoff (d ∷ ds) = ap (◌∷◌ (recover_row cutoff d)) (recover_rows-map cutoff ds)

recover_row-Same : (cutoff : Time) (d : Delivery) → Same d (recover_row cutoff d)
recover_row-Same cutoff d = ground arith

recover_row-Settles : (cutoff : Time) (d : Delivery) → Settles d (recover_row cutoff d)
recover_row-Settles cutoff d = ground arith

recovered-Settle :
    (cutoff : Time) (s t : Store)
    → t.by_id ≡ map (recover_row cutoff) s.by_id
    → t.subs ≡ s.subs
    → t.seq ≡ s.seq
    → t.disable_hol ≡ s.disable_hol
    → t.skip_suspend_gate ≡ s.skip_suspend_gate
    → Settle s t
recovered-Settle cutoff s t rows subs seq hol gate = record {
  g = recover_row cutoff;
  image = rw rows (map-Image (recover_row cutoff) s.by_id (recover_row-Same cutoff));
  settles = λ d m. recover_row-Settles cutoff d;
  suspension = λ x. rw subs;
  counters = λ x. rw seq;
  hol = hol;
  gate = gate;
}

pub recover_stale-Settle :
    (ctx : Context) (now : Time) (older_than : ℤ) (s : Store)
    → Settle s (recover_stale ctx now older_than s).0
unfolding recover_stale
recover_stale-Settle done now older_than s = Settle-refl s
recover_stale-Settle live now older_than s =
    elim (Bool-cases (ltb 0 (recover_rows (add_neg now older_than) s.by_id).1)) [
      | inl k ↦ rw k (
          recovered-Settle (add_neg now older_than) s _
            (recover_rows-map (add_neg now older_than) s.by_id) refl refl refl refl)
      | inr k ↦ rw k (
          recovered-Settle (add_neg now older_than) s _
            (recover_rows-map (add_neg now older_than) s.by_id) refl refl refl refl)
    ]
