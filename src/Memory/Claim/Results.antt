-- ===== src/Memory/Claim/Results.antt =====
-- What Claim of store/memory/memory.go returns: which rows, how many, and that it returns some when it
-- can.
use mathlib.Core.List.Memᴰ
use sharathfold.Prelude.{
  ℕ, ◌+◌, ◌≤◌, String, true, false, List, [], ◌∷◌, Memᴰ, ◌≡◌, arith, inl, inr, str_eq, ◌==◌, leb,
  length, length-append, contains_nat, ℤ, le_zero, to_nat, Bool-cases, Option-cases, Dict, not_true,
}
use sharathfold.Store.{
  Delivery, Status, Time, Context, live, done, is_pending as pending_status, is_unfinished,
}
use sharathfold.Memory.State.{Store, find}
use sharathfold.Memory.Invariant.{Inv, Settle-Inv, suspended}
use sharathfold.Memory.Claim.Keeps.{run_claim-Eligible, eligible-le, eligible-awake}
use sharathfold.Memory.Claim.Calls.{rows_of, counted_call, counted_call-Settle}
use sharathfold.Memory.Claim.{
  Claim, Candidate, Claiming, claim_row, is_backing_off, claim_one, claim_all, run_claim, claim,
  claim_args, is_empty,
}

claim_one-length :
    (c : Claim) (head : Dict ℕ) (k : Candidate) (l : Claiming)
    → (length l.out ≤ length (claim_one c head k l).out)
      × (length (claim_one c head k l).out ≤ length l.out + 1)
unfolding claim_one
claim_one-length c head k l = elim (Option-cases (find k.id l.rows)) [
  | inl e ↦ simp e (ground arith)
  | inr (d, e) ↦ simp e (ground (arith, length-append l.out (claim_row c d ∷ [])))
]

claim_all-length :
    (c : Claim) (head : Dict ℕ) (ks : List Candidate) (l : Claiming)
    → length l.out ≤ to_nat c.limit
    → length (claim_all c head ks l).out ≤ to_nat c.limit
unfolding claim_all
claim_all-length c head [] l h = h
claim_all-length c head (k ∷ ks) l h = elim (Bool-cases (leb (to_nat c.limit) (length l.out))) [
  | inl t ↦ rw t h
  | inr t ↦ rw t (
      claim_all-length c head ks (claim_one c head k l)
        (ground (arith, (claim_one-length c head k l).1)))
]

pub claim_all-grows :
    (c : Claim) (head : Dict ℕ) (ks : List Candidate) (l : Claiming)
    → length l.out ≤ length (claim_all c head ks l).out
unfolding claim_all
claim_all-grows c head [] l = omega arith
claim_all-grows c head (k ∷ ks) l = elim (Bool-cases (leb (to_nat c.limit) (length l.out))) [
  | inl t ↦ rw t (omega arith)
  | inr t ↦ rw t (
      omega
        (arith, (claim_one-length c head k l).0, claim_all-grows c head ks (claim_one c head k l)))
]

run_claim-limit : (c : Claim) (s : Store) → length (run_claim c s).1 ≤ to_nat c.limit
unfolding run_claim
run_claim-limit c s = claim_all-length c _ _ _ (omega arith)

-- A claim never returns more rows than its limit, and none for a limit that is not positive, under
-- any settings and on any store.
pub claim-limit :
    (ctx : Context) (now : Time) (owner : String) (generation : ℕ) (partitions : List ℕ) (limit : ℤ)
    (s : Store)
    → length (rows_of (claim ctx now owner generation partitions limit s).1) ≤ to_nat limit
unfolding claim
claim-limit done now owner generation partitions limit s = omega arith
claim-limit live now owner generation partitions limit s = ground (
  arith,
  run_claim-limit (claim_args owner generation partitions limit now s)
      (record s { claim_calls = s.claim_calls + 1 }),
)

mem-claim :
    (ctx : Context) (now : Time) (owner : String) (generation : ℕ) (partitions : List ℕ) (limit : ℤ)
    (s : Store) (o : Delivery)
    → Memᴰ o (rows_of (claim ctx now owner generation partitions limit s).1)
    → Memᴰ o (run_claim (claim_args owner generation partitions limit now s) (counted_call s)).1
unfolding claim
mem-claim done now owner generation partitions limit s o m = absurd (Memᴰ.not-nil m)
mem-claim live now owner generation partitions limit s o m = elim (Bool-cases (str_eq owner "")) [
  | inl k ↦ absurd (Memᴰ.not-nil (rw k at m))
  | inr k ↦ elim (Bool-cases (generation == 0)) [
    | inl l ↦ absurd (Memᴰ.not-nil (rw (k, l) at m))
    | inr l ↦ elim (Bool-cases (le_zero limit)) [
      | inl j ↦ absurd (Memᴰ.not-nil (rw (k, l, j) at m))
      | inr j ↦ elim (Bool-cases (is_empty partitions)) [
        | inl i ↦ absurd (Memᴰ.not-nil (rw (k, l, j, i) at m))
        | inr i ↦ rw (k, l, j, i) at m
      ]
    ]
  ]
]

-- The row may be claimed at the time `now` by the owner of the partitions.
pub record Claimable (s : Store) (now : Time) (partitions : List ℕ) (d : Delivery) : Type 0 where
  pub there : Memᴰ d s.by_id
  pub is_pending : d.status ≡ Status.pending
  pub not_suspended : suspended s d.subscriber_id ≡ false
  pub due : d.next_attempt ≤ now
  pub in_partition : contains_nat partitions d.partition ≡ true
  -- Nothing of its subscriber that comes before it is pending or in flight.
  pub first :
      (e : Delivery)
      → Memᴰ e s.by_id
      → d.subscriber_id ≡ e.subscriber_id
      → is_unfinished e.status ≡ true
      → d.sequence ≤ e.sequence

due_of : (now : Time) (d : Delivery) → is_backing_off now d ≡ false → d.next_attempt ≤ now
due_of now d h = ground arith

pending_of : (st : Status) → pending_status st ≡ true → st ≡ Status.pending
pending_of st h = ground arith

-- On a store that satisfies the invariant, each row that a claim returns was claimable: it was pending,
-- due, in a partition of the caller, its subscriber was not suspended, and no earlier row of that
-- subscriber was pending or in flight. It is returned in flight under the caller's owner and
-- generation, with the time of the claim and one attempt more.
pub claim_sound :
    (ctx : Context) (now : Time) (owner : String) (generation : ℕ) (partitions : List ℕ) (limit : ℤ)
    (s : Store) (o : Delivery)
    → Inv s
    → Memᴰ o (rows_of (claim ctx now owner generation partitions limit s).1)
    → (d : Delivery) × Claimable s now partitions d
      × (o ≡ record d {
        status = Status.in_flight;
        owner = owner;
        generation = generation;
        claimed_at = now;
        attempt = d.attempt + 1;
      })
claim_sound ctx now owner generation partitions limit s o v m =
    let c = claim_args owner generation partitions limit now s in
    let t = counted_call s in
    let v' = Settle-Inv s t v (counted_call-Settle s) in
    let (d, n, q, el) =
      run_claim-Eligible c t v' v.hol_on v.gate_on o
        (mem-claim ctx now owner generation partitions limit s o m) in
    (
      d,
      record {
        there = n;
        is_pending = pending_of d.status el.is_pending;
        not_suspended = not_true (eligible-awake c t v' v.hol_on v.gate_on d el);
        due = due_of now d el.due;
        in_partition = el.in_partition;
        first = λ e k h u. eligible-le c t v' v.hol_on v.gate_on d e el k h u;
      },
      q,
    )
