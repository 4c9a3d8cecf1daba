-- ===== src/Memory/Claim/Liveness.antt =====
-- Claim of store/memory/memory.go returns something whenever a row may be claimed.
use mathlib.Core.List.Memᴰ
use sharathfold.Prelude.{
  ℕ, zero, suc, ◌<◌, String, true, false, List, [], ◌∷◌, Memᴰ, ◌≡◌, ◌≢◌, refl, ap, ◌∙◌, arith, inl,
  inr, some, str_eq, eq_iff, ◌==◌, leb, length, contains, contains_nat, ℤ, pos, negsuc, not_true,
  le_zero, to_nat, Bool-cases, Dict, sort_by, sort_by-mem, mem-sort_by,
}
use sharathfold.Store.{Delivery, Time, live, is_unfinished, is_pending as pending_status}
use sharathfold.Memory.State.{Store, find}
use sharathfold.Memory.Rows.{find-mem}
use sharathfold.Memory.Invariant.{Inv, Settle-Inv}
use sharathfold.Memory.Claim.Heads.{heads-eq}
use sharathfold.Memory.Claim.Candidates.{Eligible_of, Source, collect-mem, mem-collect}
use sharathfold.Memory.Claim.Calls.{rows_of, counted_call, counted_call-Settle}
use sharathfold.Memory.Claim.Results.{Claimable, claim_all-grows}
use sharathfold.Memory.Claim.{
  Claim, Candidate, Claiming, candidate_less, is_eligible, head_map, collect, claim_one, claim_all,
  run_claim, claim, claim_args, is_empty,
}

-- The variables before the last loop.
abbrev start : List Delivery → Claiming
start rows = record { rows = rows; claimed_subs = []; out = [] }

-- The first candidate is claimed.
claim_one-first :
    (c : Claim) (head : Dict ℕ) (s : Store) (k : Candidate)
    → Inv s
    → Source c head s.by_id s.subs k
    → length (claim_one c head k (start s.by_id)).out ≡ 1
unfolding claim_one contains
claim_one-first c head s k v (d, m, q, e) =
    let found : find k.id s.by_id ≡ some d =
      ap (λ (x : Candidate). find x.id s.by_id) q ∙ find-mem s.by_id m (λ f n h. v.ids f d n m h) in
    let el = Eligible_of c head s.subs d e in
    elim (Bool-cases c.disable_hol) [
      | inl h ↦ simp (h, found) (ground (arith, el.first))
      | inr h ↦ simp (h, found) (ground (arith, el.first))
    ]

claim_all-first :
    (c : Claim) (head : Dict ℕ) (s : Store) (ks : List Candidate)
    → Inv s
    → 0 < to_nat c.limit
    → ((k : Candidate) → Memᴰ k ks → Source c head s.by_id s.subs k)
    → 0 < length ks
    → 0 < length (claim_all c head ks (start s.by_id)).out
unfolding claim_all
claim_all-first c head s [] v l src h = absurd (omega arith)
claim_all-first c head s (k ∷ ks) v l src h =
    let room : leb (to_nat c.limit) 0 ≡ false = ground arith in
    rw room (
      omega (
        arith,
        claim_one-first c head s k v (src k (Memᴰ.head refl)),
        claim_all-grows c head ks (claim_one c head k (start s.by_id)),
      ))

length_pos_of_mem {ℓ} : {A : Type ℓ} {x : A} (xs : List A) → Memᴰ x xs → 0 < length xs
length_pos_of_mem [] m = absurd (Memᴰ.not-nil m)
length_pos_of_mem (y ∷ xs) m = omega arith

run_claim-pos :
    (c : Claim) (s : Store) (d : Delivery)
    → Inv s
    → 0 < to_nat c.limit
    → Memᴰ d s.by_id
    → is_eligible c (head_map c s.by_id) s.subs d ≡ true
    → 0 < length (run_claim c s).1
unfolding run_claim
run_claim-pos c s d v l m e =
    let head = head_map c s.by_id in
    let ks = (collect c head s.by_id s.subs).0 in
    claim_all-first c head s (sort_by candidate_less ks) v l
      (λ k n. mem-collect c head s.by_id s.subs k (mem-sort_by candidate_less ks n))
      (length_pos_of_mem (sort_by candidate_less ks)
        (sort_by-mem candidate_less ks (collect-mem c head s.by_id s.subs d m e)))

not_empty : (ps : List ℕ) (p : ℕ) → contains_nat ps p ≡ true → is_empty ps ≡ false
unfolding contains_nat
not_empty [] p h = cc
not_empty (x ∷ ps) p h = refl

to_nat-pos : (i : ℤ) → le_zero i ≡ false → 0 < to_nat i
to_nat-pos (pos zero) h = cc
to_nat-pos (pos (suc n)) h = omega arith
to_nat-pos (negsuc n) h = cc

-- A claimable row passes the guards of Claim.
Claimable-is_eligible :
    (now : Time) (owner : String) (generation : ℕ) (partitions : List ℕ) (limit : ℤ) (s : Store)
    (d : Delivery)
    → Inv s
    → Claimable s now partitions d
    → let c = claim_args owner generation partitions limit now s in
      is_eligible c (head_map c s.by_id) s.subs d ≡ true
unfolding is_eligible
Claimable-is_eligible now owner generation partitions limit s d v k =
    let u : is_unfinished d.status ≡ true = ap is_unfinished k.is_pending in
    let p : pending_status d.status ≡ true = ap pending_status k.is_pending in
    ground (
      arith,
      p,
      v.hol_on,
      v.gate_on,
      k.not_suspended,
      k.due,
      k.in_partition,
      heads-eq s.by_id d k.there u k.first,
    )

-- On a store that satisfies the invariant, a claim with a live context, an owner, a generation, and a
-- positive limit returns at least one row whenever some row is claimable for its partitions. So a
-- worker never sleeps while a delivery of its own could go out.
pub claim_progress :
    (now : Time) (owner : String) (generation : ℕ) (partitions : List ℕ) (limit : ℤ) (s : Store)
    (d : Delivery)
    → Inv s
    → owner ≢ ""
    → generation ≢ 0
    → le_zero limit ≡ false
    → Claimable s now partitions d
    → 0 < length (rows_of (claim live now owner generation partitions limit s).1)
unfolding claim
claim_progress now owner generation partitions limit s d v ho hg hl k =
    let c = claim_args owner generation partitions limit now s in
    let t = counted_call s in
    let v' = Settle-Inv s t v (counted_call-Settle s) in
    let e = Claimable-is_eligible now owner generation partitions limit s d v k in
    let named : str_eq owner "" ≡ false = not_true (λ q. ho ((eq_iff owner "").0 q)) in
    let stamped : (generation == 0) ≡ false = ground arith in
    rw (named, stamped, hl, not_empty partitions d.partition k.in_partition)
      (run_claim-pos c t d v' (to_nat-pos limit hl) k.there e)
