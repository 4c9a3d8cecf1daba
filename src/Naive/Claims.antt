-- ===== src/Naive/Claims.antt =====
-- How many rows Claim of bench/naive/queue.go returns.
use mathlib.Core.List.Memᴰ
use sharathfold.Prelude.{
  ℕ, ◌+◌, ◌≤◌, min, String, Bool, true, false, not, ◌&&◌, List, [], ◌∷◌, Memᴰ, some, ◌≡◌, refl, sym,
  ap, subst, arith, inl, inr, str_eq, eq_iff, leb, length, length-append, ℤ, to_nat, le_zero, ◌==◌,
  ◌≢◌, not_true, if◌then◌else◌, Bool-cases, sort_by, mem-sort_by, length-sort_by,
}
use sharathfold.Store.{
  Delivery, Status, pending, in_flight, delivered, dead_lettered, retained, Time, live, is_pending,
  is_zero, after,
}
use sharathfold.Memory.State.{find, update}
use sharathfold.Memory.Claim.Calls.{rows_of}
use sharathfold.Naive.{
  Queue, Claim, Candidate, Claiming, is_due, collect, candidate_less, claim_row, claim_found,
  claim_all, run_claim, claim,
}

-- A row that is pending, and whose next attempt is not later than the time.
is_ready : Time → Status → Time → Bool
is_ready now pending next = leb next now
is_ready now in_flight next = false
is_ready now delivered next = false
is_ready now dead_lettered next = false
is_ready now retained next = false

-- The rows that a claim may take.
pub count_ready : Time → List Delivery → ℕ
unfolding is_ready
count_ready now [] = 0
count_ready now (d ∷ ds) =
    let n = count_ready now ds in if is_ready now d.status d.next_attempt then n + 1 else n

-- The guards of the loop find these rows.
due-eq-ready :
    (now next : Time) (status : Status)
    → (is_pending status && not (not (is_zero next) && after next now)) ≡ is_ready now status next
unfolding is_ready
due-eq-ready now next pending = ground arith
due-eq-ready now next in_flight = refl
due-eq-ready now next delivered = refl
due-eq-ready now next dead_lettered = refl
due-eq-ready now next retained = refl

collect-length : (now : Time) (ds : List Delivery) → length (collect now ds) ≡ count_ready now ds
unfolding collect count_ready
collect-length now [] = refl
collect-length now (d ∷ ds) =
    ground (arith, collect-length now ds, due-eq-ready now d.next_attempt d.status)

-- The key is there.
abbrev Found : List Delivery → String → Type 0
Found rows id = (d : Delivery) × (find id rows ≡ some d)

-- A write keeps every key.
Found-update :
    (c : Claim) (id key : String) (rows : List Delivery)
    → Found rows key
    → Found (update id (claim_row c) rows) key
unfolding find update
Found-update c id key [] h = h
Found-update c id key (e ∷ rows) (d, h) = elim (Bool-cases (str_eq e.id key)) [
  | inl k ↦ elim (Bool-cases (str_eq e.id id)) [
    | inl j ↦ (claim_row c e, rw (j, k) refl)
    | inr j ↦ (e, rw (j, k) refl)
  ]
  | inr k ↦
      let (f, r) = Found-update c id key rows (d, rw k at h) in
      elim (Bool-cases (str_eq e.id id)) [ inl j ↦ (f, rw (j, k) r) | inr j ↦ (f, rw (j, k) r) ]
]

Found-mem : (ds : List Delivery) (d : Delivery) → Memᴰ d ds → Found ds d.id
unfolding find
Found-mem [] d m = absurd (Memᴰ.not-nil m)
Found-mem (e ∷ ds) d m = elim (Bool-cases (str_eq e.id d.id)) [
  | inl k ↦ (e, rw k refl)
  | inr k ↦ elim (Memᴰ.cases_cons m) [
    | inl q ↦ (e, let t = ap (λ (x : Delivery). x.id) (sym q) in rw ((eq_iff e.id d.id).1 t) refl)
    | inr n ↦ let (f, r) = Found-mem ds d n in (f, rw k r)
  ]
]

collect-Found :
    (now : Time) (ds : List Delivery) (k : Candidate)
    → Memᴰ k (collect now ds)
    → (d : Delivery) × Memᴰ d ds × (k.id ≡ d.id)
unfolding collect
collect-Found now [] k m = absurd (Memᴰ.not-nil m)
collect-Found now (e ∷ ds) k m = elim (Bool-cases (is_due now e)) [
  | inl h ↦ elim (Memᴰ.cases_cons (rw h at m)) [
    | inl q ↦ (e, Memᴰ.head refl, ap (λ (x : Candidate). x.id) q)
    | inr n ↦ let (d, l, r) = collect-Found now ds k n in (d, Memᴰ.tail l, r)
  ]
  | inr h ↦ let (d, l, r) = collect-Found now ds k (rw h at m) in (d, Memᴰ.tail l, r)
]

claim_all-length :
    (c : Claim) (ks : List Candidate) (l : Claiming)
    → ((k : Candidate) → Memᴰ k ks → Found l.rows k.id)
    → length l.out ≤ to_nat c.limit
    → length (claim_all c ks l).out ≡ min (to_nat c.limit) (length l.out + length ks)
unfolding claim_all
claim_all-length c [] l found h = omega arith
claim_all-length c (k ∷ ks) l found h = elim (Bool-cases (leb (to_nat c.limit) (length l.out))) [
  | inl t ↦ rw t (ground arith)
  | inr t ↦
      let (d, r) = found k (Memᴰ.head refl) in
      let one = length-append l.out (claim_row c d ∷ []) in
      rw (t, r)
        (omega (
          arith,
          one,
          claim_all-length c ks (claim_found c l (some d))
              (λ j m. Found-update c d.id j.id l.rows (found j (Memᴰ.tail m)))
              (ground (arith, one)),
        ))
]

-- Every candidate is a row.
run_claim-length :
    (c : Claim) (q : Queue)
    → length (run_claim c q).1 ≡ min (to_nat c.limit) (count_ready c.now q.by_id)
unfolding run_claim
run_claim-length c q =
    let ks = collect c.now q.by_id in
    omega (
      arith,
      claim_all-length c (sort_by candidate_less ks) (record { rows = q.by_id; out = [] })
          (λ k m.
            let (d, n, e) = collect-Found c.now q.by_id k (mem-sort_by candidate_less ks m) in
            subst (λ key. Found q.by_id key) (sym e) (Found-mem q.by_id d n))
          (omega arith),
      length-sort_by candidate_less ks,
      collect-length c.now q.by_id,
    )

to_nat-zero : (i : ℤ) → le_zero i ≡ true → to_nat i ≡ 0
to_nat-zero i h = ground arith

-- A claim under a live context, an owner and a generation returns as many rows as are pending and due,
-- but no more than its limit: a limit that is not positive returns none.
pub claim-count :
    (now : Time) (owner : String) (generation : ℕ) (limit : ℤ) (q : Queue)
    → owner ≢ ""
    → generation ≢ 0
    → length (rows_of (claim live now owner generation limit q).1)
      ≡ min (to_nat limit) (count_ready now q.by_id)
unfolding claim
claim-count now owner generation limit q ho hg =
    let named : str_eq owner "" ≡ false = not_true (λ e. ho ((eq_iff owner "").0 e)) in
    let stamped : (generation == 0) ≡ false = ground arith in
    let c : Claim = record {
      claim_owner = owner;
      claim_generation = generation;
      limit = limit;
      now = now;
    } in
    elim (Bool-cases (le_zero limit)) [
      | inl k ↦ rw (named, stamped, k) (omega (arith, to_nat-zero limit k))
      | inr k ↦ rw (named, stamped, k) (run_claim-length c q)
    ]
