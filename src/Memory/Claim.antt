-- ===== src/Memory/Claim.antt =====
-- Claim of store/memory/memory.go, with its head-of-line gate.
pub mod Heads
pub mod Liveness
pub mod Results
pub mod Calls
pub mod Keeps
pub mod Loop
pub mod Candidates
use sharathfold.Prelude.{
  ℕ, zero, suc, ◌+◌, ◌<◌, String, Bool, true, false, not, ◌&&◌, ◌||◌, List, [], ◌∷◌, ◌++◌, Option,
  none, some, if◌then◌else◌, ltb, leb, ◌==◌, str_eq, str_ltb, ℤ, le_zero, to_nat, Dict, lookup,
  insert, contains, contains_nat, length, sort_by,
}
use sharathfold.Store.{
  Delivery, Status, Time, Context, with_context, Result, ok, err, context_error, is_pending,
  is_unfinished, is_zero, after, claim_requires_owner, claim_requires_generation,
}
use sharathfold.Memory.State.{Store, SubMeta, meta_of, touch_meta, find, update, seq_of}

-- What a call of Claim reads: its arguments, the time, and the gates of the store.
pub record Claim : Type 0 where
  pub claim_owner : String
  pub claim_generation : ℕ
  pub partitions : List ℕ
  pub limit : ℤ
  pub now : Time
  pub disable_hol : Bool
  pub skip_suspend_gate : Bool

-- if cur, ok := head[sub]; !ok || d.Sequence < cur
abbrev pub is_lower : ℕ → Option ℕ → Bool
is_lower n none = true
is_lower n (some cur) = ltb n cur

-- The earliest unfinished sequence of each subscriber.
unfoldable pub heads : List Delivery → Dict ℕ → Dict ℕ
heads [] head = head
heads (d ∷ ds) head = heads ds (
    if is_unfinished d.status && is_lower d.sequence (lookup d.subscriber_id head)
    then insert d.subscriber_id d.sequence head
    else head)

pub record Candidate : Type 0 where
  pub id : String
  pub seq : ℕ
  pub sub : String

abbrev pub candidate_of : Delivery → Candidate
candidate_of d = record { id = d.id; seq = d.sequence; sub = d.subscriber_id }

-- The guards of the second loop, in order. The subscriber's record is read after the status.
abbrev pub is_suspended : Claim → Dict SubMeta → Delivery → Bool
is_suspended c subs d = not c.skip_suspend_gate && (meta_of subs d.subscriber_id).suspended

abbrev pub is_backing_off : Time → Delivery → Bool
is_backing_off now d = not (is_zero d.next_attempt) && after d.next_attempt now

-- !s.DisableHOL && head[d.SubscriberID] != d.Sequence
abbrev pub is_behind : Claim → Dict ℕ → Delivery → Bool
is_behind c head d = not c.disable_hol && not (seq_of head d.subscriber_id == d.sequence)

unfoldable pub is_eligible : Claim → Dict ℕ → Dict SubMeta → Delivery → Bool
is_eligible c head subs d =
    is_pending d.status
    && not (is_suspended c subs d)
    && not (is_backing_off c.now d)
    && contains_nat c.partitions d.partition
    && not (is_behind c head d)

-- The second loop: the candidates, and the subscribers' records after `s.meta`.
unfoldable pub collect :
    Claim → Dict ℕ → List Delivery → Dict SubMeta → List Candidate × Dict SubMeta
collect c head [] subs = ([], subs)
collect c head (d ∷ ds) subs =
    let subs' =
      if is_pending d.status && not c.skip_suspend_gate
      then touch_meta d.subscriber_id subs
      else subs in
    let (rest, subs'') = collect c head ds subs' in
    (if is_eligible c head subs d then candidate_of d ∷ rest else rest, subs'')

-- The order of sort.Slice: by subscriber, then by sequence.
abbrev pub candidate_less : Candidate → Candidate → Bool
candidate_less a b = if str_eq a.sub b.sub then ltb a.seq b.seq else str_ltb a.sub b.sub

-- The variables of the last loop.
pub record Claiming : Type 0 where
  pub rows : List Delivery
  pub claimed_subs : List String
  pub out : List Delivery

-- The writes through the pointer: the row becomes in_flight under the claim's stamp.
abbrev pub claim_row : Claim → Delivery → Delivery
claim_row c d = record d {
  status = Status.in_flight;
  owner = c.claim_owner;
  generation = c.claim_generation;
  claimed_at = c.now;
  attempt = d.attempt + 1;
}

-- One candidate. A candidate's id is a key of the map, so `none` is not met: Go would dereference
-- a nil pointer there.
abbrev pub claim_found : Claim → Dict ℕ → Claiming → Option Delivery → Claiming
claim_found c head l none = l
claim_found c head l (some d) = if is_behind c head d then l else record {
  rows = update d.id (claim_row c) l.rows;
  claimed_subs = if c.disable_hol then l.claimed_subs else d.subscriber_id ∷ l.claimed_subs;
  out = l.out ++ claim_row c d ∷ [];
}

unfoldable pub claim_one : Claim → Dict ℕ → Candidate → Claiming → Claiming
claim_one c head k l =
    if not c.disable_hol && contains l.claimed_subs k.sub
    then l
    else claim_found c head l (find k.id l.rows)

unfoldable pub claim_all : Claim → Dict ℕ → List Candidate → Claiming → Claiming
claim_all c head [] l = l
claim_all c head (k ∷ ks) l =
    let rest = claim_all c head ks (claim_one c head k l) in
    if leb (to_nat c.limit) (length l.out) then l else rest

-- The first loop runs only under the gate.
abbrev pub head_map : Claim → List Delivery → Dict ℕ
head_map c rows = if c.disable_hol then [] else heads rows []

-- The body under the mutex, after the partitions are found not to be empty.
unfoldable pub run_claim : Claim → Store → Store × List Delivery
run_claim c s =
    let head = head_map c s.by_id in
    let (candidates, subs') = collect c head s.by_id s.subs in
    let l =
      claim_all c head (sort_by candidate_less candidates)
        (record { rows = s.by_id; claimed_subs = []; out = [] }) in
    (
      record s {
        by_id = l.rows;
        subs = subs';
        claim_rows = s.claim_rows + length l.out;
        claim_non_empty = if ltb 0 (length l.out) then s.claim_non_empty + 1 else s.claim_non_empty;
      },
      l.out,
    )

abbrev pub is_empty {ℓ} : {A : Type ℓ} → List A → Bool
is_empty [] = true
is_empty (x ∷ xs) = false

abbrev pub claim_args : String → ℕ → List ℕ → ℤ → Time → Store → Claim
claim_args owner generation partitions limit now s = record {
  claim_owner = owner;
  claim_generation = generation;
  partitions = partitions;
  limit = limit;
  now = now;
  disable_hol = s.disable_hol;
  skip_suspend_gate = s.skip_suspend_gate;
}

abbrev pub returned : Store × List Delivery → Store × Result (List Delivery)
returned (s, out) = (s, ok out)

unfoldable pub claim :
    Context → Time → String → ℕ → List ℕ → ℤ → Store → Store × Result (List Delivery)
claim ctx now owner generation partitions limit s =
    let called = record s { claim_calls = s.claim_calls + 1 } in
    with_context ctx (s, err context_error)
      (if str_eq owner ""
        then (s, err claim_requires_owner)
        else if generation == 0
        then (s, err claim_requires_generation)
        else if le_zero limit
        then (s, ok [])
        else if is_empty partitions
        then (called, ok [])
        else returned (run_claim (claim_args owner generation partitions limit now s) called))
