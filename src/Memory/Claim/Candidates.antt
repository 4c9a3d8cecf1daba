-- ===== src/Memory/Claim/Candidates.antt =====
-- The second loop of Claim of store/memory/memory.go: which rows become candidates.
use mathlib.Core.List.Memᴰ
use sharathfold.Prelude.{
  ℕ, String, true, false, not, ◌&&◌, List, [], ◌∷◌, Memᴰ, ◌≡◌, refl, sym, ◌∙◌, arith, inl, inr,
  if◌then◌else◌, contains_nat, Bool-cases, Dict,
}
use sharathfold.Store.{Delivery, is_pending}
use sharathfold.Memory.State.{SubMeta, meta_of, touch_meta}
use sharathfold.Memory.Rows.{meta_of-touch_meta}
use sharathfold.Memory.Claim.{
  Claim, Candidate, candidate_of, is_suspended, is_backing_off, is_behind, is_eligible, collect,
}

-- The records that the loop has reached after a row.
abbrev seen : Claim → Delivery → Dict SubMeta → Dict SubMeta
seen c d subs =
    if is_pending d.status && not c.skip_suspend_gate then touch_meta d.subscriber_id subs else subs

meta_of-seen :
    (c : Claim) (d : Delivery) (subs : Dict SubMeta) (x : String)
    → meta_of (seen c d subs) x ≡ meta_of subs x
meta_of-seen c d subs x = ground (arith, meta_of-touch_meta d.subscriber_id x subs)

is_eligible-seen :
    (c : Claim) (head : Dict ℕ) (d : Delivery) (subs : Dict SubMeta) (e : Delivery)
    → is_eligible c head (seen c d subs) e ≡ is_eligible c head subs e
unfolding is_eligible
is_eligible-seen c head d subs e = rw (meta_of-seen c d subs e.subscriber_id)

-- The loop changes no record that can be read.
pub meta_of-collect :
    (c : Claim) (head : Dict ℕ) (ds : List Delivery) (subs : Dict SubMeta) (x : String)
    → meta_of (collect c head ds subs).1 x ≡ meta_of subs x
unfolding collect
meta_of-collect c head [] subs x = refl
meta_of-collect c head (d ∷ ds) subs x =
    meta_of-collect c head ds (seen c d subs) x ∙ meta_of-seen c d subs x

-- The row that a candidate is made of.
abbrev pub Source : Claim → Dict ℕ → List Delivery → Dict SubMeta → Candidate → Type 0
Source c head ds subs k =
    (d : Delivery) × Memᴰ d ds × (k ≡ candidate_of d) × (is_eligible c head subs d ≡ true)

later-Source :
    (c : Claim) (head : Dict ℕ) (d : Delivery) (ds : List Delivery) (subs : Dict SubMeta)
    (k : Candidate)
    → Source c head ds (seen c d subs) k
    → Source c head (d ∷ ds) subs k
later-Source c head d ds subs k (x, l, p, q) =
    (x, Memᴰ.tail l, p, sym (is_eligible-seen c head d subs x) ∙ q)

-- A candidate is made of an eligible row.
pub mem-collect :
    (c : Claim) (head : Dict ℕ) (ds : List Delivery) (subs : Dict SubMeta) (k : Candidate)
    → Memᴰ k (collect c head ds subs).0
    → Source c head ds subs k
unfolding collect
mem-collect c head [] subs k m = absurd (Memᴰ.not-nil m)
mem-collect c head (d ∷ ds) subs k m = elim (Bool-cases (is_eligible c head subs d)) [
  | inl e ↦ elim (Memᴰ.cases_cons (rw e at m)) [
    | inl p ↦ (d, Memᴰ.head refl, p, e)
    | inr n ↦ later-Source c head d ds subs k (mem-collect c head ds (seen c d subs) k n)
  ]
  | inr e ↦ later-Source c head d ds subs k (mem-collect c head ds (seen c d subs) k (rw e at m))
]

-- Every eligible row becomes a candidate.
pub collect-mem :
    (c : Claim) (head : Dict ℕ) (ds : List Delivery) (subs : Dict SubMeta) (d : Delivery)
    → Memᴰ d ds
    → is_eligible c head subs d ≡ true
    → Memᴰ (candidate_of d) (collect c head ds subs).0
unfolding collect
collect-mem c head [] subs d m h = absurd (Memᴰ.not-nil m)
collect-mem c head (x ∷ ds) subs d m h = elim (Memᴰ.cases_cons m) [
  | inl e ↦ rw (← e, h) (Memᴰ.head refl)
  | inr n ↦
      let rest = collect-mem c head ds (seen c x subs) d n (is_eligible-seen c head x subs d ∙ h) in
      elim (Bool-cases (is_eligible c head subs x)) [
        | inl k ↦ rw k (Memᴰ.tail rest)
        | inr k ↦ rw k rest
      ]
]

-- What eligibility says of a row, guard by guard.
pub record Eligible (c : Claim) (head : Dict ℕ) (subs : Dict SubMeta) (d : Delivery) : Type 0 where
  pub is_pending : is_pending d.status ≡ true
  pub not_suspended : is_suspended c subs d ≡ false
  pub due : is_backing_off c.now d ≡ false
  pub in_partition : contains_nat c.partitions d.partition ≡ true
  pub first : is_behind c head d ≡ false

pub Eligible_of :
    (c : Claim) (head : Dict ℕ) (subs : Dict SubMeta) (d : Delivery)
    → is_eligible c head subs d ≡ true
    → Eligible c head subs d
unfolding is_eligible
Eligible_of c head subs d h = ground arith
