-- ===== src/Memory/Claim/Loop.antt =====
-- The last loop of Claim of store/memory/memory.go, under the head-of-line gate: each row that it
-- marks was an eligible row, marked once.
use mathlib.Core.List.Memᴰ
use sharathfold.Prelude.{
  ℕ, String, Bool, true, false, List, [], ◌∷◌, ◌++◌, Memᴰ, ◌≡◌, refl, sym, ap, ◌∙◌, subst, arith,
  ◌⊎◌, inl, inr, some, if◌then◌else◌, str_eq, str_eq→eq, eq_refl, leb, to_nat, length, contains,
  Bool-cases, Option-cases, true-false, Dict,
}
use sharathfold.Store.{Delivery, in_flight, is_pending}
use sharathfold.Memory.State.{SubMeta, find, update}
use sharathfold.Memory.Rows.{mem-find}
use sharathfold.Memory.Invariant.{Same, Image}
use sharathfold.Memory.Invariant.Steps.{Image-trans, update-Image, write_at}
use sharathfold.Memory.Claim.Candidates.{Eligible, Eligible_of, Source}
use sharathfold.Memory.Claim.{Claim, Candidate, Claiming, claim_row, claim_one, claim_all}

pub claim_row-Same : (c : Claim) (d : Delivery) → Same d (claim_row c d)
claim_row-Same c d = record { id = refl; subscriber_id = refl; sequence = refl }

module _ (c : Claim) (head : Dict ℕ) (ds : List Delivery) (subs : Dict SubMeta) where
  -- What the loop has done: rows were left alone, or claimed, and then they are in `out`.
  pub record Progress (l : Claiming) : Type 0 where
    pub g : Delivery → Delivery
    pub image : Image g ds l.rows
    pub moved :
        (d : Delivery)
        → Memᴰ d ds
        → (g d ≡ d)
          ⊎ (g d ≡ claim_row c d)
            × Eligible c head subs d
            × (contains l.claimed_subs d.subscriber_id ≡ true)
    pub returned :
        (o : Delivery)
        → Memᴰ o l.out
        → (d : Delivery) × Memᴰ d ds × (o ≡ claim_row c d) × Eligible c head subs d

-- A pending row is no claimed row.
unclaimed : (c : Claim) (d : Delivery) → is_pending d.status ≡ true → claim_row c d ≡ d → ⊥
unclaimed c d h e = let k : in_flight ≡ d.status = ap (λ (x : Delivery). x.status) e in ground arith

contains_cons : (x y : String) (l : List String) → contains l y ≡ true → contains (x ∷ l) y ≡ true
unfolding contains
contains_cons x y l h = ground arith

contains_head : (x : String) (l : List String) → contains (x ∷ l) x ≡ true
unfolding contains
contains_head x l = rw (eq_refl x)

module _ (c : Claim) (head : Dict ℕ) (ds : List Delivery) (subs : Dict SubMeta)
    (hol : c.disable_hol ≡ false)
    (ids : (d e : Delivery) → Memᴰ d ds → Memᴰ e ds → d.id ≡ e.id → d ≡ e) where
  abbrev P : Claiming → Type 0
  P = Progress c head ds subs

  -- The variables after the row `d` is claimed.
  abbrev marked : Delivery → Claiming → Claiming
  marked d l = record {
    rows = update d.id (claim_row c) l.rows;
    claimed_subs = if c.disable_hol then l.claimed_subs else d.subscriber_id ∷ l.claimed_subs;
    out = l.out ++ claim_row c d ∷ [];
  }

  claimed_grows :
      (l : Claiming) (d : Delivery) (x : String)
      → contains (d.subscriber_id ∷ l.claimed_subs) x ≡ true
      → contains (marked d l).claimed_subs x ≡ true
  claimed_grows l d x h =
      ap (λ (b : Bool). contains (if b then l.claimed_subs else d.subscriber_id ∷ l.claimed_subs) x)
        hol
      ∙ h

  module _ (l : Claiming) (p : P l) (d : Delivery) (m : Memᴰ d ds) (still : p.g d ≡ d)
      (e : Eligible c head subs d) where
    g' : Delivery → Delivery
    g' x = write_at d.id (claim_row c) (p.g x)

    abbrev Moved : Delivery → Type 0
    Moved x =
        (g' x ≡ x)
        ⊎ (g' x ≡ claim_row c x)
          × Eligible c head subs x
          × (contains (marked d l).claimed_subs x.subscriber_id ≡ true)

    Moved-self : Moved d
    unfolding g'
    Moved-self =
        rw (still, eq_refl d.id)
          (inr (
            refl,
            e,
            claimed_grows l d d.subscriber_id (contains_head d.subscriber_id l.claimed_subs),
          ))

    Moved-other : (x : Delivery) → Memᴰ x ds → str_eq (p.g x).id d.id ≡ false → Moved x
    unfolding g'
    Moved-other x n k = rw k (elim (p.moved x n) [
      | inl q ↦ inl q
      | inr (q, r, s) ↦
          let t = contains_cons d.subscriber_id x.subscriber_id l.claimed_subs s in
          inr (q, r, claimed_grows l d x.subscriber_id t)
    ])

    marked-Progress : P (marked d l)
    marked-Progress = record {
      g = g';
      image =
          unfold g' in
          Image-trans p.image (update-Image d.id (claim_row c) l.rows (claim_row-Same c));
      moved = λ x n. elim (Bool-cases (str_eq (p.g x).id d.id)) [
        | inl k ↦
            let q : x.id ≡ d.id = sym (p.image.same x).id ∙ str_eq→eq (p.g x).id d.id k in
            subst Moved (sym (ids x d n m q)) Moved-self
        | inr k ↦ Moved-other x n k
      ];
      returned = λ o n. elim (Memᴰ.append_cases l.out n) [
        | inl k ↦ p.returned o k
        | inr k ↦ (d, m, Memᴰ.eq_of_singleton k, e)
      ];
    }

  -- A row found by a candidate's key, whose subscriber has no row claimed yet, is the candidate's.
  found-Source :
      (l : Claiming) (p : P l) (k : Candidate) (x : Delivery)
      → Source c head ds subs k
      → find k.id l.rows ≡ some x
      → contains l.claimed_subs k.sub ≡ false
      → (d : Delivery) × Memᴰ d ds × (x ≡ d) × (p.g d ≡ d) × Eligible c head subs d
  found-Source l p k x (d, m, q, e) f new =
      let (n, r) = mem-find k.id l.rows f in
      let (y, n', s) = p.image.origin x n in
      let same : y ≡ d = ids y d n' m (
        sym (p.image.same y).id
        ∙ ap (λ (z : Delivery). z.id) (sym s)
        ∙ r
        ∙ ap (λ (z : Candidate). z.id) q) in
      let sub : k.sub ≡ d.subscriber_id = ap (λ (z : Candidate). z.sub) q in
      let elig = Eligible_of c head subs d e in
      elim (p.moved d m) [
        | inl still ↦ (d, m, s ∙ ap p.g same ∙ still, still, elig)
        | inr (_, _, taken) ↦
            absurd (true-false taken (ap (contains l.claimed_subs) (sym sub) ∙ new))
      ]

  claim_one-Progress :
      (k : Candidate) (l : Claiming) → Source c head ds subs k → P l → P (claim_one c head k l)
  unfolding claim_one
  claim_one-Progress k l src p = elim (Bool-cases (contains l.claimed_subs k.sub)) [
    | inl t ↦ simp (hol, t) p
    | inr t ↦
        simp (hol, t)
          (elim (Option-cases (find k.id l.rows)) [
            | inl f ↦ rw f p
            | inr (x, f) ↦
                let (d, m, same, still, e) = found-Source l p k x src f t in
                rw (f, same, e.first) (marked-Progress l p d m still e)
          ])
  ]

  -- The loop over candidates that are made of eligible rows.
  pub claim_all-Progress :
      (ks : List Candidate) (l : Claiming)
      → ((k : Candidate) → Memᴰ k ks → Source c head ds subs k)
      → P l
      → P (claim_all c head ks l)
  unfolding claim_all
  claim_all-Progress [] l src p = p
  claim_all-Progress (k ∷ ks) l src p = elim (Bool-cases (leb (to_nat c.limit) (length l.out))) [
    | inl t ↦ rw t p
    | inr t ↦ rw t (
        claim_all-Progress ks (claim_one c head k l) (λ j m. src j (Memᴰ.tail m))
          (claim_one-Progress k l (src k (Memᴰ.head refl)) p))
  ]
