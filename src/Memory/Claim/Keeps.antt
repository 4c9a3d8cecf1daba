-- ===== src/Memory/Claim/Keeps.antt =====
-- Claim of store/memory/memory.go, under the head-of-line gate, takes the first unfinished row of a
-- subscriber.
use mathlib.Core.List.Memᴰ
use sharathfold.Prelude.{
  ℕ, ◌≤◌, String, true, false, List, [], Memᴰ, ◌≡◌, refl, sym, ap, subst, arith, inl, inr, not_true,
  Dict, sort_by, mem-sort_by,
}
use sharathfold.Store.{Delivery, Status, is_pending, is_unfinished}
use sharathfold.Memory.State.{Store, SubMeta, seq_of}
use sharathfold.Memory.Invariant.{Inv, suspended}
use sharathfold.Memory.Invariant.Steps.{subset-Image}
use sharathfold.Memory.Claim.Heads.{heads-le}
use sharathfold.Memory.Claim.Candidates.{Eligible, mem-collect, meta_of-collect}
use sharathfold.Memory.Invariant.Takes.{Taken, Takes}
use sharathfold.Memory.Claim.Loop.{Progress, claim_row-Same, claim_all-Progress}
use sharathfold.Memory.Claim.{
  Claim, Candidate, Claiming, candidate_less, claim_row, heads, head_map, collect, claim_all,
  run_claim,
}

pending-unfinished : (st : Status) → is_pending st ≡ true → is_unfinished st ≡ true
pending-unfinished st h = ground arith

module _ (c : Claim) (s : Store) (v : Inv s) (hol : c.disable_hol ≡ false)
    (gate : c.skip_suspend_gate ≡ false) where
  abbrev pub head : Dict ℕ
  head = head_map c s.by_id

  abbrev candidates : List Candidate
  candidates = (collect c head s.by_id s.subs).0

  -- The variables at the end of the last loop.
  abbrev end : Claiming
  end =
      claim_all c head (sort_by candidate_less candidates)
        (record { rows = s.by_id; claimed_subs = []; out = [] })

  p : Progress c head s.by_id s.subs end
  p =
      claim_all-Progress c head s.by_id s.subs hol v.ids (sort_by candidate_less candidates) _
        (λ k m. mem-collect c head s.by_id s.subs k (mem-sort_by candidate_less candidates m))
        (record {
          g = λ d. d;
          image = subset-Image s.by_id s.by_id (λ d m. m);
          moved = λ d m. inl refl;
          returned = λ o m. absurd (Memᴰ.not-nil m);
        })

  -- An eligible row is not later than any unfinished row of its subscriber.
  pub eligible-le :
      (d e : Delivery)
      → Eligible c head s.subs d
      → Memᴰ e s.by_id
      → d.subscriber_id ≡ e.subscriber_id
      → is_unfinished e.status ≡ true
      → d.sequence ≤ e.sequence
  eligible-le d e el m h u =
      let at_head : seq_of (heads s.by_id []) d.subscriber_id ≡ d.sequence =
        ground (arith, el.first, hol) in
      let low : seq_of (heads s.by_id []) d.subscriber_id ≤ e.sequence =
        rw h (heads-le s.by_id m u) in
      omega arith

  pub eligible-awake :
      (d : Delivery) → Eligible c head s.subs d → suspended s d.subscriber_id ≡ true → ⊥
  eligible-awake d el h = ground (arith, el.not_suspended, gate, h)

  abbrev t : Store
  t = (run_claim c s).0

  -- Each returned row is an eligible row of the store, under the stamp of the claim.
  pub run_claim-Eligible :
      (o : Delivery)
      → Memᴰ o (run_claim c s).1
      → (d : Delivery) × Memᴰ d s.by_id × (o ≡ claim_row c d) × Eligible c head s.subs d
  unfolding run_claim
  run_claim-Eligible o m = p.returned o m

  suspended-run_claim : (x : String) → suspended t x ≡ suspended s x
  unfolding run_claim
  suspended-run_claim x =
      ap (λ (m : SubMeta). m.suspended) (meta_of-collect c head s.by_id s.subs x)

  Eligible-Taken : (d o : Delivery) → Eligible c head s.subs d → o ≡ claim_row c d → Taken s d o
  Eligible-Taken d o el q =
      subst (λ x. Taken s d x) (sym q)
        (record {
          same = claim_row-Same c d;
          was_pending = el.is_pending;
          flies = refl;
          awake = not_true (eligible-awake d el);
          first = λ e. eligible-le d e el;
        })

  pub run_claim-Takes : Takes s t (run_claim c s).1
  unfolding run_claim
  run_claim-Takes = record {
    g = p.g;
    image = p.image;
    moved = λ d m. elim (p.moved d m) [
      | inl q ↦ inl q
      | inr (q, el, _) ↦ inr (Eligible-Taken d (p.g d) el q)
    ];
    returned = λ o m. let (d, n, q, el) = run_claim-Eligible o m in (d, n, Eligible-Taken d o el q);
    suspension = suspended-run_claim;
    counters = λ x. refl;
    hol = refl;
    gate = refl;
  }
