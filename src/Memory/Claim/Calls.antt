-- ===== src/Memory/Claim/Calls.antt =====
-- Claim of store/memory/memory.go on every branch of its guards.
use sharathfold.Prelude.{
  ℕ, ◌+◌, String, List, [], ◌≡◌, refl, ◌∙◌, inl, inr, str_eq, ◌==◌, ℤ, le_zero, Bool-cases,
}
use sharathfold.Store.{Delivery, Time, Context, live, done, Result, ok, err}
use sharathfold.Memory.State.{Store}
use sharathfold.Memory.Invariant.{Inv, Past, Settle, Settle-Inv, Settle-Past}
use sharathfold.Memory.Invariant.Steps.{subset-Settle, Settle-refl}
use sharathfold.Memory.Invariant.Takes.{Claims, Claims-none, Takes-Claims}
use sharathfold.Memory.Claim.Keeps.{run_claim-Takes}
use sharathfold.Memory.Claim.{Claim, claim, claim_args, run_claim, is_empty}

-- The rows that a call returns.
abbrev pub rows_of : Result (List Delivery) → List Delivery
rows_of (ok out) = out
rows_of (err e) = []

abbrev pub counted_call : Store → Store
counted_call s = record s { claim_calls = s.claim_calls + 1 }

pub counted_call-Settle : (s : Store) → Settle s (counted_call s)
counted_call-Settle s =
    subset-Settle s (counted_call s) (λ d m. m) (λ x. refl) (λ x. refl) refl refl

Claims-run :
    (h : List Delivery) (s : Store) (c : Claim)
    → Inv s
    → Past h s
    → c.disable_hol ≡ s.disable_hol
    → c.skip_suspend_gate ≡ s.skip_suspend_gate
    → let r = run_claim c (counted_call s) in Claims h s r.0 r.1
Claims-run h s c v p hol gate =
    let t = counted_call s in
    let v' = Settle-Inv s t v (counted_call-Settle s) in
    let p' = Settle-Past h s t p (counted_call-Settle s) in
    let takes = run_claim-Takes c t v' (hol ∙ v.hol_on) (gate ∙ v.gate_on) in
    let k = Takes-Claims t (run_claim c t).0 (run_claim c t).1 v' takes h p' in
    record { inv = k.inv; past = k.past; heads = k.heads; opened = k.opened }

pub claim-Claims :
    (ctx : Context) (now : Time) (owner : String) (generation : ℕ) (partitions : List ℕ) (limit : ℤ)
    (s : Store) (h : List Delivery)
    → Inv s
    → Past h s
    → let r = claim ctx now owner generation partitions limit s in Claims h s r.0 (rows_of r.1)
unfolding claim
claim-Claims done now owner generation partitions limit s h v p =
    Claims-none h s s v p (Settle-refl s)
claim-Claims live now owner generation partitions limit s h v p =
    elim (Bool-cases (str_eq owner "")) [
      | inl k ↦ rw k (Claims-none h s s v p (Settle-refl s))
      | inr k ↦ rw k (elim (Bool-cases (generation == 0)) [
        | inl l ↦ rw l (Claims-none h s s v p (Settle-refl s))
        | inr l ↦ rw l (elim (Bool-cases (le_zero limit)) [
          | inl j ↦ rw j (Claims-none h s s v p (Settle-refl s))
          | inr j ↦ rw j (elim (Bool-cases (is_empty partitions)) [
            | inl i ↦ rw i (Claims-none h s _ v p (counted_call-Settle s))
            | inr i ↦
                rw i (
                  Claims-run h s (claim_args owner generation partitions limit now s) v p refl refl)
          ])
        ])
      ])
    ]
