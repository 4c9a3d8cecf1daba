-- ===== src/Tokens/Index.antt =====
-- parseOwnerIndex of partition.go reads the number that claimOwnerID prints.
use Prim.Native.Char.{code}
use Prim.Native.String.append
use text.Mathlib.TextLemmas.{append_assoc}
use sharathfold.Prelude.{
  int64_bound, ℕ, ◌<◌, String, true, false, Option, none, some, ◌≡◌, refl, sym, ap, ◌∙◌, arith, inl,
  inr, ◌==◌, str_eq, eq_refl, pos, itoa, ◌+++◌, Bool-cases, Digits, Digits-itoa, strip_prefix,
}
use sharathfold.Partition.{owner_id, claim_owner_id}
use sharathfold.Tokens.{last_worker, is_inside, index_of, worker_name, parse_owner_index}
use sharathfold.Tokens.Parsing.{worker_part}

-- Digits have no worker- in them.
last_worker-Digits : (prev : Option ℕ) (s : String) → Digits s → last_worker prev s ≡ none
unfolding last_worker strip_prefix
last_worker-Digits prev String.[] d = refl
last_worker-Digits prev (String.◌∷◌ c s) d =
    let other : (119 == code c) ≡ false = ground (arith, d.0) in
    rw (last_worker-Digits (some (code c)) s d.1, other) refl

last_worker-first :
    (prev : Option ℕ) (s : String)
    → Digits s
    → last_worker prev ("worker-" +++ s) ≡ some (prev, "worker-" +++ s)
unfolding last_worker strip_prefix
last_worker-first prev s d =
    rw
      (
        append.cons,
        append.cons,
        append.cons,
        append.cons,
        append.cons,
        append.cons,
        append.cons,
        append.nil,
        last_worker-Digits _ s d,
      )
      refl

-- What stands in front does not matter.
last_worker-append :
    (prev : Option ℕ) (s d : String)
    → Digits d
    → last_worker prev (s +++ ("/" +++ ("worker-" +++ d))) ≡ some (some b'/', "worker-" +++ d)
unfolding last_worker
last_worker-append prev String.[] d h =
    rw (append.nil, append.cons, append.nil, last_worker-first (some b'/') d h) refl
last_worker-append prev (String.◌∷◌ c s) d h =
    rw (append.cons, last_worker-append (some (code c)) s d h) refl

-- The number of a name is read back.
index_of-worker :
    (prev : Option ℕ) (w : ℕ)
    → is_inside prev ≡ false
    → w < int64_bound
    → index_of (some (prev, "worker-" +++ itoa w)) ≡ some (pos w)
unfolding worker_name
index_of-worker prev w h small = rw (h, worker_part w small, eq_refl ("worker-" +++ itoa w)) refl

-- The token's two forms end in the worker's name.
claim_owner_id-cluster :
    (node incarnation : String) (w : ℕ)
    → str_eq node "" ≡ false
    → claim_owner_id node incarnation w
      ≡ (node +++ "/" +++ incarnation) +++ ("/" +++ ("worker-" +++ itoa w))
unfolding claim_owner_id
claim_owner_id-cluster node incarnation w h = rw h (
    ap (λ rest. node +++ "/" +++ incarnation +++ rest) (append_assoc "/" "worker-" (itoa w))
    ∙ ap (λ rest. node +++ rest)
        (sym (append_assoc "/" incarnation ("/" +++ ("worker-" +++ itoa w))))
    ∙ sym (append_assoc node ("/" +++ incarnation) ("/" +++ ("worker-" +++ itoa w))))

claim_owner_id-alone :
    (node incarnation : String) (w : ℕ)
    → str_eq node "" ≡ true
    → claim_owner_id node incarnation w ≡ "worker-" +++ itoa w
unfolding claim_owner_id owner_id
claim_owner_id-alone node incarnation w h = rw h refl

-- Whatever the names of the node and the incarnation are, the worker's number is read back from its
-- token, if it fits an int.
pub parse_owner_index-claim_owner_id :
    (node incarnation : String) (w : ℕ)
    → w < int64_bound
    → parse_owner_index (claim_owner_id node incarnation w) ≡ some (pos w)
unfolding parse_owner_index
parse_owner_index-claim_owner_id node incarnation w small = elim (Bool-cases (str_eq node "")) [
  | inl k ↦
      ap parse_owner_index (claim_owner_id-alone node incarnation w k)
      ∙ ap index_of (last_worker-first none (itoa w) (Digits-itoa w))
      ∙ index_of-worker none w refl small
  | inr k ↦
      ap parse_owner_index (claim_owner_id-cluster node incarnation w k)
      ∙ ap index_of
          (last_worker-append none (node +++ "/" +++ incarnation) (itoa w) (Digits-itoa w))
      ∙ index_of-worker (some b'/') w refl small
]
