-- ===== src/Tokens/Parsing.antt =====
-- parseDistributedOwner of store/postgres/ownership.go reads what claimOwnerID of partition.go prints.
use Prim.Native.Char.{code}
use Prim.Native.String.append
use text.Mathlib.TextLemmas.{append_assoc}
use sharathfold.Prelude.{
  int64_bound, has_slash, ℕ, ◌+◌, ◌-◌, ◌*◌, ◌<◌, String, true, false, [], ◌∷◌, some, ◌≡◌, refl, ap,
  ◌∙◌, arith, ◌≢◌, ◌==◌, ltb, str_eq, eq_refl, pos, itoa, ◌+++◌, value, value-itoa, Digits,
  is_digit, split_on, split_on-append, split_on-whole, has_char, has_char-append, has_char-All,
  strip_prefix, strip_prefix-append, Digits-itoa, itoa-not_empty,
}
use sharathfold.Partition.{claim_owner_id}
use sharathfold.Tokens.{
  scan_digits, scan_nat, scan_int, worker_name, sscanf_worker, of_parts, parse_distributed_owner,
}

-- A part without a slash ends at the next slash.
split_slash :
    (s t : String) → has_slash s ≡ false → split_on b'/' (s +++ "/" +++ t) ≡ s ∷ split_on b'/' t
unfolding split_on
split_slash s t h = split_on-append b'/' "/" s t (rw (append.cons, append.nil) refl) h

scan_digits-Digits : (acc : ℕ) (s : String) → Digits s → scan_digits acc s ≡ value acc s
unfolding scan_digits value
scan_digits-Digits acc String.[] d = refl
scan_digits-Digits acc (String.◌∷◌ c s) d =
    rw d.0 (scan_digits-Digits (acc * 10 + (code c - 48)) s d.1)

-- Digits, at least one, of a number that an int holds.
scan_int-Digits :
    (s : String) (n : ℕ)
    → Digits s
    → s ≢ String.[]
    → value 0 s ≡ n
    → n < int64_bound
    → scan_int s ≡ some (pos n)
unfolding scan_int scan_nat scan_digits value
scan_int-Digits String.[] n d some_digit v small = absurd (some_digit refl)
scan_int-Digits (String.◌∷◌ c s) n d some_digit v small =
    let blank : (code c == b' ') ≡ false = ground (arith, d.0) in
    let minus : (code c == b'-') ≡ false = ground (arith, d.0) in
    let plus : (code c == b'+') ≡ false = ground (arith, d.0) in
    let fits : ltb n int64_bound ≡ true = ground arith in
    let first = 0 * 10 + (code c - 48) in
    let all : scan_digits first s ≡ n = scan_digits-Digits first s d.1 ∙ v in
    rw (blank, minus, plus, d.0, all, fits) refl

-- The worker's part of a token.
pub worker_part :
    (w : ℕ)
    → w < int64_bound
    → sscanf_worker (strip_prefix "worker-" ("worker-" +++ itoa w)) ≡ some (pos w)
worker_part w small =
    ap sscanf_worker (strip_prefix-append "worker-" (itoa w))
    ∙ scan_int-Digits (itoa w) w (Digits-itoa w) (itoa-not_empty w) (value-itoa w) small

of_parts-worker :
    (node incarnation : String) (w : ℕ)
    → str_eq node "" ≡ false
    → str_eq incarnation "" ≡ false
    → w < int64_bound
    → of_parts (node ∷ incarnation ∷ ("worker-" +++ itoa w) ∷ []) ≡ some node
unfolding worker_name
of_parts-worker node incarnation w p q small =
    rw (p, q, worker_part w small, eq_refl ("worker-" +++ itoa w)) refl

worker_no_slash : (w : ℕ) → has_slash ("worker-" +++ itoa w) ≡ false
unfolding has_char
worker_no_slash w =
    has_char-append b'/' "worker-" (itoa w) refl
      (has_char-All b'/' is_digit (itoa w) refl (Digits-itoa w))

-- The incarnation and the worker.
split_rest :
    (incarnation : String) (w : ℕ)
    → has_slash incarnation ≡ false
    → split_on b'/' (incarnation +++ "/worker-" +++ itoa w)
      ≡ incarnation ∷ ("worker-" +++ itoa w) ∷ []
split_rest incarnation w q =
    ap (λ rest. split_on b'/' (incarnation +++ rest)) (append_assoc "/" "worker-" (itoa w))
    ∙ split_slash incarnation ("worker-" +++ itoa w) q
    ∙ ap (λ ps. incarnation ∷ ps) (split_on-whole b'/' ("worker-" +++ itoa w) (worker_no_slash w))

-- A claim token of a node of a cluster is parsed back to the node, if neither the node's name nor the
-- incarnation is empty or has a slash, and the worker's number fits an int.
pub parse_distributed_owner-claim_owner_id :
    (node incarnation : String) (w : ℕ)
    → str_eq node "" ≡ false
    → has_slash node ≡ false
    → str_eq incarnation "" ≡ false
    → has_slash incarnation ≡ false
    → w < int64_bound
    → parse_distributed_owner (claim_owner_id node incarnation w) ≡ some node
unfolding parse_distributed_owner claim_owner_id
parse_distributed_owner-claim_owner_id node incarnation w p p' q q' small = rw p (
    ap of_parts (
      split_slash node (incarnation +++ "/worker-" +++ itoa w) p'
      ∙ ap (λ ps. node ∷ ps) (split_rest incarnation w q'))
    ∙ of_parts-worker node incarnation w p q small)
