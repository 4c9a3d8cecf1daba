-- ===== src/Tokens.antt =====
-- parseOwnerIndex of partition.go and parseDistributedOwner of store/postgres/ownership.go, with what it uses of strings and fmt.
pub mod Parsing
pub mod Index
use Prim.Native.Char.{code}
use Prim.Native.String
use sharathfold.Prelude.{
  positive, negative, int64_bound, ℕ, ◌+◌, ◌-◌, ◌*◌, String, Bool, true, false, not, ◌&&◌, ◌||◌,
  List, [], ◌∷◌, Option, none, some, if◌then◌else◌, ◌==◌, ltb, is_digit, split_on, strip_prefix,
  str_eq, ℤ, pos, negsuc, itoa, ◌+++◌,
}

-- The value of the digits in front, after `acc`.
unfoldable pub scan_digits : ℕ → String → ℕ
scan_digits acc String.[] = acc
scan_digits acc (String.◌∷◌ c s) =
    let rest = scan_digits (acc * 10 + (code c - b'0')) s in if is_digit (code c) then rest else acc

-- Digits, at least one, of a number below the bound of its sign.
unfoldable pub scan_nat : ℕ → String → Option ℕ
unfolding scan_digits
scan_nat bound String.[] = none
scan_nat bound (String.◌∷◌ c s) =
    let n = scan_digits 0 (String.◌∷◌ c s) in
    if not (is_digit (code c)) then none else if ltb n bound then some n else none

-- What `%d` of fmt.Sscanf reads into an int, past the blanks: a sign, and digits. What follows them does
-- not matter.
unfoldable pub scan_int : String → Option ℤ
unfolding scan_nat
scan_int String.[] = none
scan_int (String.◌∷◌ c s) =
    let after_blank = scan_int s in
    if code c == b' '
    then after_blank
    else if code c == b'-'
    then negative (scan_nat (int64_bound + 1) s)
    else if code c == b'+'
    then positive (scan_nat int64_bound s)
    else positive (scan_nat int64_bound (String.◌∷◌ c s))

-- fmt.Sprintf("worker-%d", n)
unfoldable pub worker_name : ℤ → String
worker_name (pos n) = "worker-" +++ itoa n
worker_name (negsuc n) = "worker--" +++ itoa (n + 1)

abbrev pub sscanf_worker : Option String → Option ℤ
sscanf_worker none = none
sscanf_worker (some s) = scan_int s

-- The number of a name that is printed back to itself.
abbrev pub if_canonical {ℓ} : {A : Type ℓ} → String → A → Option ℤ → Option A
if_canonical name a none = none
if_canonical name a (some n) = if str_eq name (worker_name n) then some a else none

abbrev pub of_parts : List String → Option String
of_parts (node ∷ incarnation ∷ worker ∷ []) =
    if str_eq node "" || str_eq incarnation ""
    then none
    else if_canonical worker node (sscanf_worker (strip_prefix "worker-" worker))
of_parts _ = none

unfoldable pub parse_distributed_owner : String → Option String
unfolding split_on strip_prefix scan_int worker_name
parse_distributed_owner owner = of_parts (split_on b'/' owner)

abbrev is_some {ℓ} : {A : Type ℓ} → Option A → Bool
is_some none = false
is_some (some a) = true

-- strings.LastIndex(owner, "worker-"), as the character before the index, and the text from there.
unfoldable pub last_worker : Option ℕ → String → Option (Option ℕ × String)
unfolding strip_prefix
last_worker prev String.[] = none
last_worker prev (String.◌∷◌ c s) =
    let later = last_worker (some (code c)) s in
    if is_some later
    then later
    else if is_some (strip_prefix "worker-" (String.◌∷◌ c s))
    then some (prev, String.◌∷◌ c s)
    else none

-- i > 0 && owner[i-1] != '/'
abbrev pub is_inside : Option ℕ → Bool
is_inside none = false
is_inside (some c) = not (c == b'/')

abbrev canonical_number : String → Option ℤ → Option ℤ
canonical_number rest none = none
canonical_number rest (some n) = if_canonical rest n (some n)

abbrev pub index_of : Option (Option ℕ × String) → Option ℤ
index_of none = none
index_of (some (prev, rest)) =
    if is_inside prev
    then none
    else canonical_number rest (sscanf_worker (strip_prefix "worker-" rest))

unfoldable pub parse_owner_index : String → Option ℤ
unfolding last_worker scan_int worker_name
parse_owner_index owner = index_of (last_worker none owner)
