-- ===== src/Deliver/Verify.antt =====
-- parseFoldSignature and VerifyFold of deliver.go. A clock is given in seconds since 1970.
pub mod Signed
use Prim.Native.Char.{code}
use Prim.Native.String
use sharathfold.Prelude.{
  positive, negative, int64_bound, ℕ, suc, ◌+◌, ◌-◌, ◌*◌, ◌%◌, String, Bool, true, false, not, ◌&&◌,
  ◌||◌, List, [], ◌∷◌, Option, none, some, if◌then◌else◌, ltb, leb, ◌==◌, str_eq, ℤ, pos, negsuc,
  le_zero, to_nat, itoa, value, is_digit, split_on, strip_prefix,
}
use sharathfold.Backoff.{uint64_mod}
use sharathfold.Deliver.{Http, sign_fold}

-- unicode.IsSpace
abbrev pub is_space : ℕ → Bool
is_space c =
    (leb 9 c && leb c 13)
    || c == 32
    || c == 0x85
    || c == 0xa0
    || c == 0x1680
    || (leb 0x2000 c && leb c 0x200a)
    || c == 0x2028
    || c == 0x2029
    || c == 0x202f
    || c == 0x205f
    || c == 0x3000

unfoldable pub trim_left : String → String
trim_left String.[] = ""
trim_left (String.◌∷◌ c s) =
    let rest = trim_left s in if is_space (code c) then rest else String.◌∷◌ c s

unfoldable pub trim_right : String → String
trim_right String.[] = ""
trim_right (String.◌∷◌ c s) =
    let rest = trim_right s in if is_space (code c) && str_eq rest "" then "" else String.◌∷◌ c rest

-- strings.TrimSpace
abbrev pub trim_space : String → String
trim_space s = trim_right (trim_left s)

unfoldable pub all_digits : String → Bool
all_digits String.[] = true
all_digits (String.◌∷◌ c s) = let rest = all_digits s in is_digit (code c) && rest

-- The digits of a number below the bound of its sign.
unfoldable pub digits_below : ℕ → String → Option ℕ
digits_below bound s =
    if str_eq s "" || not (all_digits s)
    then none
    else if ltb (value 0 s) bound
    then some (value 0 s)
    else none

-- strconv.ParseInt(s, 10, 64)
unfoldable pub parse_int : String → Option ℤ
parse_int String.[] = none
parse_int (String.◌∷◌ c s) =
    if code c == b'-'
    then negative (digits_below (int64_bound + 1) s)
    else if code c == b'+'
    then positive (digits_below int64_bound s)
    else positive (digits_below int64_bound (String.◌∷◌ c s))

-- The variables of the loop.
pub record Fields : Type 0 where
  pub ts : ℤ
  pub v1 : String

abbrev with_number : Option ℤ → Fields → Option Fields
with_number none f = none
with_number (some n) f = some (record f { ts = n })

-- if strings.HasPrefix(part, "t=")
abbrev with_time : Option String → Fields → Option Fields
with_time none f = some f
with_time (some rest) f = with_number (parse_int rest) f

abbrev with_v1 : Option String → Fields → Fields
with_v1 none f = f
with_v1 (some rest) f = record f { v1 = rest }

abbrev then_v1 : String → Option Fields → Option Fields
then_v1 part none = none
then_v1 part (some f) = some (with_v1 (strip_prefix "v1=" part) f)

-- One round, on the part that was trimmed.
unfoldable pub scan_part : String → Fields → Option Fields
scan_part part f = then_v1 part (with_time (strip_prefix "t=" part) f)

unfoldable pub scan_parts : List String → Option Fields → Option Fields
scan_parts [] f = f
scan_parts (part ∷ parts) none = none
scan_parts (part ∷ parts) (some f) = scan_parts parts (scan_part (trim_space part) f)

-- return ts, v1, ts > 0 && v1 != ""
abbrev pub if_set : Option Fields → Option (ℕ × String)
if_set none = none
if_set (some f) =
    if not (le_zero f.ts) && not (str_eq f.v1 "") then some (to_nat f.ts, f.v1) else none

unfoldable pub parse_fold_signature : String → Option (ℕ × String)
unfolding scan_parts scan_part
parse_fold_signature header =
    if_set (scan_parts (split_on b',' header) (some (record { ts = pos 0; v1 = "" })))

-- The distance of two clocks.
abbrev distance : ℕ → ℕ → ℕ
distance a b = if ltb a b then b - a else a - b

-- time.Duration(delta)*time.Second is an int64, which wraps. A wrapped product that is negative is not
-- over the tolerance.
unfoldable pub is_late : ℕ → ℕ → ℤ → Bool
is_late now ts (negsuc n) = false
is_late now ts (pos tolerance) =
    let product = distance now ts * 1000000000 % uint64_mod in
    ltb 0 tolerance && ltb product int64_bound && ltb tolerance product

abbrev pub is_empty {ℓ} : {A : Type ℓ} → List A → Bool
is_empty [] = true
is_empty (x ∷ xs) = false

-- hmac.Equal(sig, want)
abbrev pub equals_want : String → Option (ℕ × String) → Bool
equals_want sig none = false
equals_want sig (some (ts, want)) = str_eq sig want

abbrev pub verify_parsed : Http → List ℕ → List ℕ → ℕ → ℤ → Option (ℕ × String) → Bool
verify_parsed h secret payload now tolerance none = false
verify_parsed h secret payload now tolerance (some (ts, sig)) =
    if is_empty secret || str_eq sig ""
    then false
    else if is_late now ts tolerance
    then false
    else equals_want sig (parse_fold_signature (sign_fold h secret ts payload))

unfoldable pub verify_fold : Http → List ℕ → String → List ℕ → ℕ → ℤ → Bool
unfolding is_late parse_fold_signature
verify_fold h secret header payload now tolerance =
    verify_parsed h secret payload now tolerance (parse_fold_signature header)
