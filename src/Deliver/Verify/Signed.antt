-- ===== src/Deliver/Verify/Signed.antt =====
-- VerifyFold of deliver.go on what SignFold made.
use Prim.Native.Char.{code}
use Prim.Native.String.append
use text.Mathlib.TextLemmas.{append_assoc}
use sharathfold.Prelude.{
  negsuc, int64_bound, length, itoa_fuel, ℕ, zero, suc, ◌+◌, ◌*◌, ◌≤◌, ◌||◌, le_zero, to_nat, ◌/◌,
  ◌%◌, ◌<◌, String, Bool, true, false, not, ◌&&◌, List, [], ◌∷◌, ◌++◌, Option, none, some, ◌≡◌, ◌≢◌,
  refl, sym, ap, ◌∙◌, arith, if◌then◌else◌, ltb, leb, ◌==◌, str_eq, str_eq→eq, ℤ, pos, itoa, value,
  value-itoa, is_digit, Digits, Digits-itoa, itoa-not_empty, digit, bytes, ◌+++◌, if_both, if_split,
  Digits-digit, not_true, All, All-append, All-weaken, split_on, split_on-append, split_on-whole,
  has_char-All, strip_prefix, strip_prefix-append,
}
use sharathfold.Deliver.{Http, hex, hex_digit, sign_fold}
use sharathfold.Deliver.Verify.{
  is_space, trim_left, trim_right, trim_space, all_digits, digits_below, parse_int, Fields,
  scan_part, scan_parts, if_set, parse_fold_signature, is_late, is_empty, verify_parsed,
  verify_fold,
}

-- A character that is printed, and no comma.
abbrev is_plain : ℕ → Bool
is_plain c = leb 33 c && leb c 126 && not (c == b',')

abbrev Plain : String → Type 0
Plain = All is_plain

-- A plain text has no space to trim.
trim_left-Plain : (s : String) → Plain s → trim_left s ≡ s
unfolding trim_left
trim_left-Plain String.[] a = refl
trim_left-Plain (String.◌∷◌ c s) a =
    let solid : is_space (code c) ≡ false = ground (arith, a.0) in rw solid refl

trim_right-Plain : (s : String) → Plain s → trim_right s ≡ s
unfolding trim_right
trim_right-Plain String.[] a = refl
trim_right-Plain (String.◌∷◌ c s) a =
    let solid : is_space (code c) ≡ false = ground (arith, a.0) in
    rw solid (ap (λ s. String.◌∷◌ c s) (trim_right-Plain s a.1))

trim_space-Plain : (s : String) → Plain s → trim_space s ≡ s
trim_space-Plain s a = ap trim_right (trim_left-Plain s a) ∙ trim_right-Plain s a

Digits-Plain : (s : String) → Digits s → Plain s
Digits-Plain s d = All-weaken is_digit is_plain s (λ c h. ground (arith, h)) d

all_digits-Digits : (s : String) → Digits s → all_digits s ≡ true
unfolding all_digits
all_digits-Digits String.[] d = refl
all_digits-Digits (String.◌∷◌ c s) d = rw (d.0, all_digits-Digits s d.1) refl

not_empty : (s : String) → s ≢ String.[] → str_eq s "" ≡ false
not_empty s h = not_true (λ e. h (str_eq→eq s "" e))

-- Digits, at least one, of a number that an int64 holds.
parse_int-Digits :
    (s : String) (n : ℕ)
    → Digits s
    → s ≢ String.[]
    → value 0 s ≡ n
    → n < int64_bound
    → parse_int s ≡ some (pos n)
unfolding parse_int digits_below
parse_int-Digits String.[] n d some_digit v small = absurd (some_digit refl)
parse_int-Digits (String.◌∷◌ c s) n d some_digit v small =
    let minus : (code c == b'-') ≡ false = ground (arith, d.0) in
    let plus : (code c == b'+') ≡ false = ground (arith, d.0) in
    let fits : ltb n int64_bound ≡ true = ground arith in
    let full = not_empty (String.◌∷◌ c s) some_digit in
    rw (minus, plus, full, all_digits-Digits (String.◌∷◌ c s) d, v, fits) refl

hex_digit-Plain : (k : ℕ) → Plain (hex_digit k)
unfolding hex_digit
hex_digit-Plain k =
    if_split Plain (ltb k 10) _ _ (λ h. Digits-Plain (digit k) (Digits-digit k (ground (arith, h))))
      λ _.
        if_both Plain (k == 10) _ _ (refl, tt)
          (if_both Plain (k == 11) _ _ (refl, tt)
            (if_both Plain (k == 12) _ _ (refl, tt)
              (if_both Plain (k == 13) _ _ (refl, tt)
                (if_both Plain (k == 14) _ _ (refl, tt) (refl, tt)))))

hex-Plain : (bs : List ℕ) → Plain (hex bs)
unfolding hex
hex-Plain [] = tt
hex-Plain (b ∷ bs) =
    All-append is_plain (hex_digit (b / 16)) _ (hex_digit-Plain (b / 16))
      (All-append is_plain (hex_digit (b % 16)) (hex bs) (hex_digit-Plain (b % 16)) (hex-Plain bs))

abbrev first : ℕ → String
first ts = "t=" +++ itoa ts

abbrev second : String → String
second mac = "v1=" +++ mac

first-Plain : (ts : ℕ) → Plain (first ts)
first-Plain ts =
    All-append is_plain "t=" (itoa ts) (refl, (refl, tt)) (Digits-Plain (itoa ts) (Digits-itoa ts))

second-Plain : (mac : String) → Plain mac → Plain (second mac)
second-Plain mac a = All-append is_plain "v1=" mac (refl, (refl, (refl, tt))) a

-- The header has two parts.
split_header :
    (ts : ℕ) (mac : String)
    → Plain mac
    → split_on b',' (first ts +++ ("," +++ second mac)) ≡ first ts ∷ second mac ∷ []
unfolding split_on
split_header ts mac a =
    split_on-append b',' "," (first ts) (second mac) (rw (append.cons, append.nil) refl)
      (has_char-All b',' is_plain (first ts) refl (first-Plain ts))
    ∙ ap (λ ps. first ts ∷ ps)
        (split_on-whole b',' (second mac)
          (has_char-All b',' is_plain (second mac) refl (second-Plain mac a)))

-- Neither part has the other's prefix.
no_v1 : (s : String) → strip_prefix "v1=" ("t=" +++ s) ≡ none
unfolding strip_prefix
no_v1 s = rw append.cons refl

no_time : (s : String) → strip_prefix "t=" ("v1=" +++ s) ≡ none
unfolding strip_prefix
no_time s = rw append.cons refl

scan_first :
    (ts : ℕ) (f : Fields)
    → ts < int64_bound
    → scan_part (first ts) f ≡ some (record f { ts = pos ts })
unfolding scan_part
scan_first ts f small =
    rw
      (
        strip_prefix-append "t=" (itoa ts),
        parse_int-Digits (itoa ts) ts (Digits-itoa ts) (itoa-not_empty ts) (value-itoa ts) small,
        no_v1 (itoa ts),
      )
      refl

scan_second : (mac : String) (f : Fields) → scan_part (second mac) f ≡ some (record f { v1 = mac })
unfolding scan_part
scan_second mac f = rw (no_time mac, strip_prefix-append "v1=" mac) refl

scan_end : (f : Option Fields) → scan_parts [] f ≡ f
unfolding scan_parts
scan_end f = refl

-- One round of the loop, on a part that has no spaces around it.
scan_part-Plain :
    (part : String) (parts : List String) (f f' : Fields)
    → Plain part
    → scan_part part f ≡ some f'
    → scan_parts (part ∷ parts) (some f) ≡ scan_parts parts (some f')
unfolding scan_parts
scan_part-Plain part parts f f' a e =
    ap (scan_parts parts) (ap (λ x. scan_part x f) (trim_space-Plain part a) ∙ e)

scan_both :
    (ts : ℕ) (mac : String) (f : Fields)
    → ts < int64_bound
    → Plain mac
    → scan_parts (first ts ∷ second mac ∷ []) (some f) ≡ some (record { ts = pos ts; v1 = mac })
scan_both ts mac f small a =
    scan_part-Plain (first ts) (second mac ∷ []) f (record f { ts = pos ts }) (first-Plain ts)
      (scan_first ts f small)
    ∙ scan_part-Plain (second mac) [] (record f { ts = pos ts }) _ (second-Plain mac a)
        (scan_second mac (record f { ts = pos ts }))
    ∙ scan_end (some (record { ts = pos ts; v1 = mac }))

-- The text after v1= that SignFold makes.
abbrev pub mac_of : Http → List ℕ → ℕ → List ℕ → String
mac_of h secret ts payload = hex (h.hmac secret (bytes (itoa ts) ++ b'.' ∷ payload))

sign_fold-parts :
    (h : Http) (secret : List ℕ) (ts : ℕ) (payload : List ℕ)
    → sign_fold h secret ts payload ≡ first ts +++ ("," +++ second (mac_of h secret ts payload))
unfolding sign_fold
sign_fold-parts h secret ts payload =
    let mac = mac_of h secret ts payload in
    sym (append_assoc "t=" (itoa ts) (",v1=" +++ mac))
    ∙ ap (λ rest. first ts +++ rest) (append_assoc "," "v1=" mac)

-- What is put in front of a text that is not empty.
append-empty : (s t : String) → s +++ t ≡ String.[] → s ≡ String.[]
append-empty String.[] t e = refl
append-empty (String.◌∷◌ c s) t e =
    let q : String.◌∷◌ c (s +++ t) ≡ String.[] = sym (append.cons c s t) ∙ e in cc

-- A digit is printed as itself.
digit-not_empty : (k : ℕ) → k < 10 → digit k ≢ String.[]
unfolding itoa itoa_fuel
digit-not_empty k small e =
    let one : ltb k 10 ≡ true = ground arith in
    let printed : itoa k ≡ digit k = rw one refl in itoa-not_empty k (printed ∙ e)

hex_digit-not_empty : (k : ℕ) → hex_digit k ≢ String.[]
unfolding hex_digit
hex_digit-not_empty k =
    let Full : String → Type 0 = λ s. s ≢ String.[] in
    if_split Full (ltb k 10) _ _ (λ h. digit-not_empty k (ground (arith, h)))
      λ _.
        if_both Full (k == 10) _ _ (λ e. cc)
          (if_both Full (k == 11) _ _ (λ e. cc)
            (if_both Full (k == 12) _ _ (λ e. cc)
              (if_both Full (k == 13) _ _ (λ e. cc)
                (if_both Full (k == 14) _ _ (λ e. cc) (λ e. cc)))))

hex-not_empty : (bs : List ℕ) → length bs ≡ 32 → hex bs ≢ String.[]
unfolding hex
hex-not_empty [] n e = omega (arith, n)
hex-not_empty (b ∷ bs) n e = hex_digit-not_empty (b / 16) (append-empty (hex_digit (b / 16)) _ e)

if_set-both :
    (ts : ℕ) (mac : String)
    → 0 < ts
    → str_eq mac "" ≡ false
    → if_set (some (record { ts = pos ts; v1 = mac })) ≡ some (ts, mac)
if_set-both zero mac h e = absurd (omega (arith, h))
if_set-both (suc n) mac h e = rw e refl

-- The clocks are less than 292 years apart, so their distance in nanoseconds fits an int64.
abbrev pub room : ℕ
room = 9223372036

-- The clocks are at most the tolerance apart, in nanoseconds. A tolerance that is not positive is none.
abbrev pub is_within : ℕ → ℕ → ℤ → Bool
is_within now ts tolerance =
    le_zero tolerance
    || (leb (now * 1000000000) (ts * 1000000000 + to_nat tolerance)
        && leb (ts * 1000000000) (now * 1000000000 + to_nat tolerance))

is_late-within :
    (now ts : ℕ) (tolerance : ℤ)
    → now ≤ ts + room
    → ts ≤ now + room
    → is_late now ts tolerance ≡ not (is_within now ts tolerance)
unfolding is_late
is_late-within now ts (negsuc n) near far = refl
is_late-within now ts (pos n) near far = ground arith

late_or : (late within b : Bool) → late ≡ not within → (if late then false else b) ≡ (within && b)
late_or late within b h = ground (arith, h)

module _ (h : Http) (long : (key m : List ℕ) → length (h.hmac key m) ≡ 32) (ts : ℕ) (set : 0 < ts)
    (small : ts < int64_bound) where
  mac-not_empty : (secret payload : List ℕ) → str_eq (mac_of h secret ts payload) "" ≡ false
  mac-not_empty secret payload =
      not_empty (mac_of h secret ts payload) (hex-not_empty _ (long secret _))

  -- The header is read back.
  parse_fold_signature-sign_fold :
      (secret payload : List ℕ)
      → parse_fold_signature (sign_fold h secret ts payload) ≡ some (ts, mac_of h secret ts payload)
  unfolding parse_fold_signature
  parse_fold_signature-sign_fold secret payload =
      let mac = mac_of h secret ts payload in
      let plain = hex-Plain (h.hmac secret (bytes (itoa ts) ++ b'.' ∷ payload)) in
      let fields =
        ap (λ parts. scan_parts parts (some (record { ts = pos 0; v1 = "" })))
          (ap (split_on b',') (sign_fold-parts h secret ts payload) ∙ split_header ts mac plain)
        ∙ scan_both ts mac (record { ts = pos 0; v1 = "" }) small plain in
      ap if_set fields ∙ if_set-both ts mac set (mac-not_empty secret payload)

  -- On a header that SignFold made, under any secret and for any payload, VerifyFold accepts exactly if
  -- its clock and the signed one are at most the tolerance apart, or the tolerance is not positive, and
  -- the MAC is that of its own secret and payload. The signed time is positive and an int64, the clocks
  -- are at most 9223372036 seconds apart, its own secret is not empty, and a MAC has 32 bytes.
  pub verify_fold-sign_fold :
      (secret signer payload signed : List ℕ) (now : ℕ) (tolerance : ℤ)
      → is_empty secret ≡ false
      → now ≤ ts + room
      → ts ≤ now + room
      → verify_fold h secret (sign_fold h signer ts signed) payload now tolerance ≡ (
          is_within now ts tolerance
          && str_eq (mac_of h signer ts signed) (mac_of h secret ts payload))
  unfolding verify_fold
  verify_fold-sign_fold secret signer payload signed now tolerance some_secret near far =
      ap (verify_parsed h secret payload now tolerance)
        (parse_fold_signature-sign_fold signer signed)
      ∙ rw (some_secret, mac-not_empty signer signed, parse_fold_signature-sign_fold secret payload)
          (late_or (is_late now ts tolerance) (is_within now ts tolerance) _
            (is_late-within now ts tolerance near far))
