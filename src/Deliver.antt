-- ===== src/Deliver.antt =====
-- transport.go and deliver.go: the outcome of one HTTP attempt, and the signature header. net/http and
-- crypto/hmac are parameters. An error is its text.
pub mod Outcomes
pub mod Verify
use sharathfold.Prelude.{
  ℕ, ◌+◌, ◌/◌, ◌%◌, String, Bool, true, false, ◌&&◌, ◌||◌, List, [], ◌∷◌, ◌++◌, Option, none, some,
  if◌then◌else◌, ltb, leb, ◌==◌, str_eq, itoa, ◌+++◌, bytes, length, digit,
}
use sharathfold.Store.{Delivery, Time, Context, with_context}

pub data Outcome : Type 0 where
  success retryable permanent : Outcome

-- `status_code` is 0 when there was no response.
pub record DeliverResult : Type 0 where
  pub outcome : Outcome
  pub status_code : ℕ
  pub error : Option String

abbrev error_lines : ℕ → Option String → String
error_lines code (some e) = if ltb 0 code then "status " +++ itoa code +++ ": " +++ e else e
error_lines code none = if ltb 0 code then "status " +++ itoa code else "delivery failed"

abbrev error_of : Outcome → ℕ → Option String → String
error_of success code e = ""
error_of retryable code e = error_lines code e
error_of permanent code e = error_lines code e

-- Result.Error()
unfoldable pub error_text : DeliverResult → String
error_text r = error_of r.outcome r.status_code r.error

unfoldable pub classify_status : ℕ → Outcome
classify_status code =
    if leb 200 code && ltb code 300
    then success
    else if code == 408 || code == 429
    then retryable
    else if leb 500 code
    then retryable
    else permanent

pub record Request : Type 0 where
  pub url : String
  pub body : List ℕ
  pub headers : List (String × String)

pub record Response : Type 0 where
  pub status_code : ℕ
  pub status : String

pub data Answer : Type 0 where
  answered : Response → Answer
  failed : String → Answer

-- What the transport uses of net/http, crypto/hmac with SHA-256, and the clock. `new_request` answers
-- with an error text if the URL is refused.
pub record Http : Type 0 where
  pub new_request : String → Option String
  pub do_request : Request → Answer
  pub hmac : List ℕ → List ℕ → List ℕ
  pub unix_now : ℕ
  pub context_error : String

unfoldable pub hex_digit : ℕ → String
hex_digit k =
    if ltb k 10
    then digit k
    else if k == 10
    then "a"
    else if k == 11
    then "b"
    else if k == 12
    then "c"
    else if k == 13
    then "d"
    else if k == 14
    then "e"
    else "f"

-- hex.EncodeToString
unfoldable pub hex : List ℕ → String
unfolding hex_digit digit
hex [] = ""
hex (b ∷ bs) = hex_digit (b / 16) +++ hex_digit (b % 16) +++ hex bs

-- The signed bytes are "<unix>.<payload>".
unfoldable pub sign_fold : Http → List ℕ → ℕ → List ℕ → String
unfolding hex bytes itoa
sign_fold h secret ts payload =
    "t=" +++ itoa ts +++ ",v1=" +++ hex (h.hmac secret (bytes (itoa ts) ++ b'.' ∷ payload))

abbrev header_if : Bool → String → String → List (String × String)
header_if true name value = (name, value) ∷ []
header_if false name value = []

abbrev is_set : String → Bool
is_set s = if str_eq s "" then false else true

unfoldable pub request_of : Http → Delivery → Request
request_of h d = record {
  url = d.url;
  body = d.payload;
  headers =
      ("Content-Type", "application/json")
      ∷ (header_if (is_set d.event_type) "X-Fold-Event" d.event_type
          ++ (header_if (is_set d.event_id) "X-Fold-Event-Id" d.event_id
              ++ (header_if (is_set d.id) "X-Fold-Delivery-Id" d.id
                  ++ header_if (ltb 0 (length d.secret)) "Fold-Signature"
                      (sign_fold h d.secret h.unix_now d.payload))));
}

abbrev failure : Outcome → String → DeliverResult
failure o e = record { outcome = o; status_code = 0; error = some e }

abbrev error_unless_success : Outcome → String → Option String
error_unless_success success status = none
error_unless_success retryable status = some ("HTTP " +++ status)
error_unless_success permanent status = some ("HTTP " +++ status)

abbrev result_of : Answer → DeliverResult
result_of (failed e) = failure retryable e
result_of (answered r) =
    let o = classify_status r.status_code in
    record { outcome = o; status_code = r.status_code; error = error_unless_success o r.status }

abbrev sent : Http → Delivery → Option String → DeliverResult
sent h d (some e) = failure permanent e
sent h d none = result_of (h.do_request (request_of h d))

-- HTTPTransport.Deliver
unfoldable pub deliver : Http → Context → Delivery → DeliverResult
deliver h ctx d = with_context ctx (failure retryable h.context_error) (
    if str_eq d.url ""
    then failure permanent "empty subscriber URL"
    else sent h d (h.new_request d.url))
