-- ===== src/Deliver/Outcomes.antt =====
-- What the outcome of an attempt in deliver.go says of the exchange.
use sharathfold.Prelude.{
  ℕ, ◌≤◌, ◌<◌, String, some, ◌≡◌, refl, ◌⊎◌, inl, inr, arith, str_eq, eq_iff, Bool-cases,
  Option-cases,
}
use sharathfold.Store.{Delivery, Context, live, done}
use sharathfold.Deliver.{
  Outcome, success, retryable, permanent, Http, Response, Answer, answered, failed, classify_status,
  request_of, deliver, result_of,
}

-- The status codes that are tried again.
abbrev pub IsRetryableCode : ℕ → Type 0
IsRetryableCode code = (code ≡ 408) ⊎ (code ≡ 429) ⊎ (500 ≤ code)

-- What stands behind each outcome.
abbrev pub Explains : Http → Context → Delivery → Outcome → Type 0
Explains h ctx d success =
    (r : Response) × (h.do_request (request_of h d) ≡ answered r)
    × (200 ≤ r.status_code)
    × (r.status_code < 300)
Explains h ctx d retryable =
    (ctx ≡ done)
    ⊎ ((e : String) × (h.do_request (request_of h d) ≡ failed e))
    ⊎ ((r : Response) × (h.do_request (request_of h d) ≡ answered r)
        × IsRetryableCode r.status_code)
Explains h ctx d permanent =
    (d.url ≡ "")
    ⊎ ((e : String) × (h.new_request d.url ≡ some e))
    ⊎ ((r : Response) × (h.do_request (request_of h d) ≡ answered r)
        × ((r.status_code < 200) ⊎ (300 ≤ r.status_code))
        × (¬ IsRetryableCode r.status_code))

classify_status-cases :
    (code : ℕ)
    → ((classify_status code ≡ success) × (200 ≤ code) × (code < 300))
      ⊎ ((classify_status code ≡ retryable) × IsRetryableCode code)
      ⊎ ((classify_status code ≡ permanent)
          × ((code < 200) ⊎ (300 ≤ code))
          × (¬ IsRetryableCode code))
unfolding classify_status
classify_status-cases code = ground arith

result_of-Explains :
    (h : Http) (ctx : Context) (d : Delivery) (a : Answer)
    → h.do_request (request_of h d) ≡ a
    → Explains h ctx d (result_of a).outcome
result_of-Explains h ctx d (failed e) q = inr (inl (e, q))
result_of-Explains h ctx d (answered r) q = elim (classify_status-cases r.status_code) [
  | inl (e, a, b) ↦ rw e (r, q, a, b)
  | inr (inl (e, a)) ↦ rw e (inr (inr (r, q, a)))
  | inr (inr (e, a, b)) ↦ rw e (inr (inr (r, q, a, b)))
]

-- An attempt succeeds only on a 2xx response. It is to be tried again only if the context is done, no
-- response came, or the code is 408, 429 or at least 500. It fails for good only if the URL is empty
-- or refused, or on any other code.
pub deliver-Explains :
    (h : Http) (ctx : Context) (d : Delivery) → Explains h ctx d (deliver h ctx d).outcome
unfolding deliver
deliver-Explains h done d = inl refl
deliver-Explains h live d = elim (Bool-cases (str_eq d.url "")) [
  | inl k ↦ rw k (inl ((eq_iff d.url "").0 k))
  | inr k ↦ rw k (elim (Option-cases (h.new_request d.url)) [
    | inr (e, q) ↦ rw q (inr (inl (e, q)))
    | inl q ↦ rw q (result_of-Explains h live d (h.do_request (request_of h d)) refl)
  ])
]
