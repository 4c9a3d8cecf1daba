-- ===== src/Tests/Signatures.antt =====
-- Headers of deliver.go that are made and checked at concrete inputs.
use sharathfold.Prelude.{
  true, false, ◌&&◌, [], ◌∷◌, none, ◌≡◌, refl, arith, pos, str_eq, length, replicate,
}
use sharathfold.Deliver.{Http, Answer, sign_fold}
use sharathfold.Deliver.Verify.{is_late, verify_fold}
use sharathfold.Deliver.Verify.Signed.{is_within, mac_of, verify_fold-sign_fold}

-- A MAC of 32 bytes that shows the length of the key.
abbrev toy : Http
toy = record {
  new_request = λ url. none;
  do_request = λ r. Answer.failed "no network";
  hmac = λ key m. replicate 32 (length key);
  unix_now = 0;
  context_error = "";
}

-- A header that is 20 seconds old, under a tolerance of 300 seconds.
verify_fold-sign_fold_example :
    verify_fold toy (7 ∷ []) (sign_fold toy (7 ∷ []) 100 (1 ∷ [])) (1 ∷ []) 120 (pos 300000000000)
    ≡ (is_within 120 100 (pos 300000000000)
        && str_eq (mac_of toy (7 ∷ []) 100 (1 ∷ [])) (mac_of toy (7 ∷ []) 100 (1 ∷ [])))
verify_fold-sign_fold_example =
    verify_fold-sign_fold toy (λ key m. refl) 100 (omega arith) (omega arith) (7 ∷ []) (7 ∷ [])
      (1 ∷ []) (1 ∷ []) 120 (pos 300000000000) refl (omega arith) (omega arith)

-- It is accepted.
fresh : is_late 120 100 (pos 300000000000) ≡ false
unfolding is_late
fresh = refl

-- A header that is 301 seconds old is not.
stale : is_late 401 100 (pos 300000000000) ≡ true
unfolding is_late
stale = refl

-- One that is more than 292 years off is: the product wraps.
wrapped : is_late 0 9223372037 (pos 300000000000) ≡ false
unfolding is_late
wrapped = refl
