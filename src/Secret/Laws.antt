-- ===== src/Secret/Laws.antt =====
-- src/secret.rs: which tokens a verifier accepts.
use command_api.Prelude.{Text, text_eq, text_eq_iff, Bool, true, ◌&&◌, ◌≡◌, refl, ok, arith}
use command_api.Secret.{validate_token, is_plausible, from_token, verify}

validate_token-is_plausible : (t : Text) → validate_token t ≡ ok tt → is_plausible t ≡ true
unfolding validate_token is_plausible
validate_token-is_plausible t h = ground arith

module _ (digest : Text → Text) (phc_accepts : (phc token : Text) → Bool) where
  -- The verifier of a token that was found valid accepts that token, and of all others only those of
  -- the same digest.
  pub verify-from_token :
      (t u : Text)
      → validate_token t ≡ ok tt
      → ((verify digest phc_accepts (from_token digest phc_accepts t) t).0 ≡ true)
        × ((verify digest phc_accepts (from_token digest phc_accepts t) u).0
            ≡ (is_plausible u && text_eq (digest u) (digest t)))
  unfolding verify from_token
  verify-from_token t u h = (
    rw (validate_token-is_plausible t h) ((text_eq_iff (digest t) (digest t)).1 refl),
    ground arith,
  )
