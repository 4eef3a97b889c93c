-- ===== src/Secret.antt =====
-- src/secret.rs: tokens, their fingerprints and the verifier. `digest` is SHA-256, and `phc_accepts`
-- parses a PHC string and checks a token by the crate `pbkdf2`. `ct_eq` is equality.
pub mod Laws
pub mod Storage
pub mod Dpapi
use command_api.Prelude.{
  ℕ, Text, bytes, text_eq, contains, Bool, true, false, not, ◌&&◌, ◌||◌, Option, none, some, Result,
  ok, err, ◌>>=◌, ◌>>◌, bail_if, ok_or, ltb, ◌==◌, length, if◌then◌else◌,
}

pub data SecretError : Type 0 where
  too_short too_long control_character bad_phc wrong_algorithm incomplete_phc : SecretError
  bad_params wrong_length too_many_rounds too_few_rounds not_hashed : SecretError

abbrev pub max_rounds : ℕ
max_rounds = 1000000

-- `contains(['\r', '\n', '\0'])`
abbrev pub has_control : Text → Bool
has_control token = contains 13 token || contains 10 token || contains 0 token

unfoldable pub validate_token : Text → Result SecretError (Unit {0})
validate_token token = do
  bail_if (ltb (length token) 32) too_short
  bail_if (ltb 4096 (length token)) too_long
  bail_if (has_control token) control_character

pub data TokenVerifier : Type 0 where
  sha256 : (fingerprint : Text) → TokenVerifier
  pbkdf2_sha256 : (phc : Text) → (successful_fingerprint : Option Text) → TokenVerifier

-- What the crate reads of a PHC string; `params` are the length of the output and the rounds.
pub record PasswordHash : Type 0 where
  pub algorithm : Text
  pub has_salt : Bool
  pub has_hash : Bool
  pub params : Option (ℕ × ℕ)

unfoldable pub validate_pbkdf2_sha256 :
    (parse_phc : Text → Option PasswordHash) → Text → Result SecretError (Unit {0})
validate_pbkdf2_sha256 parse_phc phc = do
  hash ← ok_or (parse_phc phc) bad_phc
  bail_if (not (text_eq hash.algorithm (bytes "pbkdf2-sha256"))) wrong_algorithm
  bail_if (not hash.has_salt || not hash.has_hash) incomplete_phc
  params ← ok_or hash.params bad_params
  bail_if (not (params.0 == 32)) wrong_length
  bail_if (ltb max_rounds params.1) too_many_rounds

unfoldable pub from_pbkdf2_sha256 :
    (parse_phc : Text → Option PasswordHash) → Text → Result SecretError TokenVerifier
from_pbkdf2_sha256 parse_phc phc = do
  validate_pbkdf2_sha256 parse_phc phc
  ok (pbkdf2_sha256 phc none)

-- `generate_pbkdf2_sha256`; `hash_password` fails below the crate's least number of rounds.
unfoldable pub generate_pbkdf2_sha256 :
    (min_rounds : ℕ)
    → (hash_password : (rounds : ℕ) → Text → Option Text) → Text
    → (rounds : ℕ) → Result SecretError Text
generate_pbkdf2_sha256 min_rounds hash_password token rounds = do
  validate_token token
  bail_if (ltb max_rounds rounds) too_many_rounds
  bail_if (ltb rounds min_rounds) too_few_rounds
  ok_or (hash_password rounds token) not_hashed

-- The check of the first lines of `verify`.
unfoldable pub is_plausible : Text → Bool
is_plausible token = not (ltb 4096 (length token) || has_control token)

module _ (digest : Text → Text) (phc_accepts : (phc token : Text) → Bool) where
  unfoldable pub from_token : Text → TokenVerifier
  from_token token = sha256 (digest token)

  -- Without a cached fingerprint the token is hashed, and the fingerprint of a good one is kept.
  abbrev pub check_hash : (phc token : Text) → Bool → Bool × TokenVerifier
  check_hash phc token true = (true, pbkdf2_sha256 phc (some (digest token)))
  check_hash phc token false = (false, pbkdf2_sha256 phc none)

  abbrev pub check_fingerprint : TokenVerifier → Text → Bool × TokenVerifier
  check_fingerprint (sha256 expected) token = (text_eq (digest token) expected, sha256 expected)
  check_fingerprint (pbkdf2_sha256 phc (some expected)) token =
      (text_eq (digest token) expected, pbkdf2_sha256 phc (some expected))
  check_fingerprint (pbkdf2_sha256 phc none) token = check_hash phc token (phc_accepts phc token)

  -- `verify`, with the verifier that is left.
  unfoldable pub verify : TokenVerifier → Text → Bool × TokenVerifier
  verify v token = if is_plausible token then check_fingerprint v token else (false, v)
