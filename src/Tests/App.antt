-- ===== src/Tests/App.antt =====
-- src/app.rs and src/secret.rs at concrete inputs.
use command_api.Prelude.{
  ◌+◌, ◌*◌, ◌^◌, ◌≡◌, ◌↔◌, refl, Text, bytes, Bool, true, ◌&&◌, none, some, [], ◌∷◌, ok, text_eq,
}
use command_api.Config.{v4, v6, AccessConfig}
use command_api.Secret.{sha256, validate_token, is_plausible, from_token, verify}
use command_api.Secret.Laws.{verify-from_token}
use command_api.App.Auth.{Gate, Request, Failures, second}
use command_api.App.Auth.Laws.{IsAuthorized, auth, authenticate-passes_iff}

-- A stand-in for SHA-256, and a PHC string that accepts one token.
abbrev pub same : Text → Text
same t = t

abbrev pub token : Text
token = bytes "0123456789abcdef0123456789abcdef"

abbrev pub accepts_token : Text → Text → Bool
accepts_token phc t = text_eq t token

token_valid : validate_token token ≡ ok tt
unfolding validate_token
token_valid = refl

verify-from_token_example :
    ((verify same accepts_token (from_token same accepts_token token) token).0 ≡ true)
    × ((verify same accepts_token (from_token same accepts_token token) (bytes "x")).0
        ≡ (is_plausible (bytes "x") && text_eq (bytes "x") token))
verify-from_token_example = verify-from_token same accepts_token token (bytes "x") token_valid

abbrev pub access : AccessConfig
access = record {
  allowed_cidrs = (λ ip. true) ∷ [];
  token_failure_cooldown = record { enabled = true; seconds = 10; max_tracked_ips = 2 };
}

-- One address has failed at 5.
abbrev failed_once : Failures
failed_once = (v4 1, 5 + 10 * second) ∷ []

abbrev pub gate : Gate
gate = record { token = sha256 token; auth_failures = failed_once }

abbrev pub asked : Request
asked = record {
  peer = some (v6 (0xffff * 2 ^ 32 + 1));
  authorization = some (bytes "Bearer 0123456789abcdef0123456789abcdef");
}

authenticate-passes_iff_example :
    ((auth same accepts_token access 6 7 gate asked).0 ≡ none)
    ↔ IsAuthorized same accepts_token access 6 7 gate asked
authenticate-passes_iff_example = authenticate-passes_iff same accepts_token access 6 7 gate asked

-- Another address presents no token meanwhile.
abbrev other_asked : Request
other_asked = record { peer = some (v4 2); authorization = none }
