-- ===== src/App/Auth.antt =====
-- src/app.rs, `authenticate`, `cooldown_remaining` and `record_auth_failure`: who may call.
-- Instants are nanoseconds, whose sums do not overflow. Each request runs alone here; `now` and
-- `later` are its two readings of the clock. `Bearer ` and the token stand in the header as bytes.
pub mod Cooldown
pub mod Lasting
pub mod Laws
use command_api.Prelude.{
  ℕ, ◌+◌, ◌-◌, ◌*◌, ◌/◌, ◌%◌, ◌^◌, Text, bytes, strip_prefix, Bool, true, false, not, ◌↔◌, ◌≡◌,
  Option, none, some, List, [], ◌∷◌, if◌then◌else◌, ltb, leb, ◌==◌, any, length, Eq, lookup, insert,
  remove, arith,
}
use command_api.Config.{IpAddr, v4, v6, TokenFailureCooldownConfig, AccessConfig}
use command_api.Config.Addresses.{normalize_ip, ip_eq, ip_keys}
use command_api.Secret.{TokenVerifier, verify}
use command_api.App.{ApiError}

abbrev pub second : ℕ
second = 1000000000

-- Until when each address is refused.
abbrev pub Failures : Type 0
Failures = List (IpAddr × ℕ)

abbrev pub round_up : ℕ → ℕ
round_up ns = ns / second + (if ltb 0 (ns % second) then 1 else 0)

abbrev pub remaining : (now : ℕ) → IpAddr → Failures → Option ℕ → Option ℕ × Failures
remaining now ip failures none = (none, failures)
remaining now ip failures (some until) =
    if ltb now until then (some (round_up (until - now)), failures) else (none, remove ip failures)

unfoldable pub cooldown_remaining :
    TokenFailureCooldownConfig → (now : ℕ) → IpAddr → Failures → Option ℕ × Failures
cooldown_remaining cfg now ip failures =
    if not cfg.enabled then (none, failures) else remaining now ip failures (lookup ip failures)

-- `retain(|_, until| *until > now)`
unfoldable pub retain : (now : ℕ) → Failures → Failures
retain now [] = []
retain now ((ip, until) ∷ rest) =
    let kept = retain now rest in if ltb now until then (ip, until) ∷ kept else kept

-- `iter().min_by_key(|(_, until)| **until)`
unfoldable pub oldest_from : IpAddr × ℕ → Failures → IpAddr
oldest_from best [] = best.0
oldest_from best ((ip, until) ∷ rest) =
    oldest_from (if ltb until best.1 then (ip, until) else best) rest

abbrev pub remove_oldest : Failures → Failures
remove_oldest [] = []
remove_oldest ((ip, until) ∷ rest) = remove (oldest_from (ip, until) rest) ((ip, until) ∷ rest)

unfoldable pub record_auth_failure :
    TokenFailureCooldownConfig → (now : ℕ) → IpAddr → Failures → Failures
record_auth_failure cfg now ip failures =
    let live = retain now failures in
    let room = if leb cfg.max_tracked_ips (length live) then remove_oldest live else live in
    if not cfg.enabled then failures else insert ip (now + cfg.seconds * second) room

-- What of a request `authenticate` looks at: the address of the TCP peer, and the header
-- `Authorization`, where there is one and `to_str` reads it.
pub record Request : Type 0 where
  pub peer : Option IpAddr
  pub authorization : Option Text

pub record Gate : Type 0 where
  pub token : TokenVerifier
  pub auth_failures : Failures

-- An answer other than the handler's: the error, and the headers `Retry-After` and
-- `WWW-Authenticate: Bearer`.
pub record Rejection : Type 0 where
  pub error : ApiError
  pub retry_after : Option ℕ
  pub challenge : Bool

abbrev pub refuse : ApiError → Rejection
refuse e = record { error = e; retry_after = none; challenge = false }

abbrev pub source_ip_unavailable : Rejection
source_ip_unavailable = refuse (record { status = 403; code = "source_ip_unavailable" })

abbrev pub source_ip_denied : Rejection
source_ip_denied = refuse (record { status = 403; code = "source_ip_denied" })

abbrev pub in_cooldown : ℕ → Rejection
in_cooldown seconds = record {
  error = record { status = 429; code = "token_failure_cooldown" };
  retry_after = some seconds;
  challenge = false;
}

abbrev pub unauthorized : Rejection
unauthorized = record {
  error = record { status = 401; code = "unauthorized" };
  retry_after = none;
  challenge = true;
}

abbrev pub bearer : Option Text → Option Text
bearer none = none
bearer (some value) = strip_prefix (bytes "Bearer ") value

module _ (digest : Text → Text) (phc_accepts : (phc token : Text) → Bool) (access : AccessConfig)
    (now later : ℕ) where
  abbrev pub check_token : TokenVerifier → Option Text → Bool × TokenVerifier
  check_token v none = (false, v)
  check_token v (some token) = verify digest phc_accepts v token

  abbrev pub answer : IpAddr → Failures → Bool × TokenVerifier → Option Rejection × Gate
  answer ip failures (true, v) = (none, record { token = v; auth_failures = failures })
  answer ip failures (false, v) = (
    some unauthorized,
    record {
      token = v;
      auth_failures = record_auth_failure access.token_failure_cooldown later ip failures;
    },
  )

  abbrev pub after_cooldown :
      Gate → Request → IpAddr → Option ℕ × Failures → Option Rejection × Gate
  after_cooldown g req ip (some seconds, failures) =
      (some (in_cooldown seconds), record g { auth_failures = failures })
  after_cooldown g req ip (none, failures) =
      answer ip failures (check_token g.token (bearer req.authorization))

  unfoldable pub from_ip : Gate → Request → IpAddr → Option Rejection × Gate
  from_ip g req ip =
      if not (any (λ cidr. cidr ip) access.allowed_cidrs)
      then (some source_ip_denied, g)
      else after_cooldown g req ip
          (cooldown_remaining access.token_failure_cooldown now ip g.auth_failures)

  -- `none` where the request goes on to its handler.
  unfoldable pub authenticate : Gate → Request → Option Rejection × Gate
  unfolding from_ip
  authenticate g req = elim req.peer [
    | none ↦ (some source_ip_unavailable, g)
    | some ip ↦ from_ip g req (normalize_ip ip)
  ]
