-- ===== src/App/Auth/Lasting.antt =====
-- src/app.rs, `authenticate`: an address that is refused while other addresses call, too.
use command_api.Prelude.{
  ℕ, ◌+◌, ◌*◌, ◌≤◌, ◌<◌, Text, Bool, ◌≡◌, ◌≢◌, some, List, [], ◌∷◌, length, lookup,
}
use command_api.Config.{IpAddr, TokenFailureCooldownConfig, AccessConfig}
use command_api.Config.Addresses.{normalize_ip, ip_keys}
use command_api.App.Auth.{second, Failures, Request, Gate, authenticate}

-- The table has `until` for an address, and no more than `size` addresses.
abbrev Holds : IpAddr → (until size : ℕ) → Failures → Type 0
Holds ip until size m = (lookup ip m ≡ some until) × (length m ≤ size)

module _ (digest : Text → Text) (phc_accepts : (phc token : Text) → Bool)
    (access : AccessConfig) where
  -- Requests one after the other, each with its two readings of the clock.
  unfoldable pub auth_all : Gate → List (ℕ × ℕ × Request) → Gate
  auth_all g [] = g
  auth_all g ((now, later, req) ∷ rest) =
      auth_all (authenticate digest phc_accepts access now later g req).1 rest

  module _ (peer : IpAddr) (failed : ℕ) where
    abbrev cfg : TokenFailureCooldownConfig
    cfg = access.token_failure_cooldown

    abbrev ip : IpAddr
    ip = normalize_ip peer

    abbrev until : ℕ
    until = failed + cfg.seconds * second

    -- A request of another address before the end of the refusal.
    abbrev pub IsOther : ℕ × ℕ × Request → Type 0
    IsOther (now, later, req) =
        (later < until) × ((p : IpAddr) → req.peer ≡ some p → normalize_ip p ≢ ip)
