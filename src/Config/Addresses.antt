-- ===== src/Config/Addresses.antt =====
-- src/config.rs: addresses, the listeners of the service and the access rules. `windows_service.name`
-- and the listeners are checked here too.
use command_api.Prelude.{
  ℕ, ◌/◌, ◌%◌, ◌^◌, Text, length, contains, Bool, true, false, ◌&&◌, ◌||◌, ◌≡◌, ◌↔◌, Option, none,
  some, List, [], ◌∷◌, map, any, is_empty, Result, ok, ◌>>◌, bail_if, Eq, if◌then◌else◌, ltb, ◌==◌,
  arith,
}
use command_api.Config.{IpAddr, v4, v6, ListenerConfig, ServerConfig, AccessConfig}

-- `normalize_ip` (src/config.rs): an IPv4 address that is mapped into IPv6 is taken out.
unfoldable pub normalize_ip : IpAddr → IpAddr
normalize_ip (v4 n) = v4 n
normalize_ip (v6 n) = if n / 2 ^ 32 == 0xffff then v4 (n % 2 ^ 32) else v6 n

unfoldable pub ip_eq : IpAddr → IpAddr → Bool
ip_eq (v4 a) (v4 b) = a == b
ip_eq (v6 a) (v6 b) = a == b
ip_eq _ _ = false

pub ip_eq_iff : (a b : IpAddr) → (ip_eq a b ≡ true) ↔ (a ≡ b)
unfolding ip_eq
ip_eq_iff (v4 a) (v4 b) = ground arith
ip_eq_iff (v6 a) (v6 b) = ground arith
ip_eq_iff (v4 a) (v6 b) = ground arith
ip_eq_iff (v6 a) (v4 b) = ground arith

instance abbrev pub ip_keys : Eq IpAddr
ip_keys = record { beq = ip_eq; beq_iff = ip_eq_iff }

unfoldable pub listener_eq : ListenerConfig → ListenerConfig → Bool
listener_eq a b = ip_eq a.host b.host && a.port == b.port

pub data ServerError : Type 0 where
  mixed_listeners no_listeners duplicate_listener : ServerError
  no_cidrs no_cooldown bad_service_name : ServerError

-- The loop of `validate_listeners`; `unique` is the set of those seen.
unfoldable pub check_unique :
    (unique : List ListenerConfig) → List ListenerConfig → Result ServerError (Unit {0})
unfolding listener_eq
check_unique unique [] = ok tt
check_unique unique (listener ∷ rest) = do
  bail_if (any (listener_eq listener) unique) duplicate_listener
  check_unique (listener ∷ unique) rest

unfoldable pub validate_listeners : List ListenerConfig → Result ServerError (Unit {0})
unfolding check_unique
validate_listeners listeners = do
  bail_if (is_empty listeners) no_listeners
  check_unique [] listeners

-- `default_hosts` and `default_port`
abbrev pub default_hosts : List IpAddr
default_hosts = v4 0x7f000001 ∷ []

abbrev pub default_port : ℕ
default_port = 27415

abbrev pub unwrap_or_else {ℓ} : {A : Type ℓ} → A → Option A → A
unwrap_or_else d none = d
unwrap_or_else d (some a) = a

abbrev pub is_some {ℓ} : {A : Type ℓ} → Option A → Bool
is_some none = false
is_some (some a) = true

-- One listener for each host, on one port.
abbrev pub on_hosts : Option (List IpAddr) → Option ℕ → List ListenerConfig
on_hosts hosts port =
    map (λ host. record { host = host; port = unwrap_or_else default_port port })
      (unwrap_or_else default_hosts hosts)

-- `resolve_server`: the listeners of the resolved configuration.
unfoldable pub resolve_server : ServerConfig → Result ServerError (List ListenerConfig)
unfolding validate_listeners
resolve_server server =
    if is_empty server.listeners
    then (do
      validate_listeners (on_hosts server.hosts server.port)
      ok (on_hosts server.hosts server.port))
    else (do
      bail_if (is_some server.hosts || is_some server.port) mixed_listeners
      validate_listeners server.listeners
      ok server.listeners)

unfoldable pub validate_access : AccessConfig → Result ServerError (Unit {0})
validate_access access = do
  bail_if (is_empty access.allowed_cidrs) no_cidrs
  bail_if
      (access.token_failure_cooldown.enabled
        && (access.token_failure_cooldown.seconds == 0
            || access.token_failure_cooldown.max_tracked_ips == 0))
      no_cooldown

unfoldable pub validate_service_name : (name : Text) → Result ServerError (Unit {0})
validate_service_name name =
    bail_if (is_empty name || ltb 128 (length name) || contains b'/' name || contains b'\\' name)
      bad_service_name
