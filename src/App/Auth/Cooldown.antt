-- ===== src/App/Auth/Cooldown.antt =====
-- src/app.rs, `cooldown_remaining` and `record_auth_failure`: the table of refused addresses.
use command_api.Prelude.{
  ℕ, ◌+◌, ◌*◌, ◌≤◌, ◌<◌, Bool, true, false, ◌≡◌, refl, ◌∙◌, some, [], ◌∷◌, if◌then◌else◌, ltb,
  length, lookup, insert, remove, lookup-insert, length-remove-le, arith,
}
use command_api.Config.{IpAddr, TokenFailureCooldownConfig}
use command_api.Config.Addresses.{ip_eq, ip_eq_iff, ip_keys}
use command_api.App.Auth.{
  second, Failures, cooldown_remaining, retain, oldest_from, remove_oldest, record_auth_failure,
  round_up,
}

pub length-retain-le : (now : ℕ) (m : Failures) → length (retain now m) ≤ length m
unfolding retain
length-retain-le now [] = omega arith
length-retain-le now ((ip, until) ∷ rest) = ground (arith, length-retain-le now rest)

abbrev is_key : IpAddr → Failures → Bool
is_key ip [] = false
is_key ip ((j, u) ∷ rest) = if ip_eq j ip then true else is_key ip rest

length-remove-lt :
    (ip : IpAddr) (m : Failures) → is_key ip m ≡ true → length (remove ip m) < length m
unfolding remove
length-remove-lt ip [] h = cc
length-remove-lt ip ((j, u) ∷ rest) h =
    ground (arith, length-remove-le ip rest, length-remove-lt ip rest)

oldest_from-is_key :
    (best : IpAddr × ℕ) (rest m : Failures)
    → is_key best.0 m ≡ true
    → ((ip : IpAddr) → is_key ip rest ≡ true → is_key ip m ≡ true)
    → is_key (oldest_from best rest) m ≡ true
unfolding oldest_from
oldest_from-is_key best [] m h k = h
oldest_from-is_key best ((ip, until) ∷ rest) m h k =
    oldest_from-is_key (if ltb until best.1 then (ip, until) else best) rest m
      (chosen (ltb until best.1)) λ j e. k j (inside j e)
  where
    chosen : (b : Bool) → is_key (if b then (ip, until) else best).0 m ≡ true
    chosen true = k ip (rw ((ip_eq_iff ip ip).1 refl))
    chosen false = h

    inside : (j : IpAddr) → is_key j rest ≡ true → is_key j ((ip, until) ∷ rest) ≡ true
    inside j e = ground arith

remove_oldest-cons :
    (ip : IpAddr) (until : ℕ) (rest : Failures)
    → length (remove_oldest ((ip, until) ∷ rest)) < length ((ip, until) ∷ rest)
remove_oldest-cons ip until rest =
    length-remove-lt (oldest_from (ip, until) rest) ((ip, until) ∷ rest) (
      oldest_from-is_key (ip, until) rest ((ip, until) ∷ rest) (rw ((ip_eq_iff ip ip).1 refl))
        λ j e. ground arith)

length-remove_oldest-le :
    (m : Failures) (k : ℕ) → 0 < k → length m ≤ k → length (remove_oldest m) < k
length-remove_oldest-le [] k p h = p
length-remove_oldest-le ((ip, until) ∷ rest) k p h = omega (arith, remove_oldest-cons ip until rest)

-- A failure is recorded without making the table larger than its limit, which is at least 1.
pub record_auth_failure-bounded :
    (cfg : TokenFailureCooldownConfig) (now : ℕ) (ip : IpAddr) (m : Failures)
    → 0 < cfg.max_tracked_ips
    → length m ≤ cfg.max_tracked_ips
    → length (record_auth_failure cfg now ip m) ≤ cfg.max_tracked_ips
unfolding record_auth_failure insert
record_auth_failure-bounded cfg now ip m p h = ground (
  arith,
  length-retain-le now m,
  length-remove_oldest-le (retain now m) cfg.max_tracked_ips,
  length-remove-le ip (remove_oldest (retain now m)),
  length-remove-le ip (retain now m),
)

pub cooldown_remaining-bounded :
    (cfg : TokenFailureCooldownConfig) (now : ℕ) (ip : IpAddr) (m : Failures)
    → length (cooldown_remaining cfg now ip m).1 ≤ length m
unfolding cooldown_remaining
cooldown_remaining-bounded cfg now ip m = ground (arith, length-remove-le ip m)

pub round_up_bounds : (d : ℕ) → (d ≤ round_up d * second) × (round_up d * second < d + second)
round_up_bounds d = ground arith

pub lookup-insert_same :
    (ip : IpAddr) (until : ℕ) (m : Failures) → lookup ip (insert ip until m) ≡ some until
lookup-insert_same ip until m = lookup-insert ip ip until m ∙ rw ((ip_eq_iff ip ip).1 refl)
