-- ===== src/App/Auth/Laws.antt =====
-- src/app.rs, `authenticate`: which requests reach a handler.
use command_api.Prelude.{
  ℕ, ◌≤◌, ◌<◌, Text, Bool, true, false, ◌≡◌, ◌↔◌, ◌⊎◌, refl, ap, ◌∙◌, inl, inr, Option, none, some,
  any, length, lookup, Bool-cases, Option-cases, arith,
}
use command_api.Config.{IpAddr, AccessConfig, TokenFailureCooldownConfig}
use command_api.Secret.{verify}
use command_api.Config.Addresses.{normalize_ip, ip_keys}
use command_api.App.Auth.{
  Failures, Request, Gate, Rejection, bearer, cooldown_remaining, after_cooldown, answer,
  source_ip_unavailable, from_ip, authenticate,
}
use command_api.App.Auth.Cooldown.{record_auth_failure-bounded, cooldown_remaining-bounded}

-- No time of refusal lies ahead for the address.
abbrev pub IsCalm : TokenFailureCooldownConfig → (now : ℕ) → IpAddr → Failures → Type 0
IsCalm cfg now ip failures =
    (cfg.enabled ≡ false)
    ⊎ ((lookup ip failures ≡ none)
        ⊎ ((until : ℕ) × (lookup ip failures ≡ some until) × (until ≤ now)))

IsCalm-iff :
    (cfg : TokenFailureCooldownConfig) (now : ℕ) (ip : IpAddr) (failures : Failures)
    → ((cooldown_remaining cfg now ip failures).0 ≡ none) ↔ IsCalm cfg now ip failures
unfolding cooldown_remaining
IsCalm-iff cfg now ip failures = (to, λ c. ground arith)
  where
    to : (cooldown_remaining cfg now ip failures).0 ≡ none → IsCalm cfg now ip failures
    to h = elim (Bool-cases cfg.enabled) [
      | inr off ↦ inl off
      | inl on ↦ elim (Option-cases (lookup ip failures)) [
        | inl e ↦ inr (inl e)
        | inr (until, e) ↦ inr (inr (until, e, ground arith))
      ]
    ]

module _ (digest : Text → Text) (phc_accepts : (phc token : Text) → Bool) (access : AccessConfig)
    (now later : ℕ) where
  -- What lets a request through.
  pub record IsAuthorized (g : Gate) (req : Request) : Type 0 where
    pub peer : IpAddr
    pub token : Text
    pub connected : req.peer ≡ some peer
    pub allowed : any (λ cidr. cidr (normalize_ip peer)) access.allowed_cidrs ≡ true
    pub calm : IsCalm access.token_failure_cooldown now (normalize_ip peer) g.auth_failures
    pub presented : bearer req.authorization ≡ some token
    pub verified : (verify digest phc_accepts g.token token).0 ≡ true

  abbrev pub auth : Gate → Request → Option Rejection × Gate
  auth = authenticate digest phc_accepts access now later

  answer-bounded :
      (g : Gate) (req : Request) (ip : IpAddr) (c : Option ℕ × Failures)
      → 0 < access.token_failure_cooldown.max_tracked_ips
      → length c.1 ≤ access.token_failure_cooldown.max_tracked_ips
      → length (after_cooldown digest phc_accepts access now later g req ip c).1.auth_failures
        ≤ access.token_failure_cooldown.max_tracked_ips
  answer-bounded g req ip (some seconds, failures) p h = h
  answer-bounded g req ip (none, failures) p h =
      ground (arith, record_auth_failure-bounded access.token_failure_cooldown later ip failures)

  from_ip-bounded :
      (g : Gate) (req : Request) (ip : IpAddr)
      → 0 < access.token_failure_cooldown.max_tracked_ips
      → length g.auth_failures ≤ access.token_failure_cooldown.max_tracked_ips
      → length (from_ip digest phc_accepts access now later g req ip).1.auth_failures
        ≤ access.token_failure_cooldown.max_tracked_ips
  unfolding from_ip
  from_ip-bounded g req ip p h =
      let cfg = access.token_failure_cooldown in
      let shrunk = cooldown_remaining-bounded cfg now ip g.auth_failures in
      elim (Bool-cases (any (λ cidr. cidr ip) access.allowed_cidrs)) [
        | inl e ↦ rw e (
            answer-bounded g req ip (cooldown_remaining cfg now ip g.auth_failures) p (omega arith))
        | inr e ↦ rw e h
      ]

  -- The table of refused addresses stays within its limit of at least one address, whatever a request
  -- holds and however it is answered.
  pub authenticate-bounded :
      (g : Gate) (req : Request)
      → 0 < access.token_failure_cooldown.max_tracked_ips
      → length g.auth_failures ≤ access.token_failure_cooldown.max_tracked_ips
      → length (auth g req).1.auth_failures ≤ access.token_failure_cooldown.max_tracked_ips
  unfolding authenticate
  authenticate-bounded g req p h = elim (Option-cases req.peer) [
    | inl e ↦ rw (e, authenticate) h
    | inr (ip, e) ↦ rw (e, authenticate) (from_ip-bounded g req (normalize_ip ip) p h)
  ]

  after_cooldown-passes :
      (g : Gate) (req : Request) (ip : IpAddr) (c : Option ℕ × Failures)
      → (after_cooldown digest phc_accepts access now later g req ip c).0 ≡ none
      → (c.0 ≡ none)
        × (t : Text) × (bearer req.authorization ≡ some t)
        × ((verify digest phc_accepts g.token t).0 ≡ true)
  after_cooldown-passes g req ip (some seconds, failures) h = cc
  after_cooldown-passes g req ip (none, failures) h =
      elim (Option-cases (bearer req.authorization)) [
        | inl e ↦ absurd (no_token (rw e at h))
        | inr (t, e) ↦ (refl, t, e, accepted t (rw e at h))
      ]
    where
      no_token :
          (answer digest phc_accepts access now later ip failures (false, g.token)).0 ≡ none → ⊥
      no_token k = cc

      accepted :
          (t : Text)
          → (answer digest phc_accepts access now later ip failures
              (verify digest phc_accepts g.token t)).0
            ≡ none
          → (verify digest phc_accepts g.token t).0 ≡ true
      accepted t k = ground arith

  from_ip-passes :
      (g : Gate) (req : Request) (peer : IpAddr)
      → req.peer ≡ some peer
      → (from_ip digest phc_accepts access now later g req (normalize_ip peer)).0 ≡ none
      → IsAuthorized g req
  unfolding from_ip
  from_ip-passes g req peer e h =
      let ip = normalize_ip peer in
      let cfg = access.token_failure_cooldown in
      elim (Bool-cases (any (λ cidr. cidr ip) access.allowed_cidrs)) [
        | inr out ↦ cc (rw out at h)
        | inl inside ↦
            let (calm, token, presented, verified) =
              after_cooldown-passes g req ip (cooldown_remaining cfg now ip g.auth_failures)
                (rw inside at h) in
            record {
              peer = peer;
              token = token;
              connected = e;
              allowed = inside;
              calm = (IsCalm-iff cfg now ip g.auth_failures).0 calm;
              presented = presented;
              verified = verified;
            }
      ]

  after_cooldown-lets :
      (g : Gate) (req : Request) (ip : IpAddr) (c : Option ℕ × Failures) (t : Text)
      → c.0 ≡ none
      → bearer req.authorization ≡ some t
      → (verify digest phc_accepts g.token t).0 ≡ true
      → (after_cooldown digest phc_accepts access now later g req ip c).0 ≡ none
  after_cooldown-lets g req ip (some seconds, failures) t h b v = cc
  after_cooldown-lets g req ip (none, failures) t h b v = rw b (ground arith)

  from_ip-lets :
      (g : Gate) (req : Request) (ip : IpAddr) (t : Text)
      → any (λ cidr. cidr ip) access.allowed_cidrs ≡ true
      → IsCalm access.token_failure_cooldown now ip g.auth_failures
      → bearer req.authorization ≡ some t
      → (verify digest phc_accepts g.token t).0 ≡ true
      → (from_ip digest phc_accepts access now later g req ip).0 ≡ none
  unfolding from_ip
  from_ip-lets g req ip t inside calm b v =
      let cfg = access.token_failure_cooldown in
      rw inside (
        after_cooldown-lets g req ip (cooldown_remaining cfg now ip g.auth_failures) t
          ((IsCalm-iff cfg now ip g.auth_failures).1 calm) b v)

  -- A request reaches its handler exactly if its peer's address, with an IPv4 address taken out of a
  -- mapped one, lies in an allowed block and is in no cooldown, and it presents a bearer token that
  -- the verifier accepts.
  pub authenticate-passes_iff :
      (g : Gate) (req : Request) → ((auth g req).0 ≡ none) ↔ IsAuthorized g req
  unfolding authenticate from_ip
  authenticate-passes_iff g req = (to, from)
    where
      to : (auth g req).0 ≡ none → IsAuthorized g req
      to h = elim (Option-cases req.peer) [
        | inl e ↦ cc (rw (e, authenticate) at h)
        | inr (ip, e) ↦ from_ip-passes g req ip e (rw (e, authenticate) at h)
      ]

      from : IsAuthorized g req → (auth g req).0 ≡ none
      from a =
          ap
            (λ o.
              (elim o as (λ x. Option Rejection × Gate) [
                | none ↦ (some source_ip_unavailable, g)
                | some ip ↦ from_ip digest phc_accepts access now later g req (normalize_ip ip)
              ]).0)
            a.connected
          ∙ from_ip-lets g req (normalize_ip a.peer) a.token a.allowed a.calm a.presented a.verified
