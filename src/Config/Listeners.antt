-- ===== src/Config/Listeners.antt =====
-- src/config.rs, `resolve_server`: the listeners that are accepted.
use command_api.Prelude.{
  Eq, Distinct, apart, true, false, Bool-cases, ◌||◌, ◌≡◌, ◌↔◌, ◌⊎◌, inl, inr, refl, Option, none,
  some, List, [], ◌∷◌, any, All, is_empty, ok, >>=-eq-ok, bail_if, bail_if-eq-ok, arith,
}
use command_api.Config.{ListenerConfig, ServerConfig}
use command_api.Config.Addresses.{
  listener_eq, check_unique, validate_listeners, resolve_server, on_hosts, is_some,
  duplicate_listener, no_listeners, mixed_listeners, ip_eq_iff,
}

pub listener_eq_iff : (a b : ListenerConfig) → (listener_eq a b ≡ true) ↔ (a ≡ b)
unfolding listener_eq
listener_eq_iff a b = ground (arith, ip_eq_iff a.host b.host)

instance abbrev pub listener_keys : Eq ListenerConfig
listener_keys = record { beq = listener_eq; beq_iff = listener_eq_iff }

check_unique-Distinct :
    (unique listeners : List ListenerConfig)
    → check_unique unique listeners ≡ ok tt
    → Distinct listeners × All (λ l. any (listener_eq l) unique ≡ false) listeners
unfolding check_unique
check_unique-Distinct unique [] e = (tt, tt)
check_unique-Distinct unique (l ∷ rest) e =
    let (u, g, e1) = >>=-eq-ok (bail_if (any (listener_eq l) unique) duplicate_listener) _ e in
    let (d, a) = check_unique-Distinct (l ∷ unique) rest e1 in
    let (new, old) = apart l unique rest a in ((new, d), (bail_if-eq-ok _ _ g, old))

validate_listeners-Distinct :
    (listeners : List ListenerConfig)
    → validate_listeners listeners ≡ ok tt
    → (is_empty listeners ≡ false) × Distinct listeners
unfolding validate_listeners
validate_listeners-Distinct listeners e =
    let (u, g, e1) = >>=-eq-ok (bail_if (is_empty listeners) no_listeners) _ e in
    (bail_if-eq-ok _ _ g, (check_unique-Distinct [] listeners e1).0)

is_empty-nil : (l : List ListenerConfig) → is_empty l ≡ true → l ≡ []
is_empty-nil [] h = refl
is_empty-nil (x ∷ l) h = cc

neither :
    {A B : Type 0} (a : Option A) (b : Option B)
    → (is_some a || is_some b) ≡ false
    → (a ≡ none) × (b ≡ none)
neither none none h = (refl, refl)
neither none (some y) h = cc
neither (some x) b h = cc

-- The listeners of a server that is accepted are distinct, at least one, and those that are
-- configured: the list `listeners` where it has entries, and then neither hosts nor a port stand
-- beside it, or else one for each host on the one port, with the defaults of both.
pub resolve_server-Distinct :
    (server : ServerConfig) (listeners : List ListenerConfig)
    → resolve_server server ≡ ok listeners
    → (is_empty listeners ≡ false)
      × Distinct listeners
      × (((server.listeners ≡ []) × (listeners ≡ on_hosts server.hosts server.port))
          ⊎ ((server.hosts ≡ none) × (server.port ≡ none) × (listeners ≡ server.listeners)))
unfolding resolve_server
resolve_server-Distinct server listeners e = elim (Bool-cases (is_empty server.listeners)) [
  | inl t ↦
      let hosts = on_hosts server.hosts server.port in
      let (u, valid, same) = >>=-eq-ok (validate_listeners hosts) _ (rw t at e) in
      let (some_left, distinct) = validate_listeners-Distinct hosts valid in
      let is : hosts ≡ listeners = cc in
      rw (← is) (some_left, distinct, inl (is_empty-nil server.listeners t, refl))
  | inr f ↦
      let (u, alone, e1) =
        >>=-eq-ok (bail_if (is_some server.hosts || is_some server.port) mixed_listeners) _
          (rw f at e) in
      let (v, valid, same) = >>=-eq-ok (check_unique [] server.listeners) _ e1 in
      let (distinct, unseen) = check_unique-Distinct [] server.listeners valid in
      let is : server.listeners ≡ listeners = cc in
      let (no_hosts, no_port) = neither server.hosts server.port (bail_if-eq-ok _ _ alone) in
      rw (← is) (f, distinct, inr (no_hosts, no_port, refl))
]
