-- ===== src/Config/Arguments.antt =====
-- src/config.rs, `validate_request_args`: the arguments that a request may pass to a script.
use command_api.Prelude.{
  ℕ, ◌+◌, ◌-◌, ◌^◌, ◌≤◌, ◌<◌, min, Text, text_eq, contains, Bool, true, false, not, ◌&&◌, ◌||◌, ◌≡◌,
  ◌↔◌, ◌⊎◌, ap, ◌∙◌, List, [], ◌∷◌, Result, ok, ◌>>=◌, ◌>>◌, bail_if, bail_if-eq-ok, >>=-eq-ok, ltb,
  any, is_empty, length, All, arith,
}
use command_api.Config.{ResolvedRoute}

pub data ArgumentError : Type 0 where
  not_enabled too_many nul_character item_too_long not_allowed total_too_long : ArgumentError

-- `total.saturating_add(size)`
abbrev pub saturating_add : ℕ → ℕ → ℕ
saturating_add a b = min (2 ^ 64 - 1) (a + b)

unfoldable pub has_allowlist : ResolvedRoute → Bool
has_allowlist route =
    not (is_empty route.request_args.allowed_values) || not (is_empty route.request_arg_patterns)

unfoldable pub is_listed : ResolvedRoute → Text → Bool
is_listed route arg =
    any (λ value. text_eq value arg) route.request_args.allowed_values
    || any (λ is_match. is_match arg) route.request_arg_patterns

unfoldable pub check_arg : ResolvedRoute → Text → Result ArgumentError (Unit {0})
check_arg route arg = do
  bail_if (contains 0 arg) nul_character
  bail_if (ltb route.request_args.max_item_bytes (length arg)) item_too_long
  bail_if (has_allowlist route && not (is_listed route arg)) not_allowed

-- The loop over the arguments, with the bytes counted so far.
unfoldable pub check_args : ResolvedRoute → (total : ℕ) → List Text → Result ArgumentError ℕ
check_args route total [] = ok total
check_args route total (arg ∷ rest) = do
  check_arg route arg
  check_args route (saturating_add total (length arg)) rest

unfoldable pub validate_request_args : ResolvedRoute → List Text → Result ArgumentError (Unit {0})
validate_request_args route args = do
  bail_if (not route.request_args.enabled && not (is_empty args)) not_enabled
  bail_if (ltb route.request_args.max_count (length args)) too_many
  total ← check_args route 0 args
  bail_if (ltb route.request_args.max_total_bytes total) total_too_long

-- What one argument must satisfy.
abbrev pub IsAllowedArg : ResolvedRoute → Text → Type 0
IsAllowedArg route arg =
    (contains 0 arg ≡ false)
    × (length arg ≤ route.request_args.max_item_bytes)
    × ((has_allowlist route ≡ false) ⊎ (is_listed route arg ≡ true))

abbrev pub total_bytes : List Text → ℕ
total_bytes [] = 0
total_bytes (arg ∷ rest) = length arg + total_bytes rest

pub record IsAllowed (route : ResolvedRoute) (args : List Text) : Type 0 where
  pub enabled : (route.request_args.enabled ≡ true) ⊎ (args ≡ [])
  pub count : length args ≤ route.request_args.max_count
  pub each : All (IsAllowedArg route) args
  pub total : total_bytes args ≤ route.request_args.max_total_bytes

check_arg_iff :
    (route : ResolvedRoute) (arg : Text) → (check_arg route arg ≡ ok tt) ↔ IsAllowedArg route arg
unfolding check_arg
check_arg_iff route arg = ground arith

check_args_sound :
    (route : ResolvedRoute) (total n : ℕ) (args : List Text)
    → total < 2 ^ 64
    → check_args route total args ≡ ok n
    → All (IsAllowedArg route) args × (n ≡ min (2 ^ 64 - 1) (total + total_bytes args))
unfolding check_args
check_args_sound route total n [] h e = (tt, ground arith)
check_args_sound route total n (arg ∷ rest) h e =
    let (u, here, later) = >>=-eq-ok (check_arg route arg) _ e in
    let (each, sum) =
      check_args_sound route (saturating_add total (length arg)) n rest (omega arith) later in
    (((check_arg_iff route arg).0 here, each), omega arith)

check_args_complete :
    (route : ResolvedRoute) (total : ℕ) (args : List Text)
    → total < 2 ^ 64
    → All (IsAllowedArg route) args
    → check_args route total args ≡ ok (min (2 ^ 64 - 1) (total + total_bytes args))
unfolding check_args
check_args_complete route total [] h a = ap ok (omega arith)
check_args_complete route total (arg ∷ rest) h a =
    let total' = saturating_add total (length arg) in
    let same : min (2 ^ 64 - 1) (total' + total_bytes rest)
        ≡ min (2 ^ 64 - 1) (total + total_bytes (arg ∷ rest)) =
      omega arith in
    rw ((check_arg_iff route arg).1 a.0)
      (check_args_complete route total' rest (omega arith) a.1 ∙ ap ok same)

gate_cases :
    (route : ResolvedRoute) (args : List Text)
    → (not route.request_args.enabled && not (is_empty args)) ≡ false
    → (route.request_args.enabled ≡ true) ⊎ (args ≡ [])
gate_cases route args h = ground arith

gate_open :
    (route : ResolvedRoute) (args : List Text)
    → (route.request_args.enabled ≡ true) ⊎ (args ≡ [])
    → (not route.request_args.enabled && not (is_empty args)) ≡ false
gate_open route args h = ground arith

within : (n limit : ℕ) → n ≤ limit → ltb limit n ≡ false
within n limit h = ground arith

-- Arguments are accepted exactly if they are allowed, for a limit on the total below 2^64 - 1: there
-- are none, or the route takes them, and no more than its number; each is free of NUL, no longer than
-- an item may be, and on the allowlist, if the route has one; and together they are within the total.
pub validate_request_args_iff :
    (route : ResolvedRoute) (args : List Text)
    → route.request_args.max_total_bytes < 2 ^ 64 - 1
    → (validate_request_args route args ≡ ok tt) ↔ IsAllowed route args
unfolding validate_request_args
validate_request_args_iff route args h = (to, from)
  where
    gate_closed : Bool
    gate_closed = not route.request_args.enabled && not (is_empty args)

    to : validate_request_args route args ≡ ok tt → IsAllowed route args
    to e =
        let (u1, gate, e1) = >>=-eq-ok (bail_if gate_closed not_enabled) _ e in
        let (u2, count, e2) =
          >>=-eq-ok (bail_if (ltb route.request_args.max_count (length args)) too_many) _ e1 in
        let (total, loop, e3) = >>=-eq-ok (check_args route 0 args) _ e2 in
        let (each, sum) = check_args_sound route 0 total args (omega arith) loop in
        record {
          enabled = gate_cases route args (bail_if-eq-ok gate_closed not_enabled gate);
          count = ground arith;
          each = each;
          total = ground arith;
        }

    from : IsAllowed route args → validate_request_args route args ≡ ok tt
    from a = rw (
      gate_open route args a.enabled,
      within (length args) route.request_args.max_count a.count,
      check_args_complete route 0 args (omega arith) a.each,
      within (min (2 ^ 64 - 1) (0 + total_bytes args)) route.request_args.max_total_bytes
          (omega (arith, a.total)),
    )
