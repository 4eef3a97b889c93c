-- ===== src/Config/Resolve/Routes.antt =====
-- src/config.rs, `Config::resolve`: the routes of the configuration.
use command_api.Prelude.{
  ◌≡◌, refl, Text, text_eq, text_keys, Bool, true, false, not, ◌||◌, List, [], ◌∷◌, map, ok,
  >>=-eq-ok, bail_if, bail_if-eq-ok, bail_if-not, ok_or, ok_or-eq-ok, eq_of_ok, Option, none, some,
  subst, ap, ok, map_err, map_err-eq-ok, any, is_empty, All, Distinct, apart, arith,
}
use command_api.Config.{WindowsServiceAccount, RouteConfig, ResolvedRoute, default_program}
use command_api.Config.Routes.{validate_route}
use command_api.Config.Routes.Laws.{IsValidRoute, validate_route-IsValidRoute}
use command_api.Config.Arguments.{has_allowlist}
use command_api.Config.Paths.{absolute_from, absolute_if_path_like, parent}
use command_api.Config.Resolve.{
  World, bad_route, unrestricted_local_system, duplicate_route, missing_script, script_not_a_file,
  missing_directory, not_a_directory, bad_pattern, is_local_system, resolved, is_unrestricted,
  directory_of, program_of, compile_patterns, resolve_route, resolve_routes,
}

-- Each pattern was compiled, in the order of the configuration.
abbrev pub Compiled : World → List Text → List (Text → Bool) → Type 0
Compiled w [] [] = Unit {0}
Compiled w (p ∷ ps) (m ∷ ms) = (w.regex p ≡ some m) × Compiled w ps ms
Compiled w _ _ = ⊥

module _ (w : World) (account : WindowsServiceAccount) (base : Text) where
  -- The resolved form of a route that is valid.
  pub record IsResolved (source : RouteConfig) (r : ResolvedRoute) : Type 0 where
    pub valid : IsValidRoute source
    pub path : r.path ≡ source.path
    pub executor : r.executor ≡ source.executor
    pub given_program :
        (p : Text) → source.program ≡ some p → r.program ≡ absolute_if_path_like base p
    pub no_program : source.program ≡ none → r.program ≡ default_program w.windows source.executor
    pub script_found : w.canonicalize (absolute_from base source.script) ≡ some r.script
    pub script : w.is_file r.script ≡ true
    pub fixed_args : r.fixed_args ≡ source.fixed_args
    pub request_args : r.request_args ≡ source.request_args
    pub patterns : Compiled w source.request_args.allowed_patterns r.request_arg_patterns
    pub given_directory :
        (d : Text)
        → source.working_directory ≡ some d
        → w.canonicalize (absolute_from base d) ≡ some r.working_directory
    pub no_directory :
        source.working_directory ≡ none
        → (d : Text) × (parent r.script ≡ some d) × (w.canonicalize d ≡ some r.working_directory)
    pub directory : w.is_dir r.working_directory ≡ true
    pub env : r.env ≡ source.env
    pub concurrency : r.max_concurrency ≡ source.max_concurrency
    pub execution_time : r.max_execution_seconds ≡ source.max_execution_seconds
    pub grace_period : r.graceful_shutdown_seconds ≡ source.graceful_shutdown_seconds
    pub merged : r.merge_stdout_stderr ≡ source.merge_stdout_stderr
    pub encoding : r.output_encoding ≡ source.output_encoding
    pub restricted :
        is_local_system account ≡ true → r.request_args.enabled ≡ true → has_allowlist r ≡ true

  compile_patterns-is_empty :
      (patterns : List Text) (compiled : List (Text → Bool))
      → compile_patterns w patterns ≡ ok compiled
      → is_empty compiled ≡ is_empty patterns
  unfolding compile_patterns
  compile_patterns-is_empty [] compiled e = ground arith
  compile_patterns-is_empty (p ∷ rest) compiled e =
      let (is_match, a, e1) = >>=-eq-ok (ok_or (w.regex p) bad_pattern) _ e in
      let (others, b, e2) = >>=-eq-ok (compile_patterns w rest) _ e1 in
      let same : is_match ∷ others ≡ compiled = cc in rw (← same) refl

  compile_patterns-Compiled :
      (patterns : List Text) (compiled : List (Text → Bool))
      → compile_patterns w patterns ≡ ok compiled
      → Compiled w patterns compiled
  unfolding compile_patterns
  compile_patterns-Compiled [] compiled e =
      let same : [] ≡ compiled = eq_of_ok e in subst (Compiled w []) same tt
  compile_patterns-Compiled (p ∷ rest) compiled e =
      let (is_match, a, e1) = >>=-eq-ok (ok_or (w.regex p) bad_pattern) _ e in
      let (others, b, e2) = >>=-eq-ok (compile_patterns w rest) _ e1 in
      subst (Compiled w (p ∷ rest)) (eq_of_ok e2)
        (ok_or-eq-ok _ _ a, compile_patterns-Compiled rest others b)

  -- The directory that a route runs in, before its links are followed.
  directory_of-found :
      (script d found : Text) (source : Option Text)
      → directory_of w base script source ≡ ok d
      → w.canonicalize d ≡ some found
      → ((x : Text) → source ≡ some x → w.canonicalize (absolute_from base x) ≡ some found)
        × (source ≡ none → (x : Text) × (parent script ≡ some x) × (w.canonicalize x ≡ some found))
  directory_of-found script d found none e f = ((λ x absent. cc), λ _. (d, ok_or-eq-ok _ _ e, f))
  directory_of-found script d found (some y) e f = ((λ x given. cc (eq_of_ok e)), λ absent. cc)

  resolve_route-IsResolved :
      (seen : Bool) (source : RouteConfig) (r : ResolvedRoute)
      → resolve_route w base account seen source ≡ ok r
      → IsResolved source r × (seen ≡ false)
  unfolding resolve_route is_unrestricted has_allowlist
  resolve_route-IsResolved seen source r e =
      let (u1, valid, e1) = >>=-eq-ok (map_err bad_route (validate_route source)) _ e in
      let (u2, restricted, e2) =
        >>=-eq-ok (bail_if (is_unrestricted w account source) unrestricted_local_system) _ e1 in
      let (u3, new, e3) = >>=-eq-ok (bail_if seen duplicate_route) _ e2 in
      let (script, a, e4) =
        >>=-eq-ok (ok_or (w.canonicalize (absolute_from base source.script)) missing_script) _ e3 in
      let (u4, file, e5) = >>=-eq-ok (bail_if (not (w.is_file script)) script_not_a_file) _ e4 in
      let (d, b, e6) = >>=-eq-ok (directory_of w base script source.working_directory) _ e5 in
      let (directory, c, e7) = >>=-eq-ok (ok_or (w.canonicalize d) missing_directory) _ e6 in
      let (u5, dir, e8) = >>=-eq-ok (bail_if (not (w.is_dir directory)) not_a_directory) _ e7 in
      let (compiled, f, e9) =
        >>=-eq-ok (compile_patterns w source.request_args.allowed_patterns) _ e8 in
      let listed : is_local_system account ≡ true
          → source.request_args.enabled ≡ true
          → (not (is_empty source.request_args.allowed_values) || not (is_empty compiled)) ≡ true =
        λ system enabled. ground (
          arith,
          bail_if-eq-ok _ _ restricted,
          compile_patterns-is_empty source.request_args.allowed_patterns compiled f,
        ) in
      let same : resolved w base source script directory compiled ≡ r = eq_of_ok e9 in
      let (given_directory, no_directory) =
        directory_of-found script d directory source.working_directory b (ok_or-eq-ok _ _ c) in
      rw (← same) (
        record {
          valid =
              validate_route-IsValidRoute source
                (map_err-eq-ok bad_route (validate_route source) valid);
          path = refl;
          executor = refl;
          given_program = λ p given. ap (program_of w base source) given;
          no_program = λ absent. ap (program_of w base source) absent;
          script_found = ok_or-eq-ok _ _ a;
          fixed_args = refl;
          request_args = refl;
          patterns = compile_patterns-Compiled source.request_args.allowed_patterns compiled f;
          given_directory = given_directory;
          no_directory = no_directory;
          env = refl;
          concurrency = refl;
          execution_time = refl;
          grace_period = refl;
          merged = refl;
          encoding = refl;
          script = bail_if-not _ _ file;
          directory = bail_if-not _ _ dir;
          restricted = listed;
        },
        bail_if-eq-ok _ _ new,
      )

  -- Each route of the configuration, in its resolved form.
  abbrev pub ResolvedAll : List RouteConfig → List ResolvedRoute → Type 0
  ResolvedAll [] [] = Unit {0}
  ResolvedAll (source ∷ sources) (r ∷ rs) = IsResolved source r × ResolvedAll sources rs
  ResolvedAll _ _ = ⊥

  pub resolve_routes-ResolvedAll :
      (known : List Text) (sources : List RouteConfig) (rs : List ResolvedRoute)
      → resolve_routes w base account known sources ≡ ok rs
      → ResolvedAll sources rs
        × Distinct (map (λ r. r.path) rs)
        × All (λ p. any (text_eq p) known ≡ false) (map (λ r. r.path) rs)
  unfolding resolve_routes
  resolve_routes-ResolvedAll known [] rs e = let same : [] ≡ rs = cc in rw (← same) (tt, tt, tt)
  resolve_routes-ResolvedAll known (source ∷ sources) rs e =
      let (r, a, e1) =
        >>=-eq-ok (resolve_route w base account (any (text_eq source.path) known) source) _ e in
      let (others, b, e2) =
        >>=-eq-ok (resolve_routes w base account (source.path ∷ known) sources) _ e1 in
      let (is, new) = resolve_route-IsResolved _ source r a in
      let (all, distinct, unseen) =
        resolve_routes-ResolvedAll (source.path ∷ known) sources others b in
      let (fresh, rest) = apart source.path known (map (λ q. q.path) others) unseen in
      let same : r ∷ others ≡ rs = cc in
      rw (← same, is.path) ((is, all), (fresh, distinct), (new, rest))
