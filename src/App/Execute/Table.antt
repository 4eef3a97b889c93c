-- ===== src/App/Execute/Table.antt =====
-- src/app.rs, `build`: the table of routes.
use command_api.Prelude.{
  Bool, true, false, if◌then◌else◌, remove, ℕ, zero, suc, ◌-◌, ◌<◌, All-zip, All-middle, ◌++◌, ok,
  ◌≡◌, refl, ap, ◌∙◌, Text, text_eq, text_eq_iff, text_keys, false, some, List, [], ◌∷◌, map, any,
  All, Distinct, lookup, insert, lookup-insert, arith,
}
use command_api.Config.{Config, RouteConfig, ResolvedRoute, WindowsServiceAccount}
use command_api.Config.Routes.{is_reserved}
use command_api.Config.Arguments.{validate_request_args}
use command_api.Config.Resolve.{World, ResolvedConfig, resolve}
use command_api.Config.Resolve.Routes.{ResolvedAll}
use command_api.Config.Resolve.Laws.{resolve-IsResolvedConfig}
use command_api.Store.{TaskStore}
use command_api.App.Execute.{RouteRuntime, AppState, collect_routes, build, admit, try_acquire}

abbrev pub runtime : ResolvedRoute → RouteRuntime
runtime route = record { config = route; limit = route.max_concurrency }

-- A path that no later route has keeps its entry.
lookup-collect_routes :
    (routes : List ResolvedRoute) (table : List (Text × RouteRuntime)) (path : Text)
    → any (text_eq path) (map (λ r. r.path) routes) ≡ false
    → lookup path (collect_routes table routes) ≡ lookup path table
unfolding collect_routes
lookup-collect_routes [] table path h = refl
lookup-collect_routes (route ∷ rest) table path h =
    let other : text_eq route.path path ≡ false =
      ground (arith, text_eq_iff route.path path, text_eq_iff path route.path) in
    lookup-collect_routes rest (insert route.path (runtime route) table) path (ground arith)
    ∙ lookup-insert route.path path (runtime route) table
    ∙ rw other refl

pub collect_routes-found :
    (routes : List ResolvedRoute) (table : List (Text × RouteRuntime))
    → Distinct (map (λ r. r.path) routes)
    → All (λ r. lookup r.path (collect_routes table routes) ≡ some (runtime r)) routes
unfolding collect_routes
collect_routes-found [] table d = tt
collect_routes-found (route ∷ rest) table (new, d) = (
  lookup-collect_routes rest (insert route.path (runtime route) table) route.path new
      ∙ lookup-insert route.path route.path (runtime route) table
      ∙ rw ((text_eq_iff route.path route.path).1 refl) refl,
  collect_routes-found rest (insert route.path (runtime route) table) d,
)

try_acquire-positive : (n : ℕ) → 0 < n → try_acquire n ≡ some (n - 1)
try_acquire-positive zero h = absurd (omega arith)
try_acquire-positive (suc n) h = ap some (omega arith)

admit_free :
    (s : AppState) (path : Text) (args : List Text) (route : RouteRuntime)
    → lookup path s.routes ≡ some route
    → 0 < s.global_limit
    → 0 < route.limit
    → validate_request_args route.config args ≡ ok tt
    → (a : AppState) × (admit s path args ≡ ok a)
unfolding admit
admit_free s path args route found g l valid = (
  record s {
    global_limit = s.global_limit - 1;
    routes = insert path (record route { limit = route.limit - 1 }) s.routes;
  },
  rw (found, valid, try_acquire-positive s.global_limit g, try_acquire-positive route.limit l) refl,
)

ResolvedAll-ready :
    (w : World) (account : WindowsServiceAccount) (base : Text) (sources : List RouteConfig)
    (rs : List ResolvedRoute)
    → ResolvedAll w account base sources rs
    → All (λ r. (0 < r.max_concurrency) × (is_reserved r.path ≡ false)) rs
ResolvedAll-ready w account base [] [] h = tt
ResolvedAll-ready w account base (source ∷ sources) (r ∷ rs) (is, h) = (
  (rw is.concurrency is.valid.concurrency, rw is.path is.valid.unreserved),
  ResolvedAll-ready w account base sources rs h,
)
ResolvedAll-ready w account base [] (r ∷ rs) h = elim h [ ]
ResolvedAll-ready w account base (source ∷ sources) [] h = elim h [ ]

-- Each configured route is in the table, with a free permit, under a path of its own.
pub configured-ready :
    (w : World) (source_path : Text) (config : Config) (r : ResolvedConfig)
    → resolve w source_path config ≡ ok r
    → All
        (λ route.
          (lookup route.path (collect_routes [] r.routes) ≡ some (runtime route))
          × (0 < route.max_concurrency)
          × (is_reserved route.path ≡ false))
        r.routes
configured-ready w source_path config r e =
    let c = resolve-IsResolvedConfig w source_path config r e in
    All-zip r.routes (λ route found (positive, free). (found, positive, free))
      (collect_routes-found r.routes [] c.paths)
      (ResolvedAll-ready w config.windows_service.account c.base config.routes r.routes c.routes)

-- The keys of the table are paths of routes.
remove-keys :
    (P : Text → Type 0) (path : Text) (table : List (Text × RouteRuntime))
    → All (λ r. P r.0) table
    → All (λ r. P r.0) (remove path table)
unfolding remove
remove-keys P path [] h = tt
remove-keys P path ((key, r) ∷ rest) (here, h) =
    unless_same (text_eq key path) (remove path rest) (remove-keys P path rest h)
  where
    unless_same :
        (same : Bool) (left : List (Text × RouteRuntime))
        → All (λ r. P r.0) left
        → All (λ r. P r.0) (if same then left else (key, r) ∷ left)
    unless_same true left k = k
    unless_same false left k = (here, k)

pub collect_routes-keys :
    (P : Text → Type 0) (table : List (Text × RouteRuntime)) (routes : List ResolvedRoute)
    → All (λ r. P r.0) table
    → All (λ r. P r.path) routes
    → All (λ r. P r.0) (collect_routes table routes)
unfolding collect_routes insert
collect_routes-keys P table [] h l = h
collect_routes-keys P table (route ∷ rest) h (here, l) =
    collect_routes-keys P (insert route.path (runtime route) table) rest
      (here, remove-keys P route.path table h) l

-- A service that has just started with a configuration that was accepted, whatever its store, admits
-- a request for any of the configured routes, with any arguments that the route allows.
pub configured-admit :
    (w : World) (source_path : Text) (config : Config) (r : ResolvedConfig) (store : TaskStore)
    (earlier later : List ResolvedRoute) (route : ResolvedRoute) (args : List Text)
    → resolve w source_path config ≡ ok r
    → r.routes ≡ earlier ++ route ∷ later
    → validate_request_args route args ≡ ok tt
    → (a : AppState) × (admit
          (build r.execution.max_total_concurrency r.routes store)
          route.path
          args
        ≡ ok a)
unfolding build
configured-admit w source_path config r store earlier later route args e at_route valid =
    let c = resolve-IsResolvedConfig w source_path config r e in
    let (found, positive, free) =
      All-middle _ earlier route later
        (rw at_route at (configured-ready w source_path config r e)) in
    admit_free (build r.execution.max_total_concurrency r.routes store) route.path args
      (runtime route) (rw at_route found) c.concurrency positive valid
