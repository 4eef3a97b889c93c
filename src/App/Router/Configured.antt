-- ===== src/App/Router/Configured.antt =====
-- src/app.rs, `build`: what a service that has just started does with requests for its routes.
use command_api.Prelude.{
  Text, text_eq, starts_with, Bool, true, ◌≡◌, List, [], ◌∷◌, ◌++◌, All, All-middle, ok,
}
use command_api.Config.{Config, ResolvedRoute}
use command_api.Config.Arguments.{validate_request_args}
use command_api.Config.Resolve.{World, ResolvedConfig, resolve}
use command_api.Store.{TaskStore}
use command_api.App.Execute.{AppState, collect_routes, build, admit}
use command_api.App.Execute.Table.{runtime, configured-ready, configured-admit, collect_routes-keys}
use command_api.App.Router.{post, execute, router, found, dispatch, is_literal, literal_prefix}
use command_api.App.Router.Laws.{dispatch-router}

-- A service that has just started with a configuration that was accepted, whatever its store, serves
-- each of its routes, if no path has a character of a pattern, where a pattern without captures
-- matches itself only and a pattern with captures only what starts with its literal prefix: a POST
-- request for the path reaches `execute` for this path, no endpoint of the service and no other route,
-- and is admitted with any arguments that the route allows.
pub configured-execute :
    (matches : (pattern_text path : Text) → Bool) (w : World) (source_path : Text) (config : Config)
    (r : ResolvedConfig) (store : TaskStore) (earlier later : List ResolvedRoute)
    (route : ResolvedRoute) (args : List Text)
    → ((p x : Text) → is_literal p ≡ true → matches p x ≡ text_eq p x)
    → ((p x : Text) → matches p x ≡ true → starts_with (literal_prefix p) x ≡ true)
    → resolve w source_path config ≡ ok r
    → All (λ q. is_literal q.path ≡ true) r.routes
    → r.routes ≡ earlier ++ route ∷ later
    → validate_request_args route args ≡ ok tt
    → (dispatch matches
          (router (build r.execution.max_total_concurrency r.routes store).routes)
          post
          route.path
        ≡ found (execute route.path))
      × (a : AppState) × (admit
            (build r.execution.max_total_concurrency r.routes store)
            route.path
            args
          ≡ ok a)
unfolding build
configured-execute matches w source_path config r store earlier later route args literal prefix e l
      at_route valid =
    let (in_table, positive, free) =
      All-middle _ earlier route later
        (rw at_route at (configured-ready w source_path config r e)) in
    let (a, admitted) =
      configured-admit w source_path config r store earlier later route args e at_route valid in
    (
      dispatch-router matches literal prefix (collect_routes [] r.routes) route.path (runtime route)
          (collect_routes-keys (λ p. is_literal p ≡ true) [] r.routes tt l) free
          (rw at_route in_table),
      a,
      admitted,
    )
