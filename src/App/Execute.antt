-- ===== src/App/Execute.antt =====
-- src/app.rs, `AppState`, `build` and `execute`: the start of a task within the concurrency limits.
-- A semaphore is the number of its free permits. The router hands `execute` the route of a path; a
-- path without one goes to `fallback`.
pub mod Permits
pub mod Acquire
pub mod Balance
pub mod Table
use command_api.Prelude.{
  ℕ, zero, suc, ◌+◌, Text, text_keys, Bool, true, false, Option, none, some, List, [], ◌∷◌, Result,
  ok, err, ◌>>=◌, ◌>>◌, ok_or, map_err, lookup, insert,
}
use command_api.Config.{ResolvedRoute}
use command_api.Config.Arguments.{validate_request_args}
use command_api.Model.{TaskSnapshot, OutputMode, separate}
use command_api.Store.{TaskStore, TaskRecord, Write, create}
use command_api.App.{ApiError}

pub record RouteRuntime : Type 0 where
  pub config : ResolvedRoute
  pub limit : ℕ

-- What the handlers share.
pub record AppState : Type 0 where
  pub global_limit : ℕ
  pub routes : List (Text × RouteRuntime)
  pub store : TaskStore

-- The table of routes: of several routes with one path the last is kept.
unfoldable pub collect_routes :
    List (Text × RouteRuntime) → List ResolvedRoute → List (Text × RouteRuntime)
unfolding insert
collect_routes table [] = table
collect_routes table (route ∷ rest) =
    collect_routes
      (insert route.path (record { config = route; limit = route.max_concurrency }) table) rest

-- `build`, for the two values of the configuration that it reads here.
unfoldable pub build : (max_total_concurrency : ℕ) → List ResolvedRoute → TaskStore → AppState
unfolding collect_routes
build max_total_concurrency routes store = record {
  global_limit = max_total_concurrency;
  routes = collect_routes [] routes;
  store = store;
}

-- `fallback`
abbrev pub not_found : ApiError
not_found = record { status = 404; code = "not_found" }

abbrev pub invalid_arguments : ApiError
invalid_arguments = record { status = 400; code = "invalid_arguments" }

abbrev pub global_concurrency_limit : ApiError
global_concurrency_limit = record { status = 429; code = "global_concurrency_limit" }

abbrev pub route_concurrency_limit : ApiError
route_concurrency_limit = record { status = 429; code = "route_concurrency_limit" }

abbrev pub task_create_failed : ApiError
task_create_failed = record { status = 500; code = "task_create_failed" }

-- `try_acquire_owned`: the permits that are left.
abbrev pub try_acquire : ℕ → Option ℕ
try_acquire zero = none
try_acquire (suc n) = some n

abbrev pub mode_of : (merge_stdout_stderr : Bool) → OutputMode
mode_of true = OutputMode.combined
mode_of false = separate

-- `execute` up to the call of `create`: both permits are held. An error drops the permit that was
-- taken, so that it leaves the state as it was.
unfoldable pub admit : AppState → Text → List Text → Result ApiError AppState
unfolding lookup insert
admit s path args = do
  route ← ok_or (lookup path s.routes) not_found
  map_err (λ e. invalid_arguments) (validate_request_args route.config args)
  global ← ok_or (try_acquire s.global_limit) global_concurrency_limit
  limit ← ok_or (try_acquire route.limit) route_concurrency_limit
  ok (record s {
    global_limit = global;
    routes = insert path (record { config = route.config; limit = limit }) s.routes;
  })

-- The drop of the permits of a task, or of a request whose task could not be created.
abbrev pub give_route : Text → Option RouteRuntime → AppState → AppState
give_route path none s = s
give_route path (some route) s = record s {
  routes = insert path (record { config = route.config; limit = route.limit + 1 }) s.routes;
}

unfoldable pub give_back : Text → AppState → AppState
unfolding lookup insert
give_back path s =
    give_route path (lookup path s.routes) (record s { global_limit = s.global_limit + 1 })

module _ (to_vec : TaskSnapshot → Text) where
  -- The rest of `execute`, up to `start_task`; the arguments are those of `create`.
  unfoldable pub create_task :
      AppState
      → (path : Text) → (id : ℕ) → (now : Text) → (made : Bool) → Write
      → Result ApiError (TaskRecord × AppState)
  unfolding lookup
  create_task s path id now made w = do
    route ← ok_or (lookup path s.routes) not_found
    (r, store) ←
        map_err (λ e. task_create_failed)
          (create to_vec s.store id now made w route.config.path
            (mode_of route.config.merge_stdout_stderr) route.config.output_encoding)
    ok (r, record s { store = store })

  -- `execute`, with the record of the task that it starts.
  unfoldable pub execute :
      AppState
      → (path : Text) → List Text
      → (id : ℕ) → (now : Text) → (made : Bool) → Write
      → Result ApiError (TaskRecord × AppState)
  unfolding admit create_task
  execute s path args id now made w = do
    admitted ← admit s path args
    create_task admitted path id now made w
