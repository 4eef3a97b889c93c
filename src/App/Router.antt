-- ===== src/App/Router.antt =====
-- src/app.rs, the router of `build`. Which paths a pattern matches is up to the crate `axum`; a request
-- that no pattern matches goes to `fallback`, and one with another method is refused.
pub mod Laws
pub mod Configured
use command_api.Prelude.{
  Text, bytes, Bool, true, false, ◌||◌, not, contains, List, [], ◌∷◌, ◌++◌, map, if◌then◌else◌,
  ◌==◌,
}
use command_api.App.Execute.{RouteRuntime}

pub data Method : Type 0 where
  get post head other_method : Method

pub data Endpoint : Type 0 where
  index healthz get_task get_output cancel_task kill_task stop_service restart_service : Endpoint
  execute : (path : Text) → Endpoint

pub record Entry : Type 0 where
  pub pattern_text : Text
  pub method : Method
  pub endpoint : Endpoint

abbrev pub entry : Text → Method → Endpoint → Entry
entry pattern_text method endpoint = record {
  pattern_text = pattern_text;
  method = method;
  endpoint = endpoint;
}

abbrev pub endpoints : List Entry
endpoints =
    entry (bytes "/") get index
    ∷ entry (bytes "/healthz") get healthz
    ∷ entry (bytes "/tasks/{task_id}") get get_task
    ∷ entry (bytes "/tasks/{task_id}/output") get get_output
    ∷ entry (bytes "/tasks/{task_id}/cancel") post cancel_task
    ∷ entry (bytes "/tasks/{task_id}/kill") post kill_task
    ∷ entry (bytes "/system/stop") post stop_service
    ∷ entry (bytes "/system/restart") post restart_service
    ∷ []

abbrev pub execute_entry : Text × RouteRuntime → Entry
execute_entry (path, route) = entry path post (execute path)

unfoldable pub router : List (Text × RouteRuntime) → List Entry
router routes = endpoints ++ map execute_entry routes

pub data Dispatch : Type 0 where
  found : Endpoint → Dispatch
  method_not_allowed fallback : Dispatch

-- `get` of axum serves HEAD, too.
abbrev pub same_method : Method → Method → Bool
same_method get get = true
same_method get head = true
same_method post post = true
same_method _ _ = false

unfoldable pub dispatch :
    (matches : (pattern_text path : Text) → Bool) → List Entry → Method → (path : Text) → Dispatch
dispatch matches [] method path = fallback
dispatch matches (e ∷ rest) method path =
    let others = dispatch matches rest method path in
    if matches e.pattern_text path
    then (if same_method e.method method then found e.endpoint else method_not_allowed)
    else others

-- A path that is no pattern to `axum`.
abbrev pub is_literal : Text → Bool
is_literal path =
    not (contains b'{' path || contains b'}' path || contains b':' path || contains b'*' path)

-- What stands before the first capture.
unfoldable pub literal_prefix : Text → Text
literal_prefix [] = []
literal_prefix (c ∷ s) = let rest = literal_prefix s in if c == b'{' then [] else c ∷ rest
