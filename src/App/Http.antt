-- ===== src/App/Http.antt =====
-- src/app.rs: a request from its arrival to its answer, by `authenticate`, the router and the handlers.
-- src/model.rs: the bodies of the answers. What the extractors of axum make of a path, a query and a
-- body is a part of the request.
pub mod Laws
pub mod Promise
pub mod Links
pub mod Keyed
pub mod Sound
pub mod Trace
use command_api.Prelude.{
  ◌*◌, if◌then◌else◌, ℕ, Text, bytes, ◌++◌, Bool, true, false, Option, none, some, List, [], ◌∷◌,
  Result, ok, err, String,
}
use command_api.Config.{AccessConfig, OutputEncoding}
use command_api.Model.{
  TaskStatus, starting, TaskView, OutputChunk, OutputStream, StopReason, Parse, TaskSnapshot,
  unwrap_or, cancelled, force_killed,
}
use command_api.Store.{Write}
use command_api.App.{ApiError}
use command_api.App.Auth.{Request, Gate, Rejection, authenticate}
use command_api.App.Execute.{AppState, execute, not_found}
use command_api.App.Handlers.{
  ManagementAction, get_task, get_output, stop_task, stop_service, restart_service,
}
use command_api.App.Router.{
  Method, Endpoint, Dispatch, found, method_not_allowed, fallback, router, dispatch,
}
use command_api.App.Router

-- `ExecuteRequest`
pub record ExecuteRequest : Type 0 where
  pub args : List Text

pub record OutputQuery : Type 0 where
  pub stream : OutputStream
  pub offset : ℕ
  pub limit : ℕ

abbrev pub default_output_limit : ℕ
default_output_limit = 64 * 1024

-- What serde makes of the parameters of a query; a query without `stream` is refused.
unfoldable pub read_query : Option OutputStream → (offset limit : Option ℕ) → Option OutputQuery
read_query none offset limit = none
read_query (some stream) offset limit = some (record {
  stream = stream;
  offset = unwrap_or 0 offset;
  limit = unwrap_or default_output_limit limit;
})

pub record AcceptedTask : Type 0 where
  pub success : Bool
  pub task_id : ℕ
  pub status : TaskStatus
  pub status_url : Text

-- The texts of `MessageData`.
pub data Message : Type 0 where
  healthy cancel_requested kill_requested stop_accepted restart_accepted : Message

pub record IndexData : Type 0 where
  pub name : String
  pub description : String
  pub repository : String

unfoldable pub index : IndexData
index = record {
  name = "command-api";
  description = "通过受控 HTTP API 异步执行预配置脚本";
  repository = "https://github.com/loveyu/command-api";
}

-- An extractor that fails gives `none`; `exceeds` is the test of `RequestBodyLimitLayer`.
pub record HttpRequest : Type 0 where
  pub auth : Request
  pub method : Method
  pub path : Text
  pub task_id : Option ℕ
  pub query : Option OutputQuery
  pub body : Option ExecuteRequest
  pub exceeds : (limit : ℕ) → Bool

pub data Response : Type 0 where
  rejected : Rejection → Response
  failed : ApiError → Response
  -- Of axum and tower: an extractor that failed, a path that has no such method, and a body that is
  -- too large.
  extractor_failed : Response
  no_such_method : Response
  too_large : Response
  index_page : IndexData → Response
  task : TaskView → Response
  output : OutputChunk → Response
  message : Message → Response
  accepted : AcceptedTask → Response
  accepted_message : Message → Response

-- The answers with 202, and all others.
unfoldable pub is_accepted : Response → Bool
is_accepted (accepted t) = true
is_accepted (accepted_message m) = true
is_accepted _ = false

pub record Service : Type 0 where
  pub gate : Gate
  pub app : AppState
  pub lifecycle_state : ℕ
  pub actions : List ManagementAction

-- What a request meets: the clock of `authenticate`, the time of `elapsed_ms`, and what `execute` and
-- the management of the service are answered.
pub record Moment : Type 0 where
  pub now : ℕ
  pub later : ℕ
  pub wall_clock : ℕ
  pub id : ℕ
  pub now_text : Text
  pub made : Bool
  pub write : Write
  pub sent : Bool
  pub loaded : Option Text

-- What the service is built with.
pub record Setup : Type 0 where
  pub matches : (pattern_text path : Text) → Bool
  pub digest : Text → Text
  pub phc_accepts : (phc token : Text) → Bool
  pub access : AccessConfig
  pub logging_directory : Text
  pub to_vec : TaskSnapshot → Text
  pub parse : Parse
  pub show_id : ℕ → Text
  pub decode : OutputEncoding → Text → Text × Bool
  pub base64 : Text → Text

abbrev pub body_limit : ℕ
body_limit = 64 * 1024

abbrev pub or_failed {ℓ} : {A : Type ℓ} → (A → Response) → Result ApiError A → Response
or_failed f (ok a) = f a
or_failed f (err e) = failed e

abbrev pub without_record {ℓ} :
    {A : Type ℓ} → Result ApiError (A × AppState) → Result ApiError AppState
without_record (ok (r, app)) = ok app
without_record (err e) = err e

module _ (u : Setup) where
  unfoldable pub accepted_task : (id : ℕ) → AcceptedTask
  accepted_task id = record {
    success = true;
    task_id = id;
    status = starting;
    status_url = bytes "/tasks/" ++ u.show_id id;
  }

  abbrev pub after_execute : Service → (id : ℕ) → Result ApiError AppState → Response × Service
  after_execute s id (ok app) = (accepted (accepted_task id), record s { app = app })
  after_execute s id (err e) = (failed e, s)

  abbrev pub handle_execute : Service → (path : Text) → HttpRequest → Moment → Response × Service
  handle_execute s path req m = elim req.body [
    | none ↦ (extractor_failed, s)
    | some body ↦
        after_execute s m.id
          (without_record (execute u.to_vec s.app path body.args m.id m.now_text m.made m.write))
  ]

  abbrev pub handle_get_task : Service → HttpRequest → Moment → Response
  handle_get_task s req m = elim req.task_id [
    | none ↦ extractor_failed
    | some task_id ↦ or_failed task (get_task u.parse u.show_id m.wall_clock s.app.store task_id)
  ]

  abbrev pub handle_get_output : Service → Option ℕ → Option OutputQuery → Response
  handle_get_output s none query = extractor_failed
  handle_get_output s (some task_id) none = extractor_failed
  handle_get_output s (some task_id) (some query) =
      or_failed output
        (get_output u.decode u.base64 s.app.store task_id query.stream query.offset query.limit)

  abbrev pub handle_stop_task : Service → StopReason → Message → HttpRequest → Response × Service
  handle_stop_task s reason done req = elim req.task_id [
    | none ↦ (extractor_failed, s)
    | some task_id ↦ elim (stop_task reason s.app.store task_id) [
      | err e ↦ (failed e, s)
      | ok store ↦ (accepted_message done, record s { app = record (s.app) { store = store } })
    ]
  ]

  -- The channel holds what has been sent and not been received.
  abbrev pub handle_action :
      Service → Message → Result ApiError ManagementAction × ℕ → Response × Service
  handle_action s done (err e, state) = (failed e, record s { lifecycle_state = state })
  handle_action s done (ok action, state) =
      (accepted_message done, record s { lifecycle_state = state; actions = action ∷ s.actions })

  unfoldable pub handle : Service → HttpRequest → Moment → Endpoint → Response × Service
  unfolding index accepted_task execute get_task get_output stop_task restart_service
  handle s req m Endpoint.index = (index_page index, s)
  handle s req m Endpoint.healthz = (message healthy, s)
  handle s req m Endpoint.get_task = (handle_get_task s req m, s)
  handle s req m Endpoint.get_output = (handle_get_output s req.task_id req.query, s)
  handle s req m Endpoint.cancel_task = handle_stop_task s cancelled cancel_requested req
  handle s req m Endpoint.kill_task = handle_stop_task s force_killed kill_requested req
  handle s req m Endpoint.stop_service =
      handle_action s stop_accepted (stop_service m.sent s.lifecycle_state)
  handle s req m Endpoint.restart_service =
      handle_action s restart_accepted
        (restart_service u.logging_directory m.loaded m.sent s.lifecycle_state)
  handle s req m (Endpoint.execute path) = handle_execute s path req m

  unfoldable pub respond : Service → HttpRequest → Moment → Dispatch → Response × Service
  unfolding handle
  respond s req m (found endpoint) = handle s req m endpoint
  respond s req m method_not_allowed = (no_such_method, s)
  respond s req m fallback = (failed not_found, s)

  -- `RequestBodyLimitLayer`, and what is behind it.
  abbrev pub limited : Service → HttpRequest → Moment → Response × Service
  limited s req m =
      if req.exceeds body_limit
      then (too_large, s)
      else respond s req m (dispatch u.matches (router s.app.routes) req.method req.path)

  abbrev pub after_auth :
      Service → HttpRequest → Moment → Option Rejection × Gate → Response × Service
  after_auth s req m (some r, gate) = (rejected r, record s { gate = gate })
  after_auth s req m (none, gate) = limited (record s { gate = gate }) req m

  unfoldable pub serve : Service → HttpRequest → Moment → Response × Service
  unfolding authenticate respond dispatch router
  serve s req m =
      after_auth s req m
        (authenticate u.digest u.phc_accepts u.access m.now m.later s.gate req.auth)

  -- Requests that come one after the other.
  unfoldable pub serve_all : List (HttpRequest × Moment) → Service → List Response × Service
  unfolding serve
  serve_all [] s = ([], s)
  serve_all ((req, m) ∷ rest) s =
      let (answer, t) = serve s req m in
      let (answers, end) = serve_all rest t in (answer ∷ answers, end)
