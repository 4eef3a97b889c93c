-- ===== src/App/Http/Sound.antt =====
-- src/app.rs: what every request keeps.
use command_api.Prelude.{
  ℕ, ◌≤◌, ◌<◌, Text, Bool, ◌≡◌, refl, Option, none, some, length, Result, ok, err, nat_eq,
  text_keys, text_eq, Option-cases, Bool-cases, inl, inr, arith, ◌==◌,
}
use command_api.Model.{StopReason}
use command_api.Store.{TaskStore, TaskRecord}
use command_api.Store.Laws.{IsKeyed}
use command_api.App.{ApiError}
use command_api.App.Auth.{Gate, Rejection, authenticate}
use command_api.App.Auth.Laws.{authenticate-bounded}
use command_api.App.Execute.{AppState, execute}
use command_api.App.Handlers.{
  ManagementAction, stop_task, request_management_action, restart_service,
}
use command_api.App.Router.{Endpoint, Dispatch, found, method_not_allowed, fallback}
use command_api.App.Http.{
  HttpRequest, Response, failed, accepted_message, Message, Service, Moment, Setup, after_execute,
  without_record, handle_execute, handle_stop_task, handle_action, handle, respond, body_limit,
  limited, after_auth, serve,
}
use command_api.App.Http.Keyed.{execute-IsKeyed, stop_task-IsKeyed}

-- Of a service that serves: each task stands once, of the requests to stop or restart at most one is
-- pending, and then the service no longer takes another; and the refused addresses stay within their
-- limit.
pub record IsSound (u : Setup) (s : Service) : Type 0 where
  pub keyed : IsKeyed s.app.store.tasks
  pub one_action : length s.actions ≤ 1
  pub free : s.lifecycle_state ≡ 0 → length s.actions ≡ 0
  pub bounded : length s.gate.auth_failures ≤ u.access.token_failure_cooldown.max_tracked_ips

module _ (u : Setup) where
  after_execute-IsSound :
      (s : Service) (id : ℕ) (result : Result ApiError (TaskRecord × AppState))
      → ((r : TaskRecord) (app : AppState) → result ≡ ok (r, app) → IsKeyed app.store.tasks)
      → IsSound u s
      → IsSound u (after_execute u s id (without_record result)).1
  after_execute-IsSound s id (ok (r, app)) h sound = record {
    keyed = h r app refl;
    one_action = sound.one_action;
    free = sound.free;
    bounded = sound.bounded;
  }
  after_execute-IsSound s id (err e) h sound = sound

  handle_execute-IsSound :
      (s : Service) (path : Text) (req : HttpRequest) (m : Moment)
      → IsSound u s
      → IsSound u (handle_execute u s path req m).1
  handle_execute-IsSound s path req m sound = elim (Option-cases req.body) [
    | inl n ↦ rw n sound
    | inr (body, f) ↦ rw f (
        after_execute-IsSound s m.id
          (execute u.to_vec s.app path body.args m.id m.now_text m.made m.write)
          (λ r app e.
            execute-IsKeyed u.to_vec s.app app path body.args m.id m.now_text m.made m.write r
              sound.keyed e)
          sound)
  ]

  -- A pending action is taken only in the first state of the service.
  handle_action-IsSound :
      (s : Service) (done : Message) (sent : Bool) (action : ManagementAction)
      → IsSound u s
      → IsSound u
          (handle_action u s done (request_management_action sent s.lifecycle_state action)).1
  unfolding request_management_action
  handle_action-IsSound s done sent action sound = elim (Bool-cases (s.lifecycle_state == 0)) [
    | inr busy ↦ rw busy sound
    | inl idle ↦ elim (Bool-cases sent) [
      | inl took ↦
          rw (idle, took)
            (record {
              keyed = sound.keyed;
              one_action = ground (arith, sound.free);
              free = λ k. cc;
              bounded = sound.bounded;
            })
      | inr lost ↦
          rw (idle, lost)
            (record {
              keyed = sound.keyed;
              one_action = sound.one_action;
              free = λ k. ground (arith, sound.free);
              bounded = sound.bounded;
            })
    ]
  ]

  handle_stop_task-IsSound :
      (s : Service) (reason : StopReason) (done : Message) (req : HttpRequest)
      → IsSound u s
      → IsSound u (handle_stop_task u s reason done req).1
  handle_stop_task-IsSound s reason done req sound = elim (Option-cases req.task_id) [
    | inl n ↦ rw n sound
    | inr (id, f) ↦ rw f (by_result id (stop_task reason s.app.store id) refl)
  ]
    where
      by_result :
          (id : ℕ) (x : Result ApiError TaskStore)
          → stop_task reason s.app.store id ≡ x
          → IsSound u
              (elim x as (λ y. Response × Service) [
                | err e ↦ (failed e, s)
                | ok store ↦
                    (accepted_message done, record s { app = record (s.app) { store = store } })
              ]).1
      by_result id (err e) same = sound
      by_result id (ok store) same = record {
        keyed = stop_task-IsKeyed reason s.app.store store id sound.keyed same;
        one_action = sound.one_action;
        free = sound.free;
        bounded = sound.bounded;
      }

  handle_restart-IsSound :
      (s : Service) (done : Message) (loaded : Option Text) (sent : Bool)
      → IsSound u s
      → IsSound u
          (handle_action u s done
            (restart_service u.logging_directory loaded sent s.lifecycle_state)).1
  unfolding restart_service
  handle_restart-IsSound s done none sent sound = sound
  handle_restart-IsSound s done (some directory) sent sound =
      elim (Bool-cases (text_eq directory u.logging_directory)) [
        | inl same ↦ rw same (handle_action-IsSound s done sent ManagementAction.restart sound)
        | inr other ↦ rw other sound
      ]

  handle-IsSound :
      (s : Service) (req : HttpRequest) (m : Moment) (e : Endpoint)
      → IsSound u s
      → IsSound u (handle u s req m e).1
  unfolding handle
  handle-IsSound s req m Endpoint.index sound = sound
  handle-IsSound s req m Endpoint.healthz sound = sound
  handle-IsSound s req m Endpoint.get_task sound = sound
  handle-IsSound s req m Endpoint.get_output sound = sound
  handle-IsSound s req m Endpoint.cancel_task sound = handle_stop_task-IsSound s _ _ req sound
  handle-IsSound s req m Endpoint.kill_task sound = handle_stop_task-IsSound s _ _ req sound
  handle-IsSound s req m Endpoint.stop_service sound =
      handle_action-IsSound s _ m.sent ManagementAction.stop sound
  handle-IsSound s req m Endpoint.restart_service sound =
      handle_restart-IsSound s _ m.loaded m.sent sound
  handle-IsSound s req m (Endpoint.execute path) sound = handle_execute-IsSound s path req m sound

  respond-IsSound :
      (s : Service) (req : HttpRequest) (m : Moment) (d : Dispatch)
      → IsSound u s
      → IsSound u (respond u s req m d).1
  unfolding respond
  respond-IsSound s req m (found e) sound = handle-IsSound s req m e sound
  respond-IsSound s req m method_not_allowed sound = sound
  respond-IsSound s req m fallback sound = sound

  limited-IsSound :
      (s : Service) (req : HttpRequest) (m : Moment) → IsSound u s → IsSound u (limited u s req m).1
  limited-IsSound s req m sound = elim (Bool-cases (req.exceeds body_limit)) [
    | inl over ↦ rw over sound
    | inr within ↦ rw within (respond-IsSound s req m _ sound)
  ]

  after_auth-IsSound :
      (s : Service) (req : HttpRequest) (m : Moment) (a : Option Rejection × Gate)
      → length a.1.auth_failures ≤ u.access.token_failure_cooldown.max_tracked_ips
      → IsSound u s
      → IsSound u (after_auth u s req m a).1
  after_auth-IsSound s req m (some r, gate) bounded sound = record {
    keyed = sound.keyed;
    one_action = sound.one_action;
    free = sound.free;
    bounded = bounded;
  }
  after_auth-IsSound s req m (none, gate) bounded sound =
      limited-IsSound (record s { gate = gate }) req m
        (record {
          keyed = sound.keyed;
          one_action = sound.one_action;
          free = sound.free;
          bounded = bounded;
        })

  pub serve-IsSound :
      (s : Service) (req : HttpRequest) (m : Moment)
      → 0 < u.access.token_failure_cooldown.max_tracked_ips
      → IsSound u s
      → IsSound u (serve u s req m).1
  unfolding serve
  serve-IsSound s req m positive sound =
      after_auth-IsSound s req m
        (authenticate u.digest u.phc_accepts u.access m.now m.later s.gate req.auth)
        (authenticate-bounded u.digest u.phc_accepts u.access m.now m.later s.gate req.auth positive
          sound.bounded)
        sound
