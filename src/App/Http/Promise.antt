-- ===== src/App/Http/Promise.antt =====
-- src/app.rs: a task that is accepted stands in the store.
use command_api.Prelude.{
  ℕ, Text, bytes, Bool, true, false, ◌≡◌, refl, ◌∙◌, Option, none, some, List, ◌++◌, Result, ok,
  err, >>=-eq-ok, ok_or, map_err, map_err-eq-ok, lookup-insert, nat_eq, text_keys, subst,
  Option-cases, Bool-cases, inl, inr, arith, lookup,
}
use command_api.Model.{TaskSnapshot, TaskStatus, OutputMode, starting, StopReason}
use command_api.Config.{OutputEncoding}
use command_api.Store.{
  TaskStore, StoreError, TaskRecord, Write, whole, torn, get, put, create, persist, new_record,
}
use command_api.App.{ApiError}
use command_api.App.Auth.{Gate, Rejection}
use command_api.App.Execute.{
  AppState, create_task, execute, not_found, task_create_failed, mode_of, admit,
}
use command_api.App.Handlers.{ManagementAction}
use command_api.App.Router.{Endpoint, Dispatch, found, method_not_allowed, fallback}
use command_api.App.Http.{
  HttpRequest, Response, accepted, accepted_task, Service, Moment, Setup, after_execute,
  without_record, handle_execute, handle_stop_task, handle_action, handle, body_limit, limited,
  respond, after_auth, serve, Message,
}

-- The record of a task, of whose status `P` holds, stands in the table.
pub record IsEntry (P : TaskStatus → Type 0) (id : ℕ) (store : TaskStore) : Type 0 where
  pub entry : TaskRecord
  pub entry_found : get store id ≡ some entry
  pub named : entry.state.task_id ≡ id
  pub keyed : entry.id ≡ id
  pub status : P entry.state.status

abbrev pub IsStarting : TaskStatus → Type 0
IsStarting status = status ≡ starting

abbrev pub IsNew : (id : ℕ) → TaskStore → Type 0
IsNew = IsEntry IsStarting

abbrev MakesNew : ℕ → Result StoreError (TaskRecord × TaskStore) → Type 0
MakesNew id (ok (r, t)) = IsNew id t
MakesNew id (err e) = Unit {0}

stands :
    (s : TaskStore) (id : ℕ) (r : TaskRecord) (n : ℕ)
    → r.id ≡ id
    → r.state.task_id ≡ id
    → r.state.status ≡ starting
    → IsNew id (record (put s r) { active_count = n })
unfolding get put
stands s id r n keyed named new = record {
  entry = r;
  entry_found = lookup-insert r.id id r s.tasks ∙ ground arith;
  named = named;
  keyed = keyed;
  status = new;
}

module _ (to_vec : TaskSnapshot → Text) where
  create-IsNew :
      (s : TaskStore) (id : ℕ) (now : Text) (made : Bool) (w : Write) (route : Text)
      (mode : OutputMode) (encoding : OutputEncoding)
      → MakesNew id (create to_vec s id now made w route mode encoding)
  unfolding create persist new_record put get
  create-IsNew s id now false w route mode encoding = tt
  create-IsNew s id now true (torn k) route mode encoding = tt
  create-IsNew s id now true whole route mode encoding = stands s id _ _ refl refl refl

  create_task-IsNew :
      (app left : AppState) (path : Text) (id : ℕ) (now : Text) (made : Bool) (w : Write)
      (r : TaskRecord)
      → create_task to_vec app path id now made w ≡ ok (r, left)
      → IsNew id left.store
  unfolding create_task
  create_task-IsNew app left path id now made w r e =
      let (route, e1, rest) = >>=-eq-ok (ok_or (lookup path app.routes) not_found) _ e in
      let (pair, e2, last) =
        >>=-eq-ok
          (map_err (λ x. task_create_failed)
            (create to_vec app.store id now made w route.config.path
              (mode_of route.config.merge_stdout_stderr) route.config.output_encoding))
          _ rest in
      let e3 = map_err-eq-ok (λ x. task_create_failed) _ e2 in
      let new : IsNew id pair.1 =
        subst (MakesNew id) e3 (create-IsNew app.store id now made w _ _ _) in
      let same : pair.1 ≡ left.store = cc in subst (IsNew id) same new

  execute-IsNew :
      (app left : AppState) (path : Text) (args : List Text) (id : ℕ) (now : Text) (made : Bool)
      (w : Write) (r : TaskRecord)
      → execute to_vec app path args id now made w ≡ ok (r, left)
      → IsNew id left.store
  unfolding execute
  execute-IsNew app left path args id now made w r e =
      let (admitted, e1, rest) = >>=-eq-ok (admit app path args) _ e in
      create_task-IsNew admitted left path id now made w r rest

-- What an answer that accepts a task promises.
abbrev pub IsPromised : Setup → Response × Service → Type 0
IsPromised u (accepted t, s) =
    IsNew t.task_id s.app.store × (t.status_url ≡ bytes "/tasks/" ++ u.show_id t.task_id)
IsPromised u _ = Unit {0}

module _ (u : Setup) where
  after_execute-IsPromised :
      (s : Service) (id : ℕ) (result : Result ApiError (TaskRecord × AppState))
      → ((r : TaskRecord) (app : AppState) → result ≡ ok (r, app) → IsNew id app.store)
      → IsPromised u (after_execute u s id (without_record result))
  unfolding accepted_task
  after_execute-IsPromised s id (ok (r, app)) h = (h r app refl, refl)
  after_execute-IsPromised s id (err e) h = tt

  handle_execute-IsPromised :
      (s : Service) (path : Text) (req : HttpRequest) (m : Moment)
      → IsPromised u (handle_execute u s path req m)
  handle_execute-IsPromised s path req m = elim (Option-cases req.body) [
    | inl n ↦ rw n tt
    | inr (body, f) ↦ rw f (
        after_execute-IsPromised s m.id
          (execute u.to_vec s.app path body.args m.id m.now_text m.made m.write)
          (λ r app e.
            execute-IsNew u.to_vec s.app app path body.args m.id m.now_text m.made m.write r e))
  ]

  handle_action-IsPromised :
      (s : Service) (done : Message) (a : Result ApiError ManagementAction × ℕ)
      → IsPromised u (handle_action u s done a)
  handle_action-IsPromised s done (ok action, state) = tt
  handle_action-IsPromised s done (err e, state) = tt

  handle_stop_task-IsPromised :
      (s : Service) (reason : StopReason) (done : Message) (req : HttpRequest)
      → IsPromised u (handle_stop_task u s reason done req)
  handle_stop_task-IsPromised s reason done req = ground arith

  handle-IsPromised :
      (s : Service) (req : HttpRequest) (m : Moment) (e : Endpoint)
      → IsPromised u (handle u s req m e)
  unfolding handle
  handle-IsPromised s req m Endpoint.index = tt
  handle-IsPromised s req m Endpoint.healthz = tt
  handle-IsPromised s req m Endpoint.get_task = ground arith
  handle-IsPromised s req m Endpoint.get_output = ground arith
  handle-IsPromised s req m Endpoint.cancel_task = handle_stop_task-IsPromised s _ _ req
  handle-IsPromised s req m Endpoint.kill_task = handle_stop_task-IsPromised s _ _ req
  handle-IsPromised s req m Endpoint.stop_service = handle_action-IsPromised s _ _
  handle-IsPromised s req m Endpoint.restart_service = handle_action-IsPromised s _ _
  handle-IsPromised s req m (Endpoint.execute path) = handle_execute-IsPromised s path req m

  respond-IsPromised :
      (s : Service) (req : HttpRequest) (m : Moment) (d : Dispatch)
      → IsPromised u (respond u s req m d)
  unfolding respond
  respond-IsPromised s req m (found e) = handle-IsPromised s req m e
  respond-IsPromised s req m method_not_allowed = tt
  respond-IsPromised s req m fallback = tt

  limited-IsPromised :
      (s : Service) (req : HttpRequest) (m : Moment) → IsPromised u (limited u s req m)
  limited-IsPromised s req m = elim (Bool-cases (req.exceeds body_limit)) [
    | inl over ↦ rw over tt
    | inr within ↦ rw within (respond-IsPromised s req m _)
  ]

  after_auth-IsPromised :
      (s : Service) (req : HttpRequest) (m : Moment) (a : Option Rejection × Gate)
      → IsPromised u (after_auth u s req m a)
  after_auth-IsPromised s req m (some r, gate) = tt
  after_auth-IsPromised s req m (none, gate) = limited-IsPromised (record s { gate = gate }) req m

  pub serve-IsPromised :
      (s : Service) (req : HttpRequest) (m : Moment) → IsPromised u (serve u s req m)
  unfolding serve
  serve-IsPromised s req m = after_auth-IsPromised s req m _
