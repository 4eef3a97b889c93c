-- ===== src/App/Http/Links.antt =====
-- src/app.rs: the link that the answer to a request for a task holds.
use command_api.Prelude.{
  ℕ, Text, bytes, text_eq, true, false, ◌≡◌, refl, sym, ap, ◌∙◌, Option, none, some, List, ◌++◌, ok,
  nat_eq, text_keys, subst,
}
use command_api.Model.{TaskView, TaskStatus, OutputMode}
use command_api.Store.{TaskStore, TaskRecord, get, snapshot}
use command_api.Store.Output.{view, view_record, base_url, links_of}
use command_api.App.Auth.{Gate, Rejection}
use command_api.App.Auth.Laws.{IsAuthorized, authenticate-passes_iff}
use command_api.App.Execute.{RouteRuntime}
use command_api.App.Handlers.{get_task}
use command_api.App.Router.{get as by_get, Endpoint, router, found, dispatch, is_literal}
use command_api.App.Http.{
  HttpRequest, Response, AcceptedTask, accepted, Service, Moment, Setup, handle_get_task, handle,
  body_limit, respond, after_auth, serve, task,
}
use command_api.App.Http.Promise.{IsEntry, IsStarting, IsPromised, serve-IsPromised}

module _ (u : Setup) where
  -- The view of a task that was accepted, of whose status `P` holds.
  abbrev pub IsViewOf : (TaskStatus → Type 0) → AcceptedTask → Response → Type 0
  IsViewOf P t r =
      (v : TaskView) × (r ≡ task v)
      × (v.task.task_id ≡ t.task_id)
      × P v.task.status
      × (v.links.status ≡ t.status_url)

  abbrev pub IsFirstView : AcceptedTask → Response → Type 0
  IsFirstView = IsViewOf IsStarting

  view_record-status :
      (now : ℕ) (r : TaskRecord)
      → (view_record u.parse u.show_id now r).links.status ≡ bytes "/tasks/" ++ u.show_id r.id
  unfolding view_record base_url snapshot
  view_record-status now r =
      elim (r.state.output_mode)
        as (λ mode.
          (links_of u.parse u.show_id now mode (base_url u.parse u.show_id now r.id)).status
          ≡ bytes "/tasks/" ++ u.show_id r.id) [
            | OutputMode.separate ↦ refl
            | OutputMode.combined ↦ refl
          ]

  get_task-found :
      (s : TaskStore) (id now : ℕ) (r : TaskRecord)
      → get s id ≡ some r
      → get_task u.parse u.show_id now s id ≡ ok (view_record u.parse u.show_id now r)
  unfolding get_task view
  get_task-found s id now r h = rw (h, get_task, view) refl

  get_task-IsViewOf :
      (P : TaskStatus → Type 0) (s : Service) (req : HttpRequest) (m : Moment) (t : AcceptedTask)
      → IsEntry P t.task_id s.app.store
      → t.status_url ≡ bytes "/tasks/" ++ u.show_id t.task_id
      → req.task_id ≡ some t.task_id
      → IsViewOf P t (handle_get_task u s req m)
  unfolding get_task view view_record base_url snapshot
  get_task-IsViewOf P s req m t is url e =
      let r = is.entry in
      (
        view_record u.parse u.show_id m.wall_clock r,
        rw (e, get_task-found s.app.store t.task_id m.wall_clock r is.entry_found) refl,
        is.named,
        is.status,
        view_record-status m.wall_clock r
            ∙ ap (λ i. bytes "/tasks/" ++ u.show_id i) is.keyed
            ∙ sym url,
      )

  module _ (literal : (p x : Text) → is_literal p ≡ true → u.matches p x ≡ text_eq p x)
      (capture : (id : ℕ)
        → u.matches (bytes "/tasks/{task_id}") (bytes "/tasks/" ++ u.show_id id) ≡ true) where
    dispatch-status_url :
        (routes : List (Text × RouteRuntime)) (id : ℕ)
        → dispatch u.matches (router routes) by_get (bytes "/tasks/" ++ u.show_id id)
          ≡ found Endpoint.get_task
    unfolding router dispatch text_eq
    dispatch-status_url routes id =
        let url = bytes "/tasks/" ++ u.show_id id in
        rw (literal (bytes "/") url refl, literal (bytes "/healthz") url refl, capture id) refl

    after_auth-IsViewOf :
        (P : TaskStatus → Type 0) (s : Service) (req : HttpRequest) (m : Moment) (t : AcceptedTask)
        (a : Option Rejection × Gate)
        → a.0 ≡ none
        → IsEntry P t.task_id s.app.store
        → t.status_url ≡ bytes "/tasks/" ++ u.show_id t.task_id
        → req.method ≡ by_get
        → req.path ≡ t.status_url
        → req.task_id ≡ some t.task_id
        → req.exceeds body_limit ≡ false
        → IsViewOf P t (after_auth u s req m a).0
    unfolding respond handle
    after_auth-IsViewOf P s req m t (some r, gate) h is url method path e within = cc
    after_auth-IsViewOf P s req m t (none, gate) h is url method path e within =
        let entries = router s.app.routes in
        let there : dispatch u.matches entries req.method req.path ≡ found Endpoint.get_task =
          rw (method, path, url) (dispatch-status_url s.app.routes t.task_id) in
        let s' = record s { gate = gate } in
        rw within (
          subst (λ d. IsViewOf P t (respond u s' req m d).0) (sym there)
            (get_task-IsViewOf P s' req m t is url e))

    -- The answer to an authorised GET of the link of a task that stands in the table.
    pub serve-IsViewOf :
        (P : TaskStatus → Type 0) (s : Service) (req : HttpRequest) (m : Moment) (t : AcceptedTask)
        → IsEntry P t.task_id s.app.store
        → t.status_url ≡ bytes "/tasks/" ++ u.show_id t.task_id
        → IsAuthorized u.digest u.phc_accepts u.access m.now m.later s.gate req.auth
        → req.method ≡ by_get
        → req.path ≡ t.status_url
        → req.task_id ≡ some t.task_id
        → req.exceeds body_limit ≡ false
        → IsViewOf P t (serve u s req m).0
    unfolding serve
    serve-IsViewOf P s req m t is url auth =
        after_auth-IsViewOf P s req m t _
          ((authenticate-passes_iff u.digest u.phc_accepts u.access m.now m.later s.gate req.auth).1
            auth)
          is url

    -- With a router that matches a literal pattern by equality, and the pattern of a task's status
    -- with the path of each id: when a request has been answered with an accepted task, an authorised
    -- GET of the link of that answer, made next, with no body over the limit and read with the id of
    -- the answer, is answered with the view of that task, which is starting and has the same link.
    pub serve-status_url :
        (s s' : Service) (req status_req : HttpRequest) (m m' : Moment) (t : AcceptedTask)
        → serve u s req m ≡ (accepted t, s')
        → IsAuthorized u.digest u.phc_accepts u.access m'.now m'.later s'.gate status_req.auth
        → status_req.method ≡ by_get
        → status_req.path ≡ t.status_url
        → status_req.task_id ≡ some t.task_id
        → status_req.exceeds body_limit ≡ false
        → IsFirstView t (serve u s' status_req m').0
    serve-status_url s s' req status_req m m' t e =
        let (new, url) = subst (IsPromised u) e (serve-IsPromised u s req m) in
        serve-IsViewOf IsStarting s' status_req m' t new url
