-- ===== src/App/Http/Laws.antt =====
-- src/app.rs: which requests change the service.
use command_api.Prelude.{
  Text, Bool, true, false, ◌≡◌, refl, Option, none, some, List, [], ◌∷◌, map, All, Bool-cases, inl,
  inr, ◌⊎◌, arith,
}
use command_api.App.Auth.{Gate, Rejection, authenticate}
use command_api.App.Auth.Laws.{IsAuthorized, authenticate-passes_iff}
use command_api.App.Execute.{RouteRuntime}
use command_api.App.Router.{
  Method, post, Endpoint, Entry, execute_entry, router, Dispatch, found, method_not_allowed,
  fallback, same_method, dispatch,
}
use command_api.App.Http.{
  HttpRequest, Response, is_accepted, Service, Moment, Setup, handle, body_limit, limited, respond,
  after_auth, serve,
}

-- What is as it was, all but the gate.
pub record IsSame (s t : Service) : Type 0 where
  pub app : t.app ≡ s.app
  pub lifecycle_state : t.lifecycle_state ≡ s.lifecycle_state
  pub actions : t.actions ≡ s.actions

-- The endpoints that are there to change something.
abbrev pub is_command : Endpoint → Bool
is_command Endpoint.index = false
is_command Endpoint.healthz = false
is_command Endpoint.get_task = false
is_command Endpoint.get_output = false
is_command _ = true

-- An answer other than an acceptance leaves all as it was; `P` is what an acceptance needs.
abbrev Explains : (P : Type 0) → Service → Response × Service → Type 0
Explains P s (r, t) = (is_accepted r ≡ true → P) × (is_accepted r ≡ false → IsSame s t)

same : (s : Service) → IsSame s s
same s = record { app = refl; lifecycle_state = refl; actions = refl }

module _ (u : Setup) where
  handle-Explains :
      (s : Service) (req : HttpRequest) (m : Moment) (e : Endpoint)
      → Explains (is_command e ≡ true) s (handle u s req m e)
  unfolding handle is_accepted
  handle-Explains s req m Endpoint.index = (λ k. cc, λ k. same s)
  handle-Explains s req m Endpoint.healthz = (λ k. cc, λ k. same s)
  handle-Explains s req m Endpoint.get_task = (λ k. ground arith, λ k. ground arith)
  handle-Explains s req m Endpoint.get_output = (λ k. ground arith, λ k. ground arith)
  handle-Explains s req m Endpoint.cancel_task = (λ k. refl, λ k. ground arith)
  handle-Explains s req m Endpoint.kill_task = (λ k. refl, λ k. ground arith)
  handle-Explains s req m Endpoint.stop_service = (λ k. refl, λ k. ground arith)
  handle-Explains s req m Endpoint.restart_service = (λ k. refl, λ k. ground arith)
  handle-Explains s req m (Endpoint.execute path) = (λ k. refl, λ k. ground arith)

-- Commands are taken by POST only.
abbrev ByPost : List Entry → Type 0
ByPost = All (λ e. is_command e.endpoint ≡ true → e.method ≡ post)

execute_entry-ByPost : (routes : List (Text × RouteRuntime)) → ByPost (map execute_entry routes)
execute_entry-ByPost [] = tt
execute_entry-ByPost (r ∷ routes) = (λ k. refl, execute_entry-ByPost routes)

router-ByPost : (routes : List (Text × RouteRuntime)) → ByPost (router routes)
unfolding router
router-ByPost routes =
    let fixed = execute_entry-ByPost routes in
    (
      λ k. cc,
      (λ k. cc, (λ k. cc, (λ k. cc, (λ k. refl, (λ k. refl, (λ k. refl, (λ k. refl, fixed))))))),
    )

same_method-post : (a b : Method) → same_method a b ≡ true → a ≡ post → b ≡ post
same_method-post a b h p = ground arith

dispatch-post :
    (matches : (pattern_text path : Text) → Bool) (entries : List Entry) (method : Method)
    (path : Text) (e : Endpoint)
    → ByPost entries
    → dispatch matches entries method path ≡ found e
    → is_command e ≡ true
    → method ≡ post
unfolding dispatch
dispatch-post matches [] method path e h d c = cc
dispatch-post matches (entry ∷ rest) method path e (here, h) d c =
    ground (
      arith,
      dispatch-post matches rest method path e h,
      same_method-post entry.method method,
      here,
    )

module _ (u : Setup) (req : HttpRequest) (m : Moment) where
  respond-Explains :
      (s : Service) (entries : List Entry) (d : Dispatch)
      → ByPost entries
      → dispatch u.matches entries req.method req.path ≡ d
      → Explains (req.method ≡ post) s (respond u s req m d)
  unfolding respond is_accepted
  respond-Explains s entries (found e) h eq =
      let (accepted, refused) = handle-Explains u s req m e in
      (λ k. dispatch-post u.matches entries req.method req.path e h eq (accepted k), refused)
  respond-Explains s entries method_not_allowed h eq = (λ k. cc, λ k. same s)
  respond-Explains s entries fallback h eq = (λ k. cc, λ k. same s)

  limited-Explains : (s : Service) → Explains (req.method ≡ post) s (limited u s req m)
  unfolding is_accepted
  limited-Explains s = elim (Bool-cases (req.exceeds body_limit)) [
    | inl over ↦ rw over (λ k. cc, λ k. same s)
    | inr within ↦ rw within (
        respond-Explains s (router s.app.routes)
          (dispatch u.matches (router s.app.routes) req.method req.path)
          (router-ByPost s.app.routes) refl)
  ]

  after_auth-Explains :
      (P : Type 0) (s : Service) (a : Option Rejection × Gate)
      → (a.0 ≡ none → P)
      → Explains (P × (req.method ≡ post)) s (after_auth u s req m a)
  unfolding is_accepted
  after_auth-Explains P s (some r, gate) h =
      (λ k. cc, λ k. record { app = refl; lifecycle_state = refl; actions = refl })
  after_auth-Explains P s (none, gate) h =
      let (accepted, refused) = limited-Explains (record s { gate = gate }) in
      (
        λ k. (h refl, accepted k),
        λ k.
            let t = refused k in
            record { app = t.app; lifecycle_state = t.lifecycle_state; actions = t.actions },
      )

  serve-Explains :
      (s : Service)
      → Explains
          (IsAuthorized u.digest u.phc_accepts u.access m.now m.later s.gate req.auth
            × (req.method ≡ post))
          s
          (serve u s req m)
  unfolding serve
  serve-Explains s =
      after_auth-Explains
        (IsAuthorized u.digest u.phc_accepts u.access m.now m.later s.gate req.auth) s
        (authenticate u.digest u.phc_accepts u.access m.now m.later s.gate req.auth)
        ((authenticate-passes_iff u.digest u.phc_accepts u.access m.now m.later s.gate req.auth).0)

  -- A request is answered with 202 and is an authorised POST, or it leaves all as it was.
  abbrev pub IsServed : Service → Response × Service → Type 0
  IsServed s (r, t) =
      ((is_accepted r ≡ true)
        × IsAuthorized u.digest u.phc_accepts u.access m.now m.later s.gate req.auth
        × (req.method ≡ post))
      ⊎ ((is_accepted r ≡ false) × IsSame s t)

  -- Of all requests, only an authorised POST is answered with 202; and a request that is answered in
  -- any other way leaves the tasks, the permits, the state of the service and its pending actions as
  -- they were: of the whole service only the gate may change.
  pub serve-IsServed : (s : Service) → IsServed s (serve u s req m)
  serve-IsServed s =
      let (accepted, refused) = serve-Explains s in
      elim (Bool-cases (is_accepted (serve u s req m).0)) [
        | inl taken ↦ let (auth, method) = accepted taken in inl (taken, auth, method)
        | inr other ↦ inr (other, refused other)
      ]
