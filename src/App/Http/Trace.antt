-- ===== src/App/Http/Trace.antt =====
-- src/app.rs: requests that come one after the other.
use command_api.Prelude.{
  ℕ, ◌+◌, ◌≤◌, ◌<◌, ◌≡◌, refl, Option, none, some, List, [], ◌∷◌, length, Result, ok, err,
  Bool-cases, inl, inr, arith,
}
use command_api.App.Auth.{Gate, Rejection, authenticate}
use command_api.App.Handlers.{ManagementAction}
use command_api.App.{ApiError}
use command_api.App.Router.{Endpoint, Dispatch, found, method_not_allowed, fallback}
use command_api.App.Http.{
  HttpRequest, Response, accepted_message, Message, stop_accepted, restart_accepted, Service,
  Moment, Setup, handle_action, handle, respond, body_limit, limited, after_auth, serve, serve_all,
}
use command_api.App.Http.Sound.{IsSound, serve-IsSound}

-- The answers that accept a stop or a restart of the service.
abbrev pub accepts : Response → ℕ
accepts (accepted_message stop_accepted) = 1
accepts (accepted_message restart_accepted) = 1
accepts _ = 0

unfoldable pub acceptances : List Response → ℕ
acceptances [] = 0
acceptances (r ∷ rest) = accepts r + acceptances rest

-- An accepted action is one more pending action.
abbrev Grows : Service → Response × Service → Type 0
Grows s (r, t) = accepts r + length s.actions ≡ length t.actions

module _ (u : Setup) where
  handle_action-Grows :
      (s : Service) (done : Message) (a : Result ApiError ManagementAction × ℕ)
      → accepts (accepted_message done) ≡ 1
      → Grows s (handle_action u s done a)
  handle_action-Grows s done (ok action, state) h = omega (arith, h)
  handle_action-Grows s done (err e, state) h = omega arith

  handle-Grows :
      (s : Service) (req : HttpRequest) (m : Moment) (e : Endpoint) → Grows s (handle u s req m e)
  unfolding handle
  handle-Grows s req m Endpoint.index = omega arith
  handle-Grows s req m Endpoint.healthz = omega arith
  handle-Grows s req m Endpoint.get_task = ground arith
  handle-Grows s req m Endpoint.get_output = ground arith
  handle-Grows s req m Endpoint.cancel_task = ground arith
  handle-Grows s req m Endpoint.kill_task = ground arith
  handle-Grows s req m Endpoint.stop_service = handle_action-Grows s stop_accepted _ refl
  handle-Grows s req m Endpoint.restart_service = handle_action-Grows s restart_accepted _ refl
  handle-Grows s req m (Endpoint.execute path) = ground arith

  respond-Grows :
      (s : Service) (req : HttpRequest) (m : Moment) (d : Dispatch) → Grows s (respond u s req m d)
  unfolding respond
  respond-Grows s req m (found e) = handle-Grows s req m e
  respond-Grows s req m method_not_allowed = omega arith
  respond-Grows s req m fallback = omega arith

  limited-Grows : (s : Service) (req : HttpRequest) (m : Moment) → Grows s (limited u s req m)
  limited-Grows s req m = elim (Bool-cases (req.exceeds body_limit)) [
    | inl over ↦ rw over (omega arith)
    | inr within ↦ rw within (respond-Grows s req m _)
  ]

  after_auth-Grows :
      (s : Service) (req : HttpRequest) (m : Moment) (a : Option Rejection × Gate)
      → Grows s (after_auth u s req m a)
  after_auth-Grows s req m (some r, gate) = omega arith
  after_auth-Grows s req m (none, gate) = limited-Grows (record s { gate = gate }) req m

  serve-Grows : (s : Service) (req : HttpRequest) (m : Moment) → Grows s (serve u s req m)
  unfolding serve
  serve-Grows s req m =
      after_auth-Grows s req m
        (authenticate u.digest u.phc_accepts u.access m.now m.later s.gate req.auth)

  serve_all-Grows :
      (requests : List (HttpRequest × Moment)) (s : Service)
      → acceptances (serve_all u requests s).0 + length s.actions
        ≡ length (serve_all u requests s).1.actions
  unfolding serve_all acceptances
  serve_all-Grows [] s = omega arith
  serve_all-Grows ((req, m) ∷ rest) s =
      omega (arith, serve-Grows s req m, serve_all-Grows rest (serve u s req m).1)

  serve_all-IsSound :
      (requests : List (HttpRequest × Moment)) (s : Service)
      → 0 < u.access.token_failure_cooldown.max_tracked_ips
      → IsSound u s
      → IsSound u (serve_all u requests s).1
  unfolding serve_all
  serve_all-IsSound [] s positive sound = sound
  serve_all-IsSound ((req, m) ∷ rest) s positive sound =
      serve_all-IsSound rest (serve u s req m).1 positive (serve-IsSound u s req m positive sound)

  -- Over any sequence of requests to a service that keeps at least one refused address: each task
  -- stands once in the table, the refused addresses stay within their limit, of all requests to stop
  -- or restart the service at most one is answered as accepted, counted with one that was pending
  -- before, and while one is pending the service is not in the state that takes another.
  pub serve_all-acceptances :
      (requests : List (HttpRequest × Moment)) (s : Service)
      → 0 < u.access.token_failure_cooldown.max_tracked_ips
      → IsSound u s
      → IsSound u (serve_all u requests s).1
        × (acceptances (serve_all u requests s).0 + length s.actions ≤ 1)
  serve_all-acceptances requests s positive sound =
      let kept = serve_all-IsSound requests s positive sound in
      (kept, omega (arith, serve_all-Grows requests s, kept.one_action))
