-- ===== src/App/Handlers/Laws.antt =====
-- src/app.rs, the handlers: what a client may do to a task and to the service.
use command_api.Prelude.{
  ℕ, sym, ◌∙◌, ap, ◌+◌, any, ap, Bool, true, false, ◌≡◌, refl, some, List, [], ◌∷◌, Result, ok, err,
  if◌then◌else◌, ◌==◌, arith, Option-cases, Bool-cases, inl, inr,
}
use command_api.Model.{StopReason, is_finished}
use command_api.Store.{TaskRecord, TaskStore, get, put, request_stop, request_stop_now}
use command_api.Store.Laws.{IsKeyed, get-put, get-id}
use command_api.App.Handlers.{ManagementAction, request_management_action, stop_task}

abbrev pub is_ok {ℓ κ} : {E : Type ℓ} {A : Type κ} → Result E A → ℕ
is_ok (ok a) = 1
is_ok (err e) = 0

-- A sequence of requests, each with whether the channel took its action: how many were accepted.
unfoldable pub accepted : (lifecycle_state : ℕ) → List (Bool × ManagementAction) → ℕ
unfolding request_management_action
accepted state [] = 0
accepted state ((sent, action) ∷ rest) =
    let (answer, state') = request_management_action sent state action in
    is_ok answer + accepted state' rest

busy :
    (state : ℕ) (rest : List (Bool × ManagementAction))
    → (state == 0) ≡ false
    → accepted state rest ≡ 0
unfolding accepted request_management_action
busy state [] h = refl
busy state ((sent, action) ∷ rest) h = rw h (omega (arith, busy state rest h))

-- Of any sequence of requests to stop or restart, from a service that runs, exactly one is accepted
-- if the channel takes any action: every later one is refused.
pub management_once :
    (requests : List (Bool × ManagementAction))
    → accepted 0 requests ≡ (if any (λ r. r.0) requests then 1 else 0)
unfolding accepted request_management_action
management_once [] = refl
management_once ((true, action) ∷ rest) = omega (arith, busy 1 rest refl)
management_once ((false, action) ∷ rest) = omega (arith, management_once rest)

-- A request to stop a task that is accepted found the task unfinished; after it the task carries the
-- reason, and every other task is as it was, in a table with one entry for each task.
pub stop_task-get :
    (reason : StopReason) (s t : TaskStore) (id : ℕ)
    → IsKeyed s.tasks
    → stop_task reason s id ≡ ok t
    → (r : TaskRecord) × (get s id ≡ some r)
      × (is_finished r.state.status ≡ false)
      × ((j : ℕ) → get t j ≡ (if id == j then some (request_stop_now reason r) else get s j))
unfolding stop_task request_stop request_stop_now
stop_task-get reason s t id k e = elim (Option-cases (get s id)) [
  | inl n ↦ cc (rw n at e)
  | inr (r, f) ↦ elim (Bool-cases (is_finished r.state.status)) [
    | inl over ↦ let g = rw (request_stop, f, over) at e in cc
    | inr open_ended ↦
        let g = rw (request_stop, f, open_ended) at e in
        let same : put s (request_stop_now reason r) ≡ t = cc in
        (
          r,
          f,
          open_ended,
          λ j.
              ap (λ u. get u j) (sym same)
              ∙ get-put s (request_stop_now reason r) j
              ∙ rw (get-id s id r k f) refl,
        )
  ]
]
