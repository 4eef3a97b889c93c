-- ===== src/Tests/Lifecycle.antt =====
-- A task from its request to its end, at concrete inputs.
use command_api.Prelude.{◌≡◌, refl, bytes, text_eq, err, arith}
use command_api.Model.{cancelled}
use command_api.App.Handlers.{stop_task, task_finished}
use command_api.App.Http.{accepted_task, serve}
use command_api.App.Http.Links.{IsViewOf}
use command_api.Lifecycle.{IsOver, after_executor, accepted_task_ends}
use command_api.Tests.Http.{
  by_text-literal, setup, service, after, run_request, status_request, moment, run_served,
  status-IsAuthorized,
}
use command_api.Tests.Process.{stubborn}

accepted_task_ends_example :
    IsViewOf setup IsOver
      (accepted_task setup 7)
      (serve setup (after_executor setup stubborn (bytes "/run") 7 after) status_request moment).0
    × (stop_task cancelled (after_executor setup stubborn (bytes "/run") 7 after).app.store 7
        ≡ err task_finished)
unfolding accepted_task text_eq
accepted_task_ends_example =
    accepted_task_ends setup stubborn by_text-literal (λ id. refl) service after run_request
      status_request moment moment (accepted_task setup 7) (bytes "/run") cancelled
      (omega arith, omega arith) run_served status-IsAuthorized refl refl refl refl
