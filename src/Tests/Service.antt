-- ===== src/Tests/Service.antt =====
-- src/service.rs, src/process/platform.rs and the commands of src/main.rs at concrete inputs.
use command_api.Prelude.{
  ◌≡◌, refl, bytes, text_eq, pos, negsuc, false, true, some, [], ◌∷◌, ok, err,
}
use command_api.Service.{
  stopped, stop_pending, running, start_pending, status, stop, handle_control, told_stopped,
  passed_on, ServiceRun, control, tell_start_pending, tell_running, spawn, receive,
  tell_stop_pending, pass_on, run_returns, tell_stopped, Reachable, start, step,
}
use command_api.Service.Laws.{IsTold, Reachable-IsTold}
use command_api.Process.Platform.{
  esrch, echild, eintr, other, sigterm, signal_failed, reaped, still_alive, refused, send_group,
  wait_for_descendants,
}
use command_api.Process.Platform.Windows.{wait_empty}
use command_api.Cli.Commands.{Calls, Command, ServiceAction, service, exit_code}

-- The service is stopped by the SCM, and its runtime fails.
abbrev failed_run : ServiceRun
failed_run = record {
  main = told_stopped false;
  stopper = passed_on true;
  controls = stop ∷ [];
  events = 0;
  shutdown = true;
  reports =
      status stopped false 0
      ∷ status stop_pending false 1
      ∷ status running true 0
      ∷ status start_pending false 1
      ∷ [];
}

failed_reached : Reachable failed_run
unfolding handle_control
failed_reached =
    step
      (step
        (step
          (step
            (step
              (step
                (step (step (step start (tell_start_pending refl)) (tell_running refl))
                  (spawn refl))
                (control stop))
              (receive 0 refl refl))
            (tell_stop_pending refl))
          (pass_on true refl))
        (run_returns false refl))
      (tell_stopped false refl)

Reachable-IsTold_example : IsTold failed_run
Reachable-IsTold_example = Reachable-IsTold failed_run failed_reached

gone_group : send_group (λ pid s. err esrch) (some 7) sigterm ≡ ok tt
unfolding send_group
gone_group = refl

refused_group : send_group (λ pid s. err other) (some 7) sigterm ≡ err signal_failed
unfolding send_group
refused_group = refl

all_reaped :
    wait_for_descendants (reaped ∷ still_alive ∷ refused eintr ∷ reaped ∷ refused echild ∷ [])
    ≡ some (ok tt)
unfolding wait_for_descendants
all_reaped = refl

job_emptied : wait_empty (some 2 ∷ some 1 ∷ some 0 ∷ []) ≡ some (ok tt)
unfolding wait_empty
job_emptied = refl

abbrev calls : Calls
calls = record {
  windows = false;
  build_runtime = true;
  runtime_run = λ config. true;
  service_call = λ action. true;
  secret_call = λ action. true;
}

run_succeeds : exit_code calls (some (bytes "run")) (pos 0) (Command.run (bytes "c.yaml")) ≡ 0
unfolding exit_code text_eq
run_succeeds = refl

no_windows :
    exit_code calls (some (bytes "service")) (pos 0) (service (ServiceAction.stop (bytes "c.yaml")))
    ≡ 1
unfolding exit_code text_eq
no_windows = refl

worker_negative :
    exit_code calls (some (bytes "__worker")) (negsuc 0) (Command.run (bytes "c.yaml")) ≡ 0
unfolding exit_code text_eq
worker_negative = refl
