-- ===== src/Service.antt =====
-- src/service.rs: the Windows service. The service control manager (SCM) calls a handler, and is told
-- the states of the service by the thread of `run_service_main` and by the thread that waits for the
-- event to stop.
pub mod Laws
pub mod Manager
use command_api.Prelude.{
  ℕ, zero, suc, String, Text, bytes, Bool, true, false, Option, List, [], ◌∷◌, if◌then◌else◌, ◌==◌,
  ◌≡◌,
}

pub data ServiceState : Type 0 where
  start_pending running stop_pending stopped : ServiceState

pub record ServiceStatus : Type 0 where
  pub current_state : ServiceState
  pub accepts_stop : Bool
  pub exit_code : ℕ
  pub checkpoint : ℕ
  pub wait_hint_seconds : ℕ

unfoldable pub status : ServiceState → (accepts_stop : Bool) → (checkpoint : ℕ) → ServiceStatus
status state accepts_stop checkpoint = record {
  current_state = state;
  accepts_stop = accepts_stop;
  exit_code = 0;
  checkpoint = checkpoint;
  wait_hint_seconds = if checkpoint == 0 then 0 else 10;
}

pub data ServiceControl : Type 0 where
  stop interrogate other_control : ServiceControl

pub data ControlResult : Type 0 where
  no_error not_implemented : ControlResult

-- The handler, with the number of events to stop that it leaves in the channel.
unfoldable pub handle_control : ServiceControl → (events : ℕ) → ControlResult × ℕ
handle_control stop events = (no_error, suc events)
handle_control interrogate events = (no_error, events)
handle_control other_control events = (not_implemented, events)

-- The thread of `run_service_main`, by what it has done last; a call of the SCM or of tokio that
-- fails ends it, and `returned` has whether `runtime::run` succeeded.
pub data MainThread : Type 0 where
  registered told_start_pending told_running serving failed : MainThread
  returned told_stopped : (succeeded : Bool) → MainThread

-- The thread that waits for the event to stop; it goes on whether the SCM accepts its report or not.
pub data StopThread : Type 0 where
  not_spawned waiting received : StopThread
  told passed_on : (accepted : Bool) → StopThread

-- `controls` are the calls of the handler so far, the last one first.
pub record ServiceRun : Type 0 where
  pub main : MainThread
  pub stopper : StopThread
  pub controls : List ServiceControl
  pub events : ℕ
  pub shutdown : Bool
  pub reports : List ServiceStatus

abbrev pub registered_service : ServiceRun
registered_service = record {
  main = registered;
  stopper = not_spawned;
  controls = [];
  events = 0;
  shutdown = false;
  reports = [];
}

pub data Step : ServiceRun → ServiceRun → Type 0 where
  control :
      {s : ServiceRun} (c : ServiceControl)
      → Step s (record s { controls = c ∷ s.controls; events = (handle_control c s.events).1 })
  tell_start_pending :
      {s : ServiceRun}
      → s.main ≡ registered
      → Step s (record s {
        main = told_start_pending;
        reports = status start_pending false 1 ∷ s.reports;
      })
  tell_running :
      {s : ServiceRun}
      → s.main ≡ told_start_pending
      → Step s (record s { main = told_running; reports = status running true 0 ∷ s.reports })
  spawn :
      {s : ServiceRun}
      → s.main ≡ told_running
      → Step s (record s { main = serving; stopper = waiting })
  start_fails : {s : ServiceRun} → s.main ≡ registered → Step s (record s { main = failed })
  build_fails : {s : ServiceRun} → s.main ≡ told_start_pending → Step s (record s { main = failed })
  stop_fails :
      {s : ServiceRun} (succeeded : Bool)
      → s.main ≡ returned succeeded
      → Step s (record s { main = failed })
  receive :
      {s : ServiceRun} (events : ℕ)
      → s.stopper ≡ waiting
      → s.events ≡ suc events
      → Step s (record s { stopper = received; events = events })
  tell_stop_pending :
      {s : ServiceRun}
      → s.stopper ≡ received
      → Step s (record s { stopper = told true; reports = status stop_pending false 1 ∷ s.reports })
  stop_pending_refused :
      {s : ServiceRun} → s.stopper ≡ received → Step s (record s { stopper = told false })
  pass_on :
      {s : ServiceRun} (accepted : Bool)
      → s.stopper ≡ told accepted
      → Step s (record s { stopper = passed_on accepted; shutdown = true })
  run_returns :
      {s : ServiceRun} (succeeded : Bool)
      → s.main ≡ serving
      → Step s (record s { main = returned succeeded })
  tell_stopped :
      {s : ServiceRun} (succeeded : Bool)
      → s.main ≡ returned succeeded
      → Step s
          (record s { main = told_stopped succeeded; reports = status stopped false 0 ∷ s.reports })

pub data Reachable : ServiceRun → Type 0 where
  start : Reachable registered_service
  step : {a b : ServiceRun} → Reachable a → Step a b → Reachable b
