-- ===== src/Process/Platform/Windows.antt =====
-- src/process/platform.rs on Windows: a job object holds the worker and all that it starts. Calls of the
-- system are arguments, with whether they succeeded.
use command_api.Prelude.{
  ℕ, ◌-◌, zero, suc, Bool, true, false, Option, none, some, List, [], ◌∷◌, Result, ok, err,
  if◌then◌else◌, ◌==◌,
}

pub data JobError : Type 0 where
  no_job no_limits no_process not_assigned not_terminated no_accounting : JobError
  no_console no_handler not_signalled : JobError

-- `ProcessTree::new`, with the number of handles that are open after it.
unfoldable pub new_tree : (created limited : Bool) → (handles : ℕ) → Result JobError (Unit {0}) × ℕ
new_tree false limited handles = (err no_job, handles)
new_tree true false handles = (err no_limits, handles)
new_tree true true handles = (ok tt, suc handles)

-- `drop`, which closes the handle and with it kills what is left in the job.
unfoldable pub drop_tree : (handles : ℕ) → ℕ
drop_tree handles = handles - 1

unfoldable pub attach : (process : Option ℕ) → (assigned : Bool) → Result JobError (Unit {0})
attach none assigned = err no_process
attach (some handle) false = err not_assigned
attach (some handle) true = ok tt

-- `CTRL_BREAK` comes from the worker itself.
unfoldable pub graceful : Result JobError (Unit {0})
graceful = ok tt

unfoldable pub force : (terminated : Bool) → Result JobError (Unit {0})
force false = err not_terminated
force true = ok tt

-- `ProcessTree::wait_empty`: `ActiveProcesses` at each query; `none` while it still waits.
unfoldable pub wait_empty : List (Option ℕ) → Option (Result JobError (Unit {0}))
wait_empty [] = none
wait_empty (none ∷ rest) = some (err no_accounting)
wait_empty (some zero ∷ rest) = some (ok tt)
wait_empty (some (suc n) ∷ rest) = wait_empty rest

abbrev pub ctrl_break_event : ℕ
ctrl_break_event = 1

-- `console_handler`: whether the event is handled, and the flag after it.
unfoldable pub console_handler : (event : ℕ) → (break_received : Bool) → Bool × Bool
console_handler event break_received =
    if event == ctrl_break_event then (true, true) else (false, break_received)

-- `worker_setup`: how many processes share the console, whether a console could be allocated and the
-- handler set.
unfoldable pub worker_setup :
    (console_processes : ℕ) → (allocated handler_set : Bool) → Result JobError (Unit {0})
worker_setup zero false handler_set = err no_console
worker_setup console_processes allocated false = err no_handler
worker_setup console_processes allocated true = ok tt

unfoldable pub worker_graceful : (generated : Bool) → Result JobError (Unit {0})
worker_graceful false = err not_signalled
worker_graceful true = ok tt

-- `worker_wait_for_descendants`, which leaves the wait to the service.
unfoldable pub wait_for_descendants : Result JobError (Unit {0})
wait_for_descendants = ok tt
