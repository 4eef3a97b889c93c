-- ===== src/Process/Platform.antt =====
-- src/process/platform.rs: how a process tree is signalled and awaited. On Unix the system calls
-- `killpg` and `waitpid` are arguments; of Windows the names of methods and signals are modelled.
pub mod Windows
use command_api.Prelude.{
  ℕ, Bool, true, false, String, Option, none, some, List, [], ◌∷◌, Result, ok, err,
}

unfoldable pub graceful_method : (windows : Bool) → String
graceful_method true = "ctrl_break_event"
graceful_method false = "process_group_sigterm"

unfoldable pub force_method : (windows : Bool) → String
force_method true = "terminate_job_object"
force_method false = "process_group_sigkill"

unfoldable pub graceful_signal : (windows : Bool) → Option String
graceful_signal true = some "CTRL_BREAK"
graceful_signal false = some "SIGTERM"

unfoldable pub force_signal : (windows : Bool) → Option String
force_signal true = none
force_signal false = some "SIGKILL"

pub data Errno : Type 0 where
  esrch echild eintr other : Errno

pub data Signal : Type 0 where
  sigterm sigkill : Signal

pub data TreeError : Type 0 where
  not_attached no_pid signal_failed wait_failed no_handler no_subreaper : TreeError

-- `ProcessTree::attach`: the process group is that of the worker.
unfoldable pub attach : (id : Option ℕ) → Result TreeError (Option ℕ)
attach none = err no_pid
attach (some pid) = ok (some pid)

-- `ProcessTree::wait_empty`, which leaves the wait to the worker.
unfoldable pub wait_empty : Result TreeError (Unit {0})
wait_empty = ok tt

-- `worker_setup`: whether the handler of SIGTERM could be installed, and what `prctl` gives.
unfoldable pub worker_setup : (handler : Bool) → (prctl : Bool) → Result TreeError (Unit {0})
worker_setup false prctl = err no_handler
worker_setup true false = err no_subreaper
worker_setup true true = ok tt

-- `ESRCH` says that the group is gone already.
unfoldable pub signalled : Result Errno (Unit {0}) → Result TreeError (Unit {0})
signalled (ok u) = ok tt
signalled (err esrch) = ok tt
signalled (err e) = err signal_failed

module _ (killpg : (pid : ℕ) → Signal → Result Errno (Unit {0})) where
  unfoldable pub send_group : (pid : Option ℕ) → Signal → Result TreeError (Unit {0})
  unfolding signalled
  send_group none s = err not_attached
  send_group (some pid) s = signalled (killpg pid s)

  -- `ProcessTree::graceful` and `ProcessTree::force`
  abbrev pub graceful : (pid : Option ℕ) → Result TreeError (Unit {0})
  graceful pid = send_group pid sigterm

  abbrev pub force : (pid : Option ℕ) → Result TreeError (Unit {0})
  force pid = send_group pid sigkill

  -- `worker_graceful`, for the group of the worker.
  unfoldable pub worker_graceful : (pgrp : ℕ) → Result TreeError (Unit {0})
  unfolding signalled
  worker_graceful pgrp = signalled (killpg pgrp sigterm)

-- One answer of `waitpid(-1, WNOHANG)`.
pub data Waited : Type 0 where
  still_alive reaped : Waited
  refused : Errno → Waited

-- `worker_wait_for_descendants`; `none` while it still waits.
unfoldable pub wait_for_descendants : List Waited → Option (Result TreeError (Unit {0}))
wait_for_descendants [] = none
wait_for_descendants (still_alive ∷ rest) = wait_for_descendants rest
wait_for_descendants (reaped ∷ rest) = wait_for_descendants rest
wait_for_descendants (refused echild ∷ rest) = some (ok tt)
wait_for_descendants (refused eintr ∷ rest) = wait_for_descendants rest
wait_for_descendants (refused e ∷ rest) = some (err wait_failed)
