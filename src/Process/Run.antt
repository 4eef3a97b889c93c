-- ===== src/Process/Run.antt =====
-- src/process/mod.rs, `start_task`, `run_task`, `stop_process` and `force_stop_process`: one task from
-- its start to its end. What the operating system and the clock answer is an `Answers`: a branch of a
-- `select!` is the answer that came first. Instants are whole seconds, and `last_instant` is the last
-- that the system can represent. What a task's readers write does not show here.
pub mod Trace
pub mod Stops
pub mod Ends
pub mod Frame
pub mod Courses
pub mod Outcome
pub mod Overflow
use command_api.Prelude.{
  ℕ, ◌+◌, leb, ℤ, pos, negsuc, Text, Bool, true, false, not, Option, none, some, List, [], ◌∷◌,
  ◌++◌, Result, ok, err, if◌then◌else◌, ◌==◌,
}
use command_api.Model.{
  TaskStatus, running, stopping, succeeded, failed, timed_out, cancelled, killed, interrupted,
  is_finished, StopReason, timeout, force_killed, server_shutdown, server_restart, parent_exited,
  logging_failure, TerminationMessage, graceful_requested, descendants_overran, force_requested,
  grace_expired, forced_at_once, Fault, not_persisted, no_exit_status, no_signal, no_tree_status,
  TaskError, executor_failed, log_write_failed, non_zero_exit, TaskSnapshot,
}
use command_api.Store.{TaskRecord, Write, transition}
use command_api.Process.Platform.{graceful_method, force_method, graceful_signal, force_signal}

-- `std::process::ExitStatus`: `none` where a signal ended the process.
pub record ExitStatus : Type 0 where
  pub code : Option ℤ

abbrev pub is_zero : Option ℤ → Bool
is_zero none = false
is_zero (some (pos n)) = n == 0
is_zero (some (negsuc n)) = false

-- `success`
abbrev pub success : ExitStatus → Bool
success s = is_zero s.code

-- The main loop's `select!`: the worker ended, or it could not be waited for, or the deadline passed,
-- or a stop was requested.
pub data Wait : Type 0 where
  exited : ExitStatus → Wait
  wait_failed deadline : Wait
  stop_requested : StopReason → Wait

-- Waiting for the worker, then for its descendants, in the grace period.
pub data WorkerWait : Type 0 where
  exited : ExitStatus → WorkerWait
  wait_failed elapsed force_asked : WorkerWait

pub data TreeWait : Type 0 where
  emptied tree_failed elapsed force_asked : TreeWait

pub record Answers : Type 0 where
  pub windows : Bool
  pub execution_seconds : ℕ
  pub graceful_seconds : ℕ
  pub last_instant : ℕ
  pub running_at : ℕ
  pub stopping_at : ℕ
  pub started_at : Text
  pub finished_at : Text
  pub setup : Result Fault (Unit {0})
  pub first : Wait
  pub graceful_sent : Bool
  pub worker : WorkerWait
  pub tree : TreeWait
  pub force_sent : Bool
  pub forced_exit : Result Fault ExitStatus
  pub forced_empty : Result Fault (Unit {0})
  pub stopped_empty : Result Fault (Unit {0})
  pub descendants_ended : Bool
  pub outputs : Result Fault (Unit {0})
  pub running_write : Write
  pub stopping_write : Write
  pub forced_write : Write
  pub overrun_write : Write
  pub final_write : Write
  pub failed_write : Write

-- The task, whether its permits are held, and each status that a client could see, oldest first, with
-- whether the permits were held then.
pub record Run : Type 0 where
  pub task : TaskRecord
  pub permits : Bool
  pub published : List (TaskStatus × Bool)

-- What ends a function early: an error, or a panic of the executor's own `tokio` task.
pub data Failure : Type 0 where
  fault : Fault → Failure
  panicked : Failure

abbrev pub M {ℓ} : Type ℓ → Type ℓ
M A = Run → Result Failure A × Run

abbrev pub and_then {ℓ κ} :
    {A : Type ℓ} {B : Type κ} → (A → M B) → Result Failure A × Run → Result Failure B × Run
and_then f (ok a, s) = f a s
and_then f (err e, s) = (err e, s)

infixl 5 ◌>>=◌ ◌>>◌
abbrev pub ◌>>=◌ {ℓ κ} : {A : Type ℓ} {B : Type κ} → M A → (A → M B) → M B
◌>>=◌ m f s = and_then f (m s)

abbrev pub ◌>>◌ {ℓ} : {B : Type ℓ} → M (Unit {0}) → M B → M B
m >> k = m >>= λ _. k

abbrev pub return {ℓ} : {A : Type ℓ} → A → M A
return a s = (ok a, s)

abbrev pub fail {ℓ} : {A : Type ℓ} → Fault → M A
fail e s = (err (fault e), s)

abbrev pub lift {ℓ} : {A : Type ℓ} → Result Fault A → M A
lift (ok a) s = (ok a, s)
lift (err e) s = (err (fault e), s)

abbrev pub check : Bool → Fault → M (Unit {0})
check true e s = (ok tt, s)
check false e s = (err (fault e), s)

-- `Instant::now() + Duration::from_secs(seconds)`, in whole seconds, panics beyond the last instant.
unfoldable pub add_to_instant : (last now seconds : ℕ) → M (Unit {0})
add_to_instant last now seconds s = (if leb (now + seconds) last then ok tt else err panicked, s)

abbrev pub is_force_killed : StopReason → Bool
is_force_killed force_killed = true
is_force_killed _ = false

-- The status of a task that ran to its end.
unfoldable pub final_status : Option StopReason → ExitStatus → TaskStatus
final_status (some timeout) e = timed_out
final_status (some StopReason.cancelled) e = cancelled
final_status (some force_killed) e = killed
final_status (some server_shutdown) e = interrupted
final_status (some server_restart) e = interrupted
final_status (some parent_exited) e = interrupted
final_status (some logging_failure) e = failed
final_status none e = if success e then succeeded else failed

-- The error of a task that has failed, where it has none yet.
abbrev failure : Option StopReason → ExitStatus → TaskError
failure (some logging_failure) e = log_write_failed
failure _ e = non_zero_exit e.code

abbrev is_failed : TaskStatus → Bool
is_failed failed = true
is_failed _ = false

abbrev error_or : Bool → TaskError → Option TaskError → Option TaskError
error_or true e none = some e
error_or _ e old = old

unfoldable pub finish : (now : Text) → Option StopReason → ExitStatus → TaskSnapshot → TaskSnapshot
finish now reason e s = record s {
  status = final_status reason e;
  finished_at = some now;
  exit_code = e.code;
  error = error_or (is_failed (final_status reason e)) (failure reason e) s.error;
}

-- The transition of a task whose executor failed.
unfoldable pub give_up : (now : Text) → Fault → TaskSnapshot → TaskSnapshot
give_up now e s =
    if not (is_finished s.status)
    then record s { status = failed; finished_at = some now; error = some (executor_failed e) }
    else s

abbrev force_message : StopReason → (graceful_attempted : Bool) → TerminationMessage
force_message reason false = forced_at_once
force_message reason true = if is_force_killed reason then force_requested else grace_expired

module _ (to_vec : TaskSnapshot → Text) (a : Answers) where
  unfoldable pub publish : Write → (TaskSnapshot → TaskSnapshot) → M (Unit {0})
  unfolding transition
  publish w update s =
      let (r, written) = transition to_vec w update s.task in
      (
        (if written then ok tt else err (fault not_persisted)),
        record s { task = r; published = s.published ++ (r.state.status, s.permits) ∷ [] },
      )

  unfoldable pub drop_permits : M (Unit {0})
  drop_permits s = (ok tt, record s { permits = false })

  unfoldable pub graceful_stop : StopReason → TaskSnapshot → TaskSnapshot
  graceful_stop reason s = record s {
    status = stopping;
    termination = some (record {
      reason = reason;
      graceful_attempted = true;
      forced = false;
      method = graceful_method a.windows;
      signal = graceful_signal a.windows;
      message = some (graceful_requested a.graceful_seconds);
    });
  }

  unfoldable pub forced_stop : StopReason → Bool → TerminationMessage → TaskSnapshot → TaskSnapshot
  forced_stop reason graceful_attempted message s = record s {
    status = stopping;
    termination = some (record {
      reason = reason;
      graceful_attempted = graceful_attempted;
      forced = true;
      method = force_method a.windows;
      signal = force_signal a.windows;
      message = some message;
    });
  }

  abbrev pub status_or_wait : Option ExitStatus → M ExitStatus
  status_or_wait (some e) = return e
  status_or_wait none = lift a.forced_exit

  unfoldable pub force_stop_process : StopReason → Bool → Option ExitStatus → M ExitStatus
  force_stop_process reason graceful_attempted worker_status = do
    publish a.forced_write
        (forced_stop reason graceful_attempted (force_message reason graceful_attempted))
    check a.force_sent no_signal
    status ← status_or_wait worker_status
    lift a.forced_empty
    return status

  abbrev pub forced_end : StopReason → Option ExitStatus → M (ExitStatus × StopReason)
  forced_end reason worker_status = do
    status ← force_stop_process reason true worker_status
    return (status, reason)

  unfoldable pub await_tree : StopReason → ExitStatus → TreeWait → M (ExitStatus × StopReason)
  await_tree reason status emptied = return (status, reason)
  await_tree reason status tree_failed = fail no_tree_status
  await_tree reason status TreeWait.elapsed = forced_end reason (some status)
  await_tree reason status TreeWait.force_asked = forced_end force_killed (some status)

  unfoldable pub await_worker : StopReason → WorkerWait → M (ExitStatus × StopReason)
  await_worker reason (WorkerWait.exited status) = await_tree reason status a.tree
  await_worker reason WorkerWait.wait_failed = fail no_exit_status
  await_worker reason WorkerWait.elapsed = forced_end reason none
  await_worker reason WorkerWait.force_asked = forced_end force_killed none

  unfoldable pub stop_process : StopReason → M (ExitStatus × StopReason)
  stop_process reason =
      if is_force_killed reason
      then (do status ← force_stop_process reason false none; return (status, reason))
      else (do
        publish a.stopping_write (graceful_stop reason)
        check a.graceful_sent no_signal
        add_to_instant a.last_instant a.stopping_at a.graceful_seconds
        await_worker reason a.worker)

  abbrev pub stopped : StopReason → M (ExitStatus × Option StopReason)
  stopped reason = do (status, actual) ← stop_process reason; return (status, some actual)

  -- The main loop.
  unfoldable pub await_end : Wait → M (ExitStatus × Option StopReason)
  await_end (Wait.exited status) = return (status, none)
  await_end Wait.wait_failed = fail no_exit_status
  await_end deadline = stopped timeout
  await_end (stop_requested reason) = stopped reason

  abbrev pub end_descendants : Bool → M (Option StopReason)
  end_descendants true = return none
  end_descendants false = do
    check a.force_sent no_signal
    publish a.overrun_write (forced_stop timeout false descendants_overran)
    lift a.stopped_empty
    return (some timeout)

  -- Descendants of a script that ended by itself may run up to the deadline.
  unfoldable pub settle : Option StopReason → M (Option StopReason)
  settle none = end_descendants a.descendants_ended
  settle (some reason) = do lift a.stopped_empty; return (some reason)

  abbrev pub begin : TaskSnapshot → TaskSnapshot
  begin s = record s { status = running; started_at = some a.started_at }

  unfoldable pub run_task : M (Unit {0})
  run_task = do
    lift a.setup
    publish a.running_write begin
    add_to_instant a.last_instant a.running_at a.execution_seconds
    (status, stop_reason) ← await_end a.first
    reason ← settle stop_reason
    lift a.outputs
    drop_permits
    publish a.final_write (finish a.finished_at reason status)

  -- An error of `run_task` drops its permits with its other values.
  -- A panic drops them, too, and ends the executor there, before the call of `mark_finished`.
  abbrev pub recover_fault : Result Failure (Unit {0}) × Run → Run
  recover_fault (ok u, s) = s
  recover_fault (err panicked, s) = record s { permits = false }
  recover_fault (err (fault e), s) =
      (publish a.failed_write (give_up a.finished_at e) (record s { permits = false })).1

  -- `start_task`, up to the call of `mark_finished`.
  unfoldable pub start_task : Run → Run
  start_task s = recover_fault (run_task s)

  abbrev pub is_panic : Result Failure (Unit {0}) → Bool
  is_panic (err panicked) = true
  is_panic _ = false

  -- Whether the executor ends by a panic.
  unfoldable pub panics : Run → Bool
  panics s = is_panic (run_task s).0
