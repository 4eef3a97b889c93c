-- ===== src/Process/Run/Courses.antt =====
-- src/process/mod.rs, `run_task`: the courses that the execution of a task can take, described on their
-- own, by what the operating system, the clock and the clients answer.
use command_api.Prelude.{
  pos, ℤ, negsuc, true, false, ◌≡◌, ◌≢◌, ap, inl, inr, Option, none, some, Bool-cases, ok, arith,
}
use command_api.Model.{
  TaskStatus, succeeded, failed, timed_out, killed, interrupted, StopReason, force_killed, timeout,
  server_shutdown, server_restart, parent_exited, logging_failure,
}
use command_api.Process.Run.{
  ExitStatus, Answers, final_status, success, is_zero, TreeWait, WorkerWait, Wait,
}

-- Why a task is asked to stop: its deadline has passed, or somebody asked.
pub data Asked (a : Answers) : StopReason → Type 0 where
  at_deadline : a.first ≡ Wait.deadline → Asked a timeout
  by_request : {reason : StopReason} → a.first ≡ Wait.stop_requested reason → Asked a reason

-- How it then ends: with the reason that it was asked for first, the one that it ends for, and the
-- exit status of its worker.
pub data Stops (a : Answers) : StopReason → StopReason → ExitStatus → Type 0 where
  at_once : {e : ExitStatus} → a.forced_exit ≡ ok e → Stops a force_killed force_killed e
  in_time :
      {reason : StopReason} {e : ExitStatus}
      → reason ≢ force_killed
      → a.worker ≡ WorkerWait.exited e
      → a.tree ≡ TreeWait.emptied
      → Stops a reason reason e
  children_late :
      {reason : StopReason} {e : ExitStatus}
      → reason ≢ force_killed
      → a.worker ≡ WorkerWait.exited e
      → a.tree ≡ TreeWait.elapsed
      → Stops a reason reason e
  children_killed :
      {reason : StopReason} {e : ExitStatus}
      → reason ≢ force_killed
      → a.worker ≡ WorkerWait.exited e
      → a.tree ≡ TreeWait.force_asked
      → Stops a reason force_killed e
  worker_late :
      {reason : StopReason} {e : ExitStatus}
      → reason ≢ force_killed
      → a.worker ≡ WorkerWait.elapsed
      → a.forced_exit ≡ ok e
      → Stops a reason reason e
  worker_killed :
      {reason : StopReason} {e : ExitStatus}
      → reason ≢ force_killed
      → a.worker ≡ WorkerWait.force_asked
      → a.forced_exit ≡ ok e
      → Stops a reason force_killed e

-- The course of a task: the reason for which it was stopped, if it was, and its exit status.
pub data Course (a : Answers) : Option StopReason → ExitStatus → Type 0 where
  by_itself :
      {e : ExitStatus} → a.first ≡ Wait.exited e → a.descendants_ended ≡ true → Course a none e
  children_overran :
      {e : ExitStatus}
      → a.first ≡ Wait.exited e
      → a.descendants_ended ≡ false
      → Course a (some timeout) e
  stopped_early :
      {asked reason : StopReason} {e : ExitStatus}
      → Asked a asked
      → Stops a asked reason e
      → Course a (some reason) e

-- The status that a course calls for.
pub data Deserves : Option StopReason → ExitStatus → TaskStatus → Type 0 where
  succeeds : {e : ExitStatus} → e.code ≡ some (pos 0) → Deserves none e succeeded
  fails : {e : ExitStatus} → e.code ≢ some (pos 0) → Deserves none e failed
  times_out : {e : ExitStatus} → Deserves (some timeout) e timed_out
  is_cancelled : {e : ExitStatus} → Deserves (some StopReason.cancelled) e TaskStatus.cancelled
  is_killed : {e : ExitStatus} → Deserves (some force_killed) e killed
  shut_down : {e : ExitStatus} → Deserves (some server_shutdown) e interrupted
  restarted : {e : ExitStatus} → Deserves (some server_restart) e interrupted
  orphaned : {e : ExitStatus} → Deserves (some parent_exited) e interrupted
  unlogged : {e : ExitStatus} → Deserves (some logging_failure) e failed

is_zero_iff :
    (c : Option ℤ) → (is_zero c ≡ true → c ≡ some (pos 0)) × (c ≡ some (pos 0) → is_zero c ≡ true)
is_zero_iff none = ((λ e. cc), λ e. cc)
is_zero_iff (some (pos n)) = (
  (λ e. let z : n ≡ 0 = ground arith in ap (λ k. some (pos k)) z),
  λ e. let z : n ≡ 0 = cc in ground arith,
)
is_zero_iff (some (negsuc n)) = ((λ e. cc), λ e. cc)

pub final_status-Deserves :
    (o : Option StopReason) (e : ExitStatus) → Deserves o e (final_status o e)
unfolding final_status
final_status-Deserves (some timeout) e = times_out
final_status-Deserves (some StopReason.cancelled) e = is_cancelled
final_status-Deserves (some force_killed) e = is_killed
final_status-Deserves (some server_shutdown) e = shut_down
final_status-Deserves (some server_restart) e = restarted
final_status-Deserves (some parent_exited) e = orphaned
final_status-Deserves (some logging_failure) e = unlogged
final_status-Deserves none e = elim (Bool-cases (success e)) [
  | inl zero ↦ rw (final_status, zero) (succeeds ((is_zero_iff e.code).0 zero))
  | inr other ↦ rw (final_status, other) (fails λ z. cc ((is_zero_iff e.code).1 z))
]
