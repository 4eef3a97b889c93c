-- ===== src/Process/Worker.antt =====
-- src/process/mod.rs, `run_worker`: the worker process, between the service and the script. Its standard
-- input is the control pipe. src/main.rs, `main`: its exit code.
pub mod Ends
pub mod Codes
use command_api.Prelude.{
  ℕ, ◌+◌, ◌*◌, ◌^◌, min, ℤ, pos, negsuc, Text, bytes, text_eq, trim, trim_start, trim_end, Bool,
  true, false, ◌&&◌, ◌||◌, Option, none, some, List, [], ◌∷◌, ◌++◌, map, Result, ok, err,
  if◌then◌else◌, leb, ◌==◌,
}
use command_api.Config.{Executor, ResolvedRoute, launcher_args}
use command_api.Process.Run.{ExitStatus}
use command_api.Process.Platform.{TreeError}

pub record WorkerSpec : Type 0 where
  pub executor : Executor
  pub program : Text
  pub script : Text
  pub fixed_args : List Text
  pub request_args : List Text
  pub working_directory : Text
  pub env : List (Text × Text)
  pub graceful_shutdown_seconds : ℕ

-- The message that `run_task` sends first.
unfoldable pub spec_of : ResolvedRoute → (request_args : List Text) → WorkerSpec
spec_of route request_args = record {
  executor = route.executor;
  program = route.program;
  script = route.script;
  fixed_args = route.fixed_args;
  request_args = request_args;
  working_directory = route.working_directory;
  env = route.env;
  graceful_shutdown_seconds = route.graceful_shutdown_seconds;
}

-- A `std::process::Command`, without its standard streams.
pub record ScriptCommand : Type 0 where
  pub program : Text
  pub args : List Text
  pub current_dir : Text
  pub envs : List (Text × Text)

unfoldable pub build_script_command : WorkerSpec → ScriptCommand
unfolding launcher_args
build_script_command spec = record {
  program = spec.program;
  args = launcher_args spec.executor ++ spec.script ∷ spec.fixed_args ++ spec.request_args;
  current_dir = spec.working_directory;
  envs = spec.env;
}

-- What one `read_line` of the control pipe gives: a line, the end, or an error.
pub data ControlRead : Type 0 where
  line : Text → ControlRead
  end_of_input read_failed : ControlRead

-- The thread that reads the control pipe: whether it has set `stop_requested` after these reads.
unfoldable pub stop_requested : List ControlRead → Bool
unfolding trim text_eq
stop_requested [] = false
stop_requested (end_of_input ∷ rest) = true
stop_requested (read_failed ∷ rest) = true
stop_requested (line l ∷ rest) = text_eq (trim l) (bytes "terminate") || stop_requested rest

pub data WorkerFault : Type 0 where
  no_setup no_message bad_message not_spawned no_signal wait_failed descendants_failed : WorkerFault

-- One round of the main loop: the flag, the result of `worker_graceful` and the clock after it,
-- the answer of `try_wait`, and the clock after that. Instants are nanoseconds.
pub record Poll : Type 0 where
  pub stop : Bool
  pub signalled : Bool
  pub sent_at : ℕ
  pub waited : Result (Unit {0}) (Option ExitStatus)
  pub now : ℕ

-- How the loop ends: with the status of the script, by killing its own process group, or with an
-- error; `waiting` where it goes on, and `sleeping` where it sleeps until the service ends its job.
pub data LoopEnd : Type 0 where
  exited : ExitStatus → LoopEnd
  killed waiting sleeping : LoopEnd
  failed : WorkerFault → LoopEnd

abbrev pub from_secs : ℕ → ℕ
from_secs seconds = seconds * 1000000000

abbrev is_none {ℓ} : {A : Type ℓ} → Option A → Bool
is_none none = true
is_none (some a) = false

-- `graceful_sent_at` after a round.
abbrev pub sent_after : Poll → Option ℕ → Option ℕ
sent_after p sent = if p.stop && is_none sent then some p.sent_at else sent

abbrev pub is_overdue : (grace : ℕ) → Option ℕ → (now : ℕ) → Bool
is_overdue grace none now = false
is_overdue grace (some sent) now = leb (sent + from_secs grace) now

-- `worker_force_after_parent_loss` on Unix and on Windows.
unfoldable pub worker_force_after_parent_loss : (windows : Bool) → LoopEnd
worker_force_after_parent_loss false = killed
worker_force_after_parent_loss true = sleeping

abbrev pub after_wait :
    (windows : Bool)
    → Result (Unit {0}) (Option ExitStatus)
    → (overdue : Bool) → (next : LoopEnd) → LoopEnd
after_wait windows (err u) overdue next = failed wait_failed
after_wait windows (ok (some e)) overdue next = exited e
after_wait windows (ok none) overdue next =
    if overdue then worker_force_after_parent_loss windows else next

unfoldable pub poll_loop : (windows : Bool) → (grace : ℕ) → Option ℕ → List Poll → LoopEnd
poll_loop windows grace sent [] = waiting
poll_loop windows grace sent (p ∷ rest) =
    let next = poll_loop windows grace (sent_after p sent) rest in
    let tried = after_wait windows p.waited (is_overdue grace (sent_after p sent) p.now) next in
    if p.stop && is_none sent then (if p.signalled then tried else failed no_signal) else tried

-- `exit_status.code().unwrap_or(1)`
abbrev pub code_or : ℤ → Option ℤ → ℤ
code_or d none = d
code_or d (some c) = c

-- What `run_worker` returns once its loop has ended, and the descendants have been awaited; `none`
-- where the worker killed itself, sleeps or goes on.
unfoldable pub loop_result :
    LoopEnd → (descendants : Result TreeError (Unit {0})) → Option (Result WorkerFault ℤ)
loop_result (exited e) (ok u) = some (ok (code_or (pos 1) e.code))
loop_result (exited e) (err f) = some (err descendants_failed)
loop_result (failed f) descendants = some (err f)
loop_result _ descendants = none

-- `run_worker`: its setup, its first line, whether the script could be started, and its rounds.
unfoldable pub run_worker :
    (windows : Bool)
    → (from_str : Text → Option WorkerSpec) → (setup : Bool) → (initial : Option Text)
    → (spawned : Bool) → List Poll
    → (descendants : Result TreeError (Unit {0})) → Option (Result WorkerFault ℤ)
unfolding trim_end poll_loop loop_result
run_worker windows from_str false initial spawned polls descendants = some (err no_setup)
run_worker windows from_str true none spawned polls descendants = some (err no_message)
run_worker windows from_str true (some message) spawned polls descendants =
    elim (from_str (trim_end message)) [
      | none ↦ some (err bad_message)
      | some spec ↦
          if spawned
          then loop_result (poll_loop windows spec.graceful_shutdown_seconds none polls) descendants
          else some (err not_spawned)
    ]

unfoldable pub worker_main : Result WorkerFault ℤ → ℤ
worker_main (ok code) = code
worker_main (err f) = pos 127

-- `code.clamp(0, 255) as u8`
unfoldable pub exit_byte : ℤ → ℕ
exit_byte (pos n) = min n 255
exit_byte (negsuc n) = 0

-- The exit status that the service sees of a worker whose script ended with a status.
unfoldable pub worker_exit : ExitStatus → ExitStatus
unfolding worker_main exit_byte
worker_exit e = record { code = some (pos (exit_byte (worker_main (ok (code_or (pos 1) e.code))))) }
