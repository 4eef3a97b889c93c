-- ===== src/Model.antt =====
-- src/model.rs: the states of a task, its snapshot and the shapes of the answers.
-- Task ids are numbers. A message text is a constructor, with the values that it is formatted from.
use command_api.Prelude.{ℕ, ◌-◌, ◌/◌, ℤ, Text, Bool, true, false, Option, none, some, String}
use command_api.Config.{OutputEncoding}

pub data TaskStatus : Type 0 where
  starting running stopping succeeded failed timed_out cancelled killed interrupted : TaskStatus

abbrev pub is_finished : TaskStatus → Bool
is_finished starting = false
is_finished running = false
is_finished stopping = false
is_finished _ = true

pub data OutputMode : Type 0 where
  separate combined : OutputMode

pub data StopReason : Type 0 where
  timeout cancelled force_killed server_shutdown server_restart parent_exited : StopReason
  logging_failure : StopReason

-- The `Display` of a reason.
unfoldable pub reason_text : StopReason → String
reason_text timeout = "timeout"
reason_text StopReason.cancelled = "cancelled"
reason_text force_killed = "force_killed"
reason_text server_shutdown = "server_shutdown"
reason_text server_restart = "server_restart"
reason_text parent_exited = "parent_exited"
reason_text logging_failure = "logging_failure"

-- The texts of `Termination.message`.
pub data TerminationMessage : Type 0 where
  graceful_requested : (seconds : ℕ) → TerminationMessage
  descendants_overran force_requested grace_expired forced_at_once : TerminationMessage

pub record Termination : Type 0 where
  pub reason : StopReason
  pub graceful_attempted : Bool
  pub forced : Bool
  pub method : String
  pub signal : Option String
  pub message : Option TerminationMessage

-- The operation of the environment that made the executor of a task give up.
pub data Fault : Type 0 where
  no_pipe no_executable no_process_tree no_worker no_control_pipe no_initial_message : Fault
  not_persisted no_exit_status no_signal no_tree_status output_task_failed : Fault

-- The texts of `TaskSnapshot.error`.
pub data TaskError : Type 0 where
  executor_failed : Fault → TaskError
  service_restarted : TaskError
  log_write_failed : TaskError
  non_zero_exit : (code : Option ℤ) → TaskError

pub record TaskSnapshot : Type 0 where
  pub task_id : ℕ
  pub route : Text
  pub status : TaskStatus
  pub output_mode : OutputMode
  pub output_encoding : OutputEncoding
  pub created_at : Text
  pub started_at : Option Text
  pub finished_at : Option Text
  pub exit_code : Option ℤ
  pub termination : Option Termination
  pub error : Option TaskError
  pub output_truncated : Bool

pub data OutputStream : Type 0 where
  stdout stderr combined : OutputStream

unfoldable pub file_name : OutputStream → String
file_name stdout = "stdout.log"
file_name stderr = "stderr.log"
file_name combined = "output.log"

pub record OutputSizes : Type 0 where
  pub stdout : Option ℕ
  pub stderr : Option ℕ
  pub combined : Option ℕ

pub record TaskLinks : Type 0 where
  pub status : Text
  pub stdout : Option Text
  pub stderr : Option Text
  pub combined : Option Text
  pub cancel : Text
  pub kill : Text

pub record TaskView : Type 0 where
  pub success : Bool
  pub task : TaskSnapshot
  pub duration_ms : ℕ
  pub output_bytes : OutputSizes
  pub links : TaskLinks

pub record OutputChunk : Type 0 where
  pub success : Bool
  pub task_id : ℕ
  pub stream : OutputStream
  pub encoding : String
  pub offset : ℕ
  pub next_offset : ℕ
  pub eof : Bool
  pub content : Text
  pub decoding_errors : Bool
  pub content_base64 : Option Text

-- `OffsetDateTime::parse(_, &Rfc3339)`, an instant as nanoseconds since the earliest one.
abbrev pub Parse : Type 0
Parse = Text → Option ℕ

abbrev bind_parse : Parse → Option Text → Option ℕ
bind_parse parse none = none
bind_parse parse (some t) = parse t

abbrev pub unwrap_or : ℕ → Option ℕ → ℕ
unwrap_or d none = d
unwrap_or d (some t) = t

-- `now` is the clock, read where the end is absent or does not parse.
unfoldable pub elapsed_ms : Parse → (now : ℕ) → (start : Text) → (end : Option Text) → ℕ
elapsed_ms parse now start end = elim (parse start) [
  | none ↦ 0
  | some s ↦ (unwrap_or now (bind_parse parse end) - s) / 1000000
]
