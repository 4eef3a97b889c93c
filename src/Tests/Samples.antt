-- ===== src/Tests/Samples.antt =====
-- Concrete values for the tests.
use command_api.Prelude.{
  ℕ, Text, bytes, Bool, true, false, Option, none, some, [], ◌∷◌, text_eq, if◌then◌else◌,
}
use command_api.Config.{bash, utf8, OutputEncoding, ResolvedRoute, default_request_args}
use command_api.Model.{TaskStatus, OutputMode, TaskSnapshot}
use command_api.Store.{Directory, TaskRecord, TaskStore}

abbrev pub sample : TaskStatus → OutputEncoding → Option Text → TaskSnapshot
sample status encoding finished = record {
  task_id = 7;
  route = bytes "/run";
  status = status;
  output_mode = OutputMode.separate;
  output_encoding = encoding;
  created_at = bytes "1";
  started_at = none;
  finished_at = finished;
  exit_code = none;
  termination = none;
  error = none;
  output_truncated = false;
}

abbrev pub files : (out errs : Text) → Option Text → Directory
files out errs log = record {
  stdout_log = some out;
  stderr_log = some errs;
  output_log = none;
  events = log;
}

abbrev pub task : TaskSnapshot → Directory → TaskRecord
task s d = record {
  id = 7;
  directory = d;
  state = s;
  stdout_bytes = 0;
  stderr_bytes = 0;
  combined_bytes = 0;
  captured_bytes = 0;
  output_truncated = false;
  stop = none;
}

abbrev pub store : TaskRecord → (retention : ℕ) → TaskStore
store r retention = record {
  max_output_bytes = 10;
  retention_seconds = retention;
  tasks = (7, r) ∷ [];
  active_count = 1;
}

-- A stand-in for `serde_json` that knows one snapshot and the line for it.
abbrev pub write_line : Text → TaskSnapshot → Text
write_line line s = line

abbrev pub read_line : Text → TaskSnapshot → Text → Option TaskSnapshot
read_line line s t = if text_eq line t then some s else none

abbrev pub no_decoding : OutputEncoding → Text → Text × Bool
no_decoding encoding t = (t, false)

abbrev pub no_base64 : Text → Text
no_base64 t = t

-- Times are written as one number.
abbrev pub parse_time : Text → Option ℕ
parse_time [] = none
parse_time (t ∷ ts) = some t

abbrev pub resolved : ResolvedRoute
resolved = record {
  path = bytes "/run";
  executor = bash;
  program = bytes "bash";
  script = bytes "/job.sh";
  fixed_args = [];
  request_args = record default_request_args {
    enabled = true;
    allowed_values = bytes "status" ∷ [];
  };
  request_arg_patterns = [];
  working_directory = bytes "/";
  env = [];
  max_concurrency = 1;
  max_execution_seconds = 10;
  graceful_shutdown_seconds = 1;
  merge_stdout_stderr = false;
  output_encoding = utf8;
}
