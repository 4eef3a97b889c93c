-- ===== src/App/Handlers.antt =====
-- src/app.rs: the handlers of a task's endpoints and of the service's own.
pub mod Laws
use command_api.Prelude.{
  ℕ, Text, Bool, true, false, ◌==◌, not, if◌then◌else◌, Option, none, some, Result, ok, err, ◌>>=◌,
  ◌>>◌, ok_or, map_err, bail_if, text_eq,
}
use command_api.Model.{
  TaskView, OutputChunk, OutputStream, StopReason, cancelled, force_killed, Parse,
}
use command_api.Config.{OutputEncoding}
use command_api.Store.{TaskStore, get, request_stop}
use command_api.Store.Output.{view, output_chunk}
use command_api.App.{ApiError}

abbrev pub task_not_found : ApiError
task_not_found = record { status = 404; code = "task_not_found" }

abbrev pub invalid_output_query : ApiError
invalid_output_query = record { status = 400; code = "invalid_output_query" }

abbrev pub task_finished : ApiError
task_finished = record { status = 409; code = "task_finished" }

unfoldable pub get_task :
    Parse → (show_id : ℕ → Text) → (now : ℕ) → TaskStore → (task_id : ℕ) → Result ApiError TaskView
unfolding view
get_task parse show_id now s task_id = ok_or (view parse show_id now s task_id) task_not_found

unfoldable pub get_output :
    (decode : OutputEncoding → Text → Text × Bool)
    → (base64 : Text → Text) → TaskStore
    → (task_id : ℕ) → OutputStream
    → (offset limit : ℕ) → Result ApiError OutputChunk
unfolding get output_chunk
get_output decode base64 s task_id stream offset limit = do
  found ← ok_or (get s task_id) task_not_found
  map_err (λ e. invalid_output_query) (output_chunk decode base64 s task_id stream offset limit)

-- The body of `cancel_task` and `kill_task`; the store is returned as it is left.
unfoldable pub stop_task : StopReason → TaskStore → (task_id : ℕ) → Result ApiError TaskStore
unfolding get request_stop
stop_task reason s task_id = do
  found ← ok_or (get s task_id) task_not_found
  let (stopped, requested) = request_stop s task_id reason
  bail_if (not requested) task_finished
  ok stopped

abbrev pub cancel_task : TaskStore → (task_id : ℕ) → Result ApiError TaskStore
cancel_task = stop_task cancelled

abbrev pub kill_task : TaskStore → (task_id : ℕ) → Result ApiError TaskStore
kill_task = stop_task force_killed

-- `ManagementAction` (src/runtime.rs); a new configuration is not looked into.
pub data ManagementAction : Type 0 where
  stop restart : ManagementAction

abbrev pub service_transition_in_progress : ApiError
service_transition_in_progress = record { status = 409; code = "service_transition_in_progress" }

abbrev pub service_control_unavailable : ApiError
service_control_unavailable = record { status = 503; code = "service_control_unavailable" }

abbrev pub restart_config_invalid : ApiError
restart_config_invalid = record { status = 409; code = "restart_config_invalid" }

abbrev pub restart_log_directory_changed : ApiError
restart_log_directory_changed = record { status = 409; code = "restart_log_directory_changed" }

-- The action that is sent, if any, and `lifecycle_state` after; `sent` is whether `try_send`
-- succeeds. The compare-and-exchange is one step.
unfoldable pub request_management_action :
    (sent : Bool) → (lifecycle_state : ℕ) → ManagementAction → Result ApiError ManagementAction × ℕ
request_management_action sent lifecycle_state action =
    if not (lifecycle_state == 0)
    then (err service_transition_in_progress, lifecycle_state)
    else if not sent
    then (err service_control_unavailable, 0)
    else (ok action, 1)

abbrev pub stop_service :
    (sent : Bool) → (lifecycle_state : ℕ) → Result ApiError ManagementAction × ℕ
stop_service sent lifecycle_state = request_management_action sent lifecycle_state stop

-- `loaded` is the log directory of the configuration that `Config::load` reads, where it is valid.
unfoldable pub restart_service :
    (logging_directory : Text)
    → (loaded : Option Text) → (sent : Bool) → (lifecycle_state : ℕ)
    → Result ApiError ManagementAction × ℕ
unfolding request_management_action
restart_service logging_directory none sent lifecycle_state =
    (err restart_config_invalid, lifecycle_state)
restart_service logging_directory (some directory) sent lifecycle_state =
    if not (text_eq directory logging_directory)
    then (err restart_log_directory_changed, lifecycle_state)
    else request_management_action sent lifecycle_state restart
