-- ===== src/Store/Abstract.antt =====
-- src/store.rs: what the table of tasks is to its users, who reach a task by its id alone.
-- `Tasks` is a function of the id, so that it has no order; the calls on it are written anew, without
-- the table, the loops and the casts of the code.
pub mod Steps
pub mod Laws
use command_api.Prelude.{
  ℕ, ◌+◌, ◌-◌, ◌*◌, ◌%◌, ◌^◌, Text, Bool, true, false, not, ◌&&◌, Option, none, some, List, [], ◌∷◌,
  ◌++◌, Result, ok, err, if◌then◌else◌, ◌==◌,
}
use command_api.Config.{OutputEncoding}
use command_api.Model.{OutputMode, StopReason, TaskSnapshot, starting, is_finished, Parse}
use command_api.Model
use command_api.Store.{
  Directory, empty_directory, TaskRecord, TaskStore, StoreError, Write, succeeded, get, put, create,
  request_stop, request_stop_now, cancel_all, mark_finished, is_idle,
}
use command_api.Store.Cleanup.{cleanup_expired}
use command_api.Store.Cleanup.Laws.{unless_aged}

pub record Tasks : Type 0 where
  pub task : ℕ → Option TaskRecord
  pub active_count : ℕ
  pub retention_seconds : ℕ

abbrev pub tasks_of : TaskStore → Tasks
tasks_of s = record {
  task = get s;
  active_count = s.active_count;
  retention_seconds = s.retention_seconds;
}

-- The calls on the store. `changed` is a change by the executor that holds the record.
pub data Call : Type 0 where
  created :
      (id : ℕ) (now : Text) (made : Bool) (write : Write) (route : Text)
      → OutputMode
      → OutputEncoding
      → Call
  changed : TaskRecord → Call
  stop_requested : (id : ℕ) → StopReason → Call
  all_cancelled : StopReason → Call
  expired_cleaned : (now : ℕ) → Call
  marked_finished : Call
  looked_up : (id : ℕ) → Call
  idle_asked : Call

pub data Answer : Type 0 where
  done : Bool → Answer
  found : Option TaskRecord → Answer

abbrev pub after_create :
    TaskStore → Result StoreError (TaskRecord × TaskStore) → Answer × TaskStore
after_create s (ok (r, t)) = (done true, t)
after_create s (err e) = (done false, s)

abbrev pub after_stop : TaskStore × Bool → Answer × TaskStore
after_stop (s, requested) = (done requested, s)

-- The record of a new task, with the first line of its log.
abbrev new_snapshot : ℕ → Text → Text → OutputMode → OutputEncoding → TaskSnapshot
new_snapshot id now route mode encoding = record {
  task_id = id;
  route = route;
  status = starting;
  output_mode = mode;
  output_encoding = encoding;
  created_at = now;
  started_at = none;
  finished_at = none;
  exit_code = none;
  termination = none;
  error = none;
  output_truncated = false;
}

abbrev files_of : OutputMode → Option Text → Directory
files_of Model.separate log = record {
  stdout_log = some [];
  stderr_log = some [];
  output_log = none;
  events = log;
}
files_of Model.combined log = record {
  stdout_log = none;
  stderr_log = none;
  output_log = some [];
  events = log;
}

-- One task is replaced.
abbrev pub with_task : Tasks → ℕ → TaskRecord → Tasks
with_task a id r = record a { task = λ j. if id == j then some r else a.task j }

abbrev pub is_running : Option TaskRecord → Bool
is_running none = false
is_running (some r) = not (is_finished r.state.status)

-- A task that has not finished is told to stop; any other is left as it is.
abbrev pub told : StopReason → Option TaskRecord → Option TaskRecord
told reason none = none
told reason (some r) =
    some (if is_finished r.state.status then r else record r { stop = some reason })

module _ (to_vec : TaskSnapshot → Text) (parse : Parse) where
  -- A call on the store.
  unfoldable pub call : Call → TaskStore → Answer × TaskStore
  call (created id now made write route mode encoding) s =
      after_create s (create to_vec s id now made write route mode encoding)
  call (changed r) s = (done true, put s r)
  call (stop_requested id reason) s = after_stop (request_stop s id reason)
  call (all_cancelled reason) s = (done true, cancel_all s reason)
  call (expired_cleaned now) s = (done true, cleanup_expired parse now s)
  call marked_finished s = (done true, mark_finished s)
  call (looked_up id) s = (found (get s id), s)
  call idle_asked s = (done (is_idle s), s)

  unfoldable pub run : List Call → TaskStore → List Answer × TaskStore
  unfolding call
  run [] s = ([], s)
  run (c ∷ rest) s =
      let (answer, t) = call c s in let (answers, end) = run rest t in (answer ∷ answers, end)

  abbrev pub new_task : ℕ → Text → Text → OutputMode → OutputEncoding → TaskRecord
  new_task id now route mode encoding =
      let snapshot = new_snapshot id now route mode encoding in
      record {
        id = id;
        directory = files_of mode (some (to_vec snapshot ++ 10 ∷ []));
        state = snapshot;
        stdout_bytes = 0;
        stderr_bytes = 0;
        combined_bytes = 0;
        captured_bytes = 0;
        output_truncated = false;
        stop = none;
      }

  -- The same calls on the tasks.
  unfoldable pub abstract_call : Call → Tasks → Answer × Tasks
  abstract_call (created id now made write route mode encoding) a =
      if made && succeeded write
      then (
        done true,
        record (with_task a id (new_task id now route mode encoding)) {
          active_count = (a.active_count + 1) % 2 ^ 64;
        },
      )
      else (done false, a)
  abstract_call (changed r) a = (done true, with_task a r.id r)
  abstract_call (stop_requested id reason) a = (
    done (is_running (a.task id)),
    record a { task = λ j. if id == j then told reason (a.task j) else a.task j },
  )
  abstract_call (all_cancelled reason) a =
      (done true, record a { task = λ j. told reason (a.task j) })
  abstract_call (expired_cleaned now) a =
      (done true, record a { task = λ j. unless_aged parse now a.retention_seconds (a.task j) })
  abstract_call marked_finished a =
      (done true, record a { active_count = (a.active_count + 2 ^ 64 - 1) % 2 ^ 64 })
  abstract_call (looked_up id) a = (found (a.task id), a)
  abstract_call idle_asked a = (done (a.active_count == 0), a)

  unfoldable pub abstract_run : List Call → Tasks → List Answer × Tasks
  unfolding abstract_call
  abstract_run [] a = ([], a)
  abstract_run (c ∷ rest) a =
      let (answer, b) = abstract_call c a in
      let (answers, end) = abstract_run rest b in (answer ∷ answers, end)
