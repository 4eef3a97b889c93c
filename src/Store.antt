-- ===== src/Store.antt =====
-- src/store.rs: the table of tasks, the record of each, and its directory of logs.
-- A record carries the contents of its directory. The tasks' hash map is an association list, the
-- atomic counters wrap at 2^64, and a call that holds a lock or an `Arc` is one step on the store.
pub mod Events
pub mod Recover
pub mod Open
pub mod Idle
pub mod Cleanup
pub mod Output
pub mod Laws
pub mod Abstract
use command_api.Prelude.{
  ℕ, ◌+◌, ◌-◌, ◌%◌, ◌^◌, ◌++◌, Text, Bool, true, false, not, Option, none, some, List, [], ◌∷◌,
  Result, ok, err, lookup, insert, if◌then◌else◌, ◌==◌, take, nat_eq,
}
use command_api.Config.{OutputEncoding}
use command_api.Model.{starting, is_finished, OutputMode, StopReason, TaskSnapshot}
use command_api.Model

-- The files of a task's directory; `none` is a file that is not there.
pub record Directory : Type 0 where
  pub stdout_log : Option Text
  pub stderr_log : Option Text
  pub output_log : Option Text
  pub events : Option Text

abbrev pub empty_directory : Directory
empty_directory = record { stdout_log = none; stderr_log = none; output_log = none; events = none }

pub record TaskRecord : Type 0 where
  pub id : ℕ
  pub directory : Directory
  pub state : TaskSnapshot
  pub stdout_bytes : ℕ
  pub stderr_bytes : ℕ
  pub combined_bytes : ℕ
  pub captured_bytes : ℕ
  pub output_truncated : Bool
  pub stop : Option StopReason

pub record TaskStore : Type 0 where
  pub max_output_bytes : ℕ
  pub retention_seconds : ℕ
  pub tasks : List (ℕ × TaskRecord)
  pub active_count : ℕ

pub data StoreError : Type 0 where
  no_directory no_such_task no_output_file not_written not_utf8 : StoreError
  bad_limit wrong_mode : StoreError
  offset_too_large : (offset size : ℕ) → StoreError

-- `TaskRecord::new`
unfoldable pub new_record : TaskSnapshot → Directory → TaskRecord
new_record snapshot directory = record {
  id = snapshot.task_id;
  directory = directory;
  state = snapshot;
  stdout_bytes = 0;
  stderr_bytes = 0;
  combined_bytes = 0;
  captured_bytes = 0;
  output_truncated = false;
  stop = none;
}

unfoldable pub snapshot : TaskRecord → TaskSnapshot
snapshot r = record (r.state) { output_truncated = r.output_truncated }

-- How the write of one line ends: whole, or with an error after some of its bytes.
pub data Write : Type 0 where
  whole : Write
  torn : ℕ → Write

abbrev pub contents : Option Text → Text
contents none = []
contents (some t) = t

-- `create(true).append(true)`, then `write_all`.
abbrev pub append : Write → Text → Option Text → Option Text
append whole line file = some (contents file ++ line)
append (torn k) line file = some (contents file ++ take k line)

abbrev pub succeeded : Write → Bool
succeeded whole = true
succeeded (torn k) = false

-- `persist`: `to_vec` is `serde_json::to_vec`. The test says whether it returned `Ok`.
unfoldable pub persist : (to_vec : TaskSnapshot → Text) → Write → TaskRecord → TaskRecord × Bool
unfolding snapshot
persist to_vec w r =
    let line = to_vec (snapshot r) ++ 10 ∷ [] in
    (
      record r { directory = record (r.directory) { events = append w line r.directory.events } },
      succeeded w,
    )

-- `transition`
unfoldable pub transition :
    (to_vec : TaskSnapshot → Text)
    → Write
    → (TaskSnapshot → TaskSnapshot)
    → TaskRecord
    → TaskRecord × Bool
unfolding persist
transition to_vec w update r =
    persist to_vec w
      (record r { state = record (update r.state) { output_truncated = r.output_truncated } })

unfoldable pub request_stop_now : StopReason → TaskRecord → TaskRecord
request_stop_now reason r = record r { stop = some reason }

unfoldable pub get : TaskStore → ℕ → Option TaskRecord
unfolding lookup
get s id = lookup id s.tasks

-- What a holder of the shared record of a task does to it.
unfoldable pub put : TaskStore → TaskRecord → TaskStore
unfolding insert
put s r = record s { tasks = insert r.id r s.tasks }

-- `request_stop`: `false` where the task is missing or has finished.
unfoldable pub request_stop : TaskStore → ℕ → StopReason → TaskStore × Bool
unfolding get put snapshot request_stop_now
request_stop s id reason = elim (get s id) [
  | none ↦ (s, false)
  | some r ↦
      if is_finished (snapshot r).status
      then (s, false)
      else (put s (request_stop_now reason r), true)
]

cancel_record : StopReason → TaskRecord → TaskRecord
unfolding snapshot request_stop_now
cancel_record reason r =
    if not (is_finished (snapshot r).status) then request_stop_now reason r else r

cancel_records : StopReason → List (ℕ × TaskRecord) → List (ℕ × TaskRecord)
cancel_records reason [] = []
cancel_records reason ((id, r) ∷ rest) = (id, cancel_record reason r) ∷ cancel_records reason rest

-- `cancel_all`
unfoldable pub cancel_all : TaskStore → StopReason → TaskStore
unfolding cancel_records cancel_record
cancel_all s reason = record s { tasks = cancel_records reason s.tasks }

-- `mark_finished`, an atomic `fetch_sub`.
unfoldable pub mark_finished : TaskStore → TaskStore
mark_finished s = record s { active_count = (s.active_count + 2 ^ 64 - 1) % 2 ^ 64 }

-- What `wait_until_idle` waits for.
unfoldable pub is_idle : TaskStore → Bool
is_idle s = s.active_count == 0

-- The empty output files of a new directory.
abbrev new_files : OutputMode → Directory
new_files Model.separate = record empty_directory { stdout_log = some []; stderr_log = some [] }
new_files Model.combined = record empty_directory { output_log = some [] }

-- `create`, with the new id, the time, whether the directory and its output files could be made,
-- and how the first line of the event log was written.
unfoldable pub create :
    (to_vec : TaskSnapshot → Text)
    → TaskStore
    → (id : ℕ) → (now : Text) → (made : Bool) → Write
    → (route : Text) → OutputMode
    → OutputEncoding
    → Result StoreError (TaskRecord × TaskStore)
unfolding new_record persist put
create to_vec s id now made w route mode encoding =
    let fresh =
      new_record
        (record {
          task_id = id;
          route = route;
          status = starting;
          output_mode = mode;
          output_encoding = encoding;
          created_at = now;
          started_at = none;
          finished_at = none;
          exit_code = none;
          termination = none;
          error = none;
          output_truncated = false;
        })
        (new_files mode) in
    let (r, written) = persist to_vec w fresh in
    if not made
    then err no_directory
    else if not written
    then err not_written
    else ok (r, record (put s r) { active_count = (s.active_count + 1) % 2 ^ 64 })
