-- ===== src/Store/Open.antt =====
-- src/store.rs, `open`: the store that the service starts with.
pub mod Laws
use command_api.Prelude.{
  ℕ, Text, Bool, Option, not, Result, err, ok, List, [], ◌>>=◌, ◌>>◌, bail_if, map_err,
}
use command_api.Model.{TaskSnapshot, Parse}
use command_api.Store.{TaskStore, StoreError, Write}
use command_api.Store.Recover.{DirEntry, recover}
use command_api.Store.Cleanup.{cleanup_expired}

pub data OpenError : Type 0 where
  no_tasks_directory no_lock_file already_locked : OpenError
  not_recovered : StoreError → OpenError

-- What `open` meets: whether the directory `tasks` could be made, the lock file opened and the lock
-- taken, the directories of the tasks, and how recovery writes.
pub record Opening : Type 0 where
  pub made : Bool
  pub lock_file : Bool
  pub locked : Bool
  pub entries : List DirEntry
  pub write : Write

abbrev pub empty_store : (max_output_bytes retention_seconds : ℕ) → TaskStore
empty_store max_output_bytes retention_seconds = record {
  max_output_bytes = max_output_bytes;
  retention_seconds = retention_seconds;
  tasks = [];
  active_count = 0;
}

module _ (to_vec : TaskSnapshot → Text) (from_str : Text → Option TaskSnapshot)
    (parse : Parse) where
  -- `now_text` is the time that an interrupted task gets, and `now` the time of the cleanup.
  unfoldable pub open_store :
      (now_text : Text) (now : ℕ) (retention_seconds max_output_bytes : ℕ)
      → Opening
      → Result OpenError TaskStore
  unfolding recover cleanup_expired
  open_store now_text now retention_seconds max_output_bytes o = do
    bail_if (not o.made) no_tasks_directory
    bail_if (not o.lock_file) no_lock_file
    bail_if (not o.locked) already_locked
    store ← map_err not_recovered (
        recover to_vec from_str now_text o.write (empty_store max_output_bytes retention_seconds)
          o.entries)
    ok (cleanup_expired parse now store)
