-- ===== src/Store/Recover.antt =====
-- src/store.rs, `recover`: the table of tasks after a start, read from the directories on disk.
pub mod Laws
use command_api.Prelude.{
  ℕ, ◌+◌, ◌-◌, ◌^◌, min, Text, Bool, true, false, not, Option, none, some, List, [], ◌∷◌, Result,
  ok, err, ◌>>=◌, if◌then◌else◌, length,
}
use command_api.Model.{TaskStatus, interrupted, is_finished, TaskSnapshot, service_restarted}
use command_api.Store.{
  Directory, TaskRecord, TaskStore, StoreError, not_written, new_record, persist, put, Write,
}
use command_api.Store.Events.{read_latest_snapshot}

-- An entry of the directory `tasks`.
pub record DirEntry : Type 0 where
  pub is_dir : Bool
  pub directory : Directory

abbrev is_interrupted : TaskStatus → Bool
is_interrupted interrupted = true
is_interrupted _ = false

-- A task that had not finished is closed as interrupted.
unfoldable pub close : (now : Text) → TaskSnapshot → TaskSnapshot
close now s =
    if not (is_finished s.status)
    then record s { status = interrupted; finished_at = some now; error = some service_restarted }
    else s

-- One round of `refresh_output_sizes`: the counter and the total, where the file is there.
abbrev refresh : Option Text → ℕ × ℕ → ℕ × ℕ
refresh none (counter, total) = (counter, total)
refresh (some t) (counter, total) = (length t, min (2 ^ 64 - 1) (total + length t))

unfoldable pub refresh_output_sizes : TaskRecord → TaskRecord
refresh_output_sizes r =
    let (out, total) = refresh r.directory.stdout_log (r.stdout_bytes, 0) in
    let (errs, total) = refresh r.directory.stderr_log (r.stderr_bytes, total) in
    let (both, total) = refresh r.directory.output_log (r.combined_bytes, total) in
    record r {
      stdout_bytes = out;
      stderr_bytes = errs;
      combined_bytes = both;
      captured_bytes = total;
    }

module _ (to_vec : TaskSnapshot → Text) (from_str : Text → Option TaskSnapshot) (now : Text)
    (w : Write) where
  -- `persist` where the task was interrupted.
  unfoldable pub persist_interrupted : TaskRecord → Result StoreError TaskRecord
  unfolding persist
  persist_interrupted r =
      let (r', written) = persist to_vec w r in
      if not (is_interrupted r.state.status)
      then ok r
      else if written
      then ok r'
      else err not_written

  -- The record of a task's directory before anything is written.
  unfoldable pub reopen : DirEntry → TaskSnapshot → TaskRecord
  reopen entry s = refresh_output_sizes (new_record (close now s) entry.directory)

  unfoldable pub recover_found :
      DirEntry → Option TaskSnapshot → Result StoreError (Option TaskRecord)
  recover_found entry none = ok none
  recover_found entry (some s) = persist_interrupted (reopen entry s) >>= λ r. ok (some r)

  -- A round of the loop; `none` where the entry is skipped.
  unfoldable pub recover_entry : DirEntry → Result StoreError (Option TaskRecord)
  recover_entry entry =
      if not entry.is_dir
      then ok none
      else read_latest_snapshot from_str entry.directory.events >>= recover_found entry

  unfoldable pub put_some : TaskStore → Option TaskRecord → TaskStore
  unfolding put
  put_some s none = s
  put_some s (some r) = put s r

  -- The loop over the entries; the first error ends it.
  unfoldable pub recover : TaskStore → List DirEntry → Result StoreError TaskStore
  unfolding recover_entry put_some
  recover s [] = ok s
  recover s (entry ∷ rest) = recover_entry entry >>= λ found. recover (put_some s found) rest
