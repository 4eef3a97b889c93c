-- ===== src/Tests/Store.antt =====
-- src/store.rs at concrete inputs.
use command_api.Prelude.{
  ◌^◌, ◌≡◌, ◌≢◌, refl, Text, bytes, text_eq, true, false, none, some, List, [], ◌∷◌, ◌++◌, ok, err,
  take, arith, lookup, insert, remove, if◌then◌else◌,
}
use command_api.Config.{utf8, utf16le}
use command_api.Model.{
  OutputChunk, OutputStream, TaskSnapshot, is_finished, running, succeeded, starting, OutputMode,
  interrupted, service_restarted,
}
use command_api.Model
use command_api.Store.{
  TaskStore, TaskRecord, whole, torn, not_utf8, snapshot, get, put, persist, transition, new_record,
}
use command_api.Store.Events.{is_utf8, read_latest_snapshot, read_lines, lines, trim_line}
use command_api.Store.Events.Laws.{IsLog}
use command_api.Store.Events.Persist.{IsWritable, transition-IsLog, persist_torn}
use command_api.Store.Recover.{
  DirEntry, recover, recover_entry, recover_found, reopen, close, refresh_output_sizes,
  persist_interrupted, put_some,
}
use command_api.Store.Recover.Laws.{recover_entry-output_truncated, recover_torn_character}
use command_api.Store.Cleanup.{cleanup_expired}
use command_api.Store.Cleanup.Ticks.{spawn_cleanup, last_tick, spawn_cleanup_last}
use command_api.Store.Cleanup.Laws.{unless_aged, cleanup_retention_overflow}
use command_api.Store.Output.{chunk_of, output_chunk}
use command_api.Store.Output.Laws.{IsSlice, output_chunk-IsSlice}
use command_api.Store.Output.Polling.{poll, Decodes, concat, Fits, poll_reads_all}
use command_api.Store.Output.Progress.{start, utf16le_odd_never_eof}
use command_api.Tests.Samples.{
  sample, files, task, store, write_line, read_line, no_decoding, no_base64, parse_time,
}

running_recovery : Unit {0}
unfolding recover recover_entry recover_found reopen close refresh_output_sizes persist_interrupted
    put_some read_latest_snapshot read_lines lines trim_line is_utf8 new_record persist put lookup
    insert remove text_eq
running_recovery = tt

abbrev odd_task : TaskRecord
odd_task = task (sample succeeded utf16le (some (9 ∷ []))) (files (1 ∷ 2 ∷ 3 ∷ []) [] none)

abbrev odd_store : TaskStore
odd_store = store odd_task 60

abbrev odd_chunk : OutputChunk
odd_chunk =
    unfold chunk_of in chunk_of no_decoding no_base64 7 odd_task Model.stdout (1 ∷ 2 ∷ 3 ∷ []) 0 10

odd_answer : output_chunk no_decoding no_base64 odd_store 7 Model.stdout 0 10 ≡ ok odd_chunk
unfolding output_chunk lookup chunk_of
odd_answer = refl

output_chunk-IsSlice_example : IsSlice no_decoding no_base64 odd_store 7 Model.stdout 0 10 odd_chunk
output_chunk-IsSlice_example =
    output_chunk-IsSlice no_decoding no_base64 odd_store 7 Model.stdout 0 10 odd_chunk odd_answer

odd_found : get odd_store 7 ≡ some odd_task
unfolding get lookup
odd_found = refl

-- A finished task whose output is polled by two bytes.
abbrev done_task : TaskRecord
done_task = task (sample succeeded utf8 (some (9 ∷ []))) (files (1 ∷ 2 ∷ 3 ∷ []) [] none)

abbrev done_store : TaskStore
done_store = store done_task 60

done_found : get done_store 7 ≡ some done_task
unfolding get lookup
done_found = refl

polled_twice :
    poll no_decoding no_base64 done_store 7 Model.stdout 2 4 0
    ≡ some (
        chunk_of no_decoding no_base64 7 done_task Model.stdout (1 ∷ 2 ∷ 3 ∷ []) 0 2
        ∷ chunk_of no_decoding no_base64 7 done_task Model.stdout (1 ∷ 2 ∷ 3 ∷ []) 2 2
        ∷ [])
unfolding poll output_chunk lookup chunk_of
polled_twice = refl

poll_reads_all_example :
    (cs : List OutputChunk) × (pieces : List Text) × (poll no_decoding no_base64 done_store 7
        Model.stdout 2 4 0
      ≡ some cs)
    × Decodes no_decoding done_task.state.output_encoding cs pieces
    × (concat pieces ≡ 1 ∷ 2 ∷ 3 ∷ [])
unfolding Fits
poll_reads_all_example =
    poll_reads_all no_decoding no_base64 done_store 7 done_task Model.stdout (1 ∷ 2 ∷ 3 ∷ []) 2
      done_found refl refl refl (omega arith) (omega arith)

utf16le_odd_never_eof_example : odd_chunk.eof ≡ false
utf16le_odd_never_eof_example =
    utf16le_odd_never_eof no_decoding no_base64 odd_store 7 odd_task Model.stdout (1 ∷ 2 ∷ 3 ∷ [])
      10 odd_chunk odd_found refl refl refl start odd_answer

-- A line of one character of three bytes.
abbrev line : Text
line = 0xe6 ∷ 0x96 ∷ 0x87 ∷ []

abbrev live : TaskSnapshot
live = sample running utf8 none

abbrev live_task : TaskRecord
live_task = task live (files [] [] none)

line-IsWritable : IsWritable (write_line line) (read_line line live) (snapshot live_task)
unfolding is_utf8 text_eq snapshot
line-IsWritable = record { read_back = refl; one_line = refl; no_cr = refl; utf8 = refl }

transition-IsWritable :
    IsWritable
      (write_line line)
      (read_line line live)
      (snapshot (transition (write_line line) whole (λ s. s) live_task).0)
unfolding is_utf8 text_eq snapshot transition
transition-IsWritable = record { read_back = refl; one_line = refl; no_cr = refl; utf8 = refl }

empty-IsLog : IsLog (read_line line live) live_task.directory.events none
unfolding read_latest_snapshot
empty-IsLog = (refl, refl)

line_cut : read_line line live (take 1 (write_line line (snapshot live_task))) ≡ none
unfolding text_eq
line_cut = refl

line_torn : is_utf8 (take 1 (write_line line (snapshot live_task))) ≡ false
unfolding is_utf8
line_torn = refl

transition-IsLog_example :
    IsLog
      (read_line line live)
      (transition (write_line line) whole (λ s. s) live_task).0.directory.events
      (some (snapshot (transition (write_line line) whole (λ s. s) live_task).0))
transition-IsLog_example =
    transition-IsLog (write_line line) (read_line line live) live_task none (λ s. s) empty-IsLog
      transition-IsWritable

persist_torn_example :
    read_latest_snapshot
      (read_line line live)
      (persist (write_line line) (torn 1) live_task).0.directory.events
    ≡ (if is_utf8 (take 1 line) then ok none else err not_utf8)
persist_torn_example =
    persist_torn (write_line line) (read_line line live) live_task none 1 empty-IsLog
      line-IsWritable (omega arith) line_cut

recover_torn_character_example :
    recover (write_line line) (read_line line live) (bytes "9") whole (store live_task 60) (
      record {
        is_dir = true;
        directory = (persist (write_line line) (torn 1) live_task).0.directory;
      }
      ∷ [])
    ≢ ok (store live_task 60)
recover_torn_character_example =
    recover_torn_character (write_line line) (read_line line live) (bytes "9") whole [] []
      (store live_task 60) (store live_task 60) live_task none 1 empty-IsLog line-IsWritable
      (omega arith) line_cut line_torn

-- Recovery of a task that was running.
abbrev disk : List DirEntry
disk =
    record { is_dir = false; directory = files [] [] none }
    ∷ record { is_dir = true; directory = files (1 ∷ []) [] (some (line ++ 10 ∷ [])) }
    ∷ []

abbrev no_tasks : TaskStore
no_tasks = record { max_output_bytes = 10; retention_seconds = 60; tasks = []; active_count = 0 }

abbrev recovered_task : TaskRecord
recovered_task =
    record (task
      (record live {
        status = interrupted;
        finished_at = some (bytes "9");
        error = some service_restarted;
      })
      (files (1 ∷ []) [] (some (line ++ 10 ∷ (line ++ 10 ∷ []))))) {
        stdout_bytes = 1;
        captured_bytes = 1;
      }

abbrev recovered : TaskStore
recovered = record no_tasks { tasks = (7, recovered_task) ∷ [] }

recover_run :
    recover (write_line line) (read_line line live) (bytes "9") whole no_tasks disk ≡ ok recovered
unfolding running_recovery
recover_run = refl

recover_entry_run :
    recover_entry
      (write_line line)
      (read_line line live)
      (bytes "9")
      whole
      (record { is_dir = true; directory = files (1 ∷ []) [] (some (line ++ 10 ∷ [])) })
    ≡ ok (some recovered_task)
unfolding running_recovery
recover_entry_run = refl

recover_entry-output_truncated_example : (snapshot recovered_task).output_truncated ≡ false
recover_entry-output_truncated_example =
    recover_entry-output_truncated (write_line line) (read_line line live) (bytes "9") whole
      (record { is_dir = true; directory = files (1 ∷ []) [] (some (line ++ 10 ∷ [])) })
      recovered_task recover_entry_run

-- The cleanup at 20 and at 100 seconds, of a task that finished at 9 nanoseconds.
spawn_cleanup_last_example :
    get (spawn_cleanup parse_time (20000000000 ∷ 100000000000 ∷ []) odd_store) 7
    ≡ unless_aged parse_time
        (last_tick 20000000000 (100000000000 ∷ []))
        odd_store.retention_seconds
        (get odd_store 7)
unfolding lookup
spawn_cleanup_last_example =
    spawn_cleanup_last parse_time 20000000000 (100000000000 ∷ []) odd_store 7 (refl, refl, tt)
      (omega arith) (omega arith) (omega arith, tt)

abbrev patient_store : TaskStore
patient_store = store odd_task (2 ^ 63)

patient_found : get patient_store 7 ≡ some odd_task
unfolding get lookup
patient_found = refl

cleanup_retention_overflow_example : get (cleanup_expired parse_time 9 patient_store) 7 ≡ none
unfolding lookup
cleanup_retention_overflow_example =
    cleanup_retention_overflow parse_time 9 patient_store 7 odd_task (9 ∷ []) 9 (refl, refl, tt)
      (omega arith) (omega arith) patient_found refl refl (omega arith)
