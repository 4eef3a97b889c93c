-- ===== src/Tests/Process.antt =====
-- src/process at concrete inputs.
use command_api.Prelude.{
  ℕ, ◌≤◌, ◌^◌, ◌-◌, min, ◌≡◌, refl, Text, bytes, true, false, none, List, [], ◌∷◌, ◌++◌, ok, take,
  ap, arith,
}
use command_api.Config.{utf8}
use command_api.Model.{
  OutputStream, TaskStatus, starting, stopping, timed_out, killed, StopReason, cancelled,
}
use command_api.Model
use command_api.Store.{TaskRecord, Write, whole, transition, persist, snapshot}
use command_api.Process.Capture.{capture, copy_round, write_piece}
use command_api.Process.Capture.Bounds.{stored, capture-stored, IsExact, capture-IsExact}
use command_api.Process.Capture.Contents.{log_of, capture_complete, capture_prefix}
use command_api.Process.Run.{
  add_to_instant, Answers, Run, Wait, WorkerWait, TreeWait, start_task, run_task, publish,
  await_end, stop_process, await_worker, force_stop_process, settle, drop_permits, finish,
  graceful_stop, forced_stop, final_status,
}
use command_api.Process.Run.Outcome.{IsOutcome, run_task-IsOutcome}
use command_api.Process.Run.Trace.{IsAt, IsEnded}
use command_api.Process.Run.Ends.{start_task-IsEnded}
use command_api.Tests.Samples.{sample, files, task, write_line}

abbrev fresh : TaskRecord
fresh = task (sample starting utf8 none) (files [] [] none)

-- Two readers, whose output of seven bytes is cut at five.
abbrev rounds : List (OutputStream × Text × Write)
rounds =
    (Model.stdout, 1 ∷ 2 ∷ [], whole)
    ∷ (Model.stderr, 3 ∷ [], whole)
    ∷ (Model.stdout, 4 ∷ 5 ∷ 6 ∷ 7 ∷ [], whole)
    ∷ []

captured_run : log_of Model.stdout (capture 5 fresh rounds) ≡ 1 ∷ 2 ∷ 4 ∷ 5 ∷ []
unfolding capture copy_round write_piece
captured_run = refl

capture-stored_example :
    (stored (capture 5 fresh rounds) ≤ min 5 7) × ((capture 5 fresh rounds).captured_bytes ≡ 7)
capture-stored_example = capture-stored 5 fresh rounds (omega arith) (omega arith)

fresh-IsExact : IsExact 5 fresh
fresh-IsExact = record {
  total = refl;
  stdout = refl;
  stderr = refl;
  combined = refl;
  truncated = refl;
}

capture-IsExact_example : IsExact 5 (capture 5 fresh rounds)
capture-IsExact_example =
    capture-IsExact 5 fresh rounds (refl, (refl, (refl, tt))) (omega arith) fresh-IsExact

capture_complete_example : log_of Model.stdout (capture 9 fresh rounds) ≡ 1 ∷ 2 ∷ 4 ∷ 5 ∷ 6 ∷ 7 ∷ []
capture_complete_example =
    capture_complete 9 Model.stdout fresh rounds (omega arith) (refl, (refl, (refl, tt)))
      (omega arith)

capture_prefix_example :
    (n : ℕ) × (log_of Model.stdout (capture 5 fresh rounds)
      ≡ [] ++ take n (1 ∷ 2 ∷ 4 ∷ 5 ∷ 6 ∷ 7 ∷ []))
capture_prefix_example =
    capture_prefix 5 Model.stdout fresh rounds (refl, (refl, (refl, tt))) (omega arith)

-- A task that runs past its deadline, ignores the request to end, and is killed on request.
abbrev pub stubborn : Answers
stubborn = record {
  windows = false;
  execution_seconds = 5;
  graceful_seconds = 3;
  last_instant = 2 ^ 63 - 1;
  running_at = 2;
  stopping_at = 7;
  started_at = bytes "2";
  finished_at = bytes "9";
  setup = ok tt;
  first = Wait.deadline;
  graceful_sent = true;
  worker = WorkerWait.force_asked;
  tree = TreeWait.emptied;
  force_sent = true;
  forced_exit = ok (record { code = none });
  forced_empty = ok tt;
  stopped_empty = ok tt;
  descendants_ended = true;
  outputs = ok tt;
  running_write = whole;
  stopping_write = whole;
  forced_write = whole;
  overrun_write = whole;
  final_write = whole;
  failed_write = whole;
}

abbrev new_run : Run
new_run = record { task = fresh; permits = true; published = [] }

new_run-IsAt : IsAt starting true new_run
new_run-IsAt = record { status = refl; permits = refl; legal = tt; shown = refl; released = tt }

start_task-IsEnded_example : IsEnded (start_task (write_line []) stubborn new_run)
start_task-IsEnded_example =
    start_task-IsEnded (write_line []) stubborn (omega arith, omega arith) new_run new_run-IsAt

running_on : Unit {0}
unfolding run_task add_to_instant publish await_end stop_process await_worker force_stop_process
    settle drop_permits transition persist snapshot finish graceful_stop forced_stop final_status
running_on = tt

-- The whole run of that task succeeds.
stubborn_ok : (run_task (write_line []) stubborn new_run).0 ≡ ok tt
unfolding running_on
stubborn_ok = refl

abbrev stubborn_end : Run
stubborn_end = (run_task (write_line []) stubborn new_run).1

stubborn_killed : stubborn_end.task.state.status ≡ killed
unfolding running_on
stubborn_killed = refl

run_task-IsOutcome_example : IsOutcome stubborn stubborn_end.task.state
run_task-IsOutcome_example =
    run_task-IsOutcome (write_line []) stubborn new_run stubborn_end refl
      (ap (λ r. (r, stubborn_end)) stubborn_ok)

-- A time limit of 2^63 seconds.
abbrev endless : Answers
endless = record stubborn { execution_seconds = 2 ^ 63 }
