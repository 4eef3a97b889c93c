-- ===== src/Tests/Tasks.antt =====
-- The table of tasks of src/store.rs under a sequence of calls, at concrete inputs.
use command_api.Prelude.{
  ◌≡◌, refl, bytes, ◌∷◌, [], List, some, true, false, arith, lookup, insert, remove, nat_eq,
}
use command_api.Config.{utf8}
use command_api.Model.{separate, cancelled}
use command_api.Store.{
  whole, torn, create, persist, put, new_record, snapshot, request_stop, request_stop_now, get,
  mark_finished, is_idle,
}
use command_api.Store.Cleanup.{cleanup_expired, expired, is_expired, remove_all}
use command_api.Store.Abstract.{
  tasks_of, Call, created, stop_requested, expired_cleaned, marked_finished, looked_up, idle_asked,
  done, found, run, abstract_run,
}
use command_api.Store.Abstract.Steps.{IsStore}
use command_api.Store.Abstract.Laws.{run-abstract_run}
use command_api.Tests.Samples.{parse_time}
use command_api.Tests.Execute.{to_vec, idle, new_task}

-- A task is created and stopped, another one cannot be logged.
abbrev calls : List Call
calls =
    created 7 (bytes "1") true whole (bytes "/run") separate utf8
    ∷ created 8 (bytes "1") true (torn 1) (bytes "/run") separate utf8
    ∷ idle_asked
    ∷ stop_requested 7 cancelled
    ∷ stop_requested 8 cancelled
    ∷ looked_up 7
    ∷ expired_cleaned 9
    ∷ marked_finished
    ∷ idle_asked
    ∷ []

calls_answered :
    (run to_vec parse_time calls idle).0
    ≡ done true
      ∷ done false
      ∷ done false
      ∷ done true
      ∷ done false
      ∷ found (some (record new_task { stop = some cancelled }))
      ∷ done true
      ∷ done true
      ∷ done true
      ∷ []
unfolding run create persist put new_record snapshot request_stop request_stop_now get lookup insert
    remove cleanup_expired expired is_expired remove_all mark_finished is_idle
calls_answered = refl

run-abstract_run_example :
    (((run to_vec parse_time calls idle).0, tasks_of (run to_vec parse_time calls idle).1)
      ≡ abstract_run to_vec parse_time calls (tasks_of idle))
    × IsStore (run to_vec parse_time calls idle).1
run-abstract_run_example =
    run-abstract_run to_vec parse_time calls idle
      (record { keyed = tt; positive = omega arith; small = omega arith })
