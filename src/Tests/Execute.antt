-- ===== src/Tests/Execute.antt =====
-- src/app.rs, the handlers, at concrete inputs.
use command_api.Prelude.{
  ◌≡◌, refl, Text, bytes, text_eq, Bool, true, false, none, some, List, [], ◌∷◌, ◌++◌, ok, err,
  lookup, insert, remove,
}
use command_api.Config.{utf8}
use command_api.Config.Arguments.{validate_request_args, check_args}
use command_api.Model.{starting, running, TaskSnapshot, cancelled}
use command_api.Store.{
  TaskStore, TaskRecord, whole, get, put, request_stop, request_stop_now, snapshot, create,
  new_record, persist,
}
use command_api.Store.Laws.{IsKeyed}
use command_api.App.Execute.{
  AppState, build, collect_routes, admit, create_task, execute, route_concurrency_limit,
}
use command_api.App.Execute.Permits.{
  System, Phase, Reachable, IsBalanced, job, step, start, admitted, created,
}
use command_api.App.Execute.Balance.{Reachable-IsBalanced}
use command_api.App.Handlers.{ManagementAction, stop, restart, stop_task}
use command_api.Tests.Samples.{resolved, task, sample, files, store, write_line}

abbrev pub to_vec : TaskSnapshot → Text
to_vec = write_line (bytes "{}")

abbrev pub idle : TaskStore
idle = record { max_output_bytes = 10; retention_seconds = 60; tasks = []; active_count = 0 }

-- A service with two permits, and one route with one permit, all free or all but one of each.
abbrev pub free : AppState
free = record {
  global_limit = 2;
  routes = (bytes "/run", record { config = resolved; limit = 1 }) ∷ [];
  store = idle;
}

abbrev taken : AppState
taken = record {
  global_limit = 1;
  routes = (bytes "/run", record { config = resolved; limit = 0 }) ∷ [];
  store = idle;
}

abbrev pub new_task : TaskRecord
new_task = task (sample starting utf8 none) (files [] [] (some (bytes "{}" ++ 10 ∷ [])))

abbrev pub left : AppState
left = record taken { store = record idle { tasks = (7, new_task) ∷ []; active_count = 1 } }

executing : Unit {0}
unfolding build collect_routes admit create_task execute validate_request_args check_args lookup
    insert remove create new_record persist put snapshot text_eq
executing = tt

built : build 2 (resolved ∷ []) idle ≡ free
unfolding executing
built = refl

one_admitted : admit free (bytes "/run") [] ≡ ok taken
unfolding executing
one_admitted = refl

one_created : create_task to_vec taken (bytes "/run") 7 (bytes "1") true whole ≡ ok (new_task, left)
unfolding executing
one_created = refl

-- A second request for the route is refused while the first task holds its permit.
second_refused :
    execute to_vec left (bytes "/run") [] 8 (bytes "2") true whole ≡ err route_concurrency_limit
unfolding executing
second_refused = refl

abbrev running_system : System
running_system = record { app = left; jobs = job (bytes "/run") Phase.running ∷ [] }

reached : Reachable to_vec 2 (resolved ∷ []) running_system
unfolding executing
reached =
    step (step (start idle refl) (admitted _ (bytes "/run") [] taken one_admitted))
      (created taken left [] [] (bytes "/run") 7 (bytes "1") whole new_task one_created)

Reachable-IsBalanced_example : IsBalanced 2 running_system
Reachable-IsBalanced_example = Reachable-IsBalanced to_vec 2 (resolved ∷ []) running_system reached

abbrev requests : List (Bool × ManagementAction)
requests = (false, stop) ∷ (true, restart) ∷ (true, stop) ∷ []

abbrev live_task : TaskRecord
live_task = task (sample running utf8 none) (files [] [] none)

abbrev asked : TaskStore
asked = store (request_stop_now cancelled live_task) 60

live_stopped : stop_task cancelled (store live_task 60) 7 ≡ ok asked
unfolding executing stop_task get request_stop request_stop_now
live_stopped = refl

live-IsKeyed : IsKeyed (store live_task 60).tasks
unfolding lookup
live-IsKeyed = (refl, refl, tt)
