-- ===== src/Tests/Runtime.antt =====
-- src/runtime.rs and the start and end of src/store.rs at concrete inputs.
use command_api.Prelude.{
  ◌≡◌, ◌∙◌, refl, Option, Text, bytes, text_eq, Bool, true, false, none, some, List, [], ◌∷◌, ok,
  err, lookup, insert, remove, Bool-cases, inl, inr, if◌then◌else◌, arith,
}
use command_api.Config.{Config}
use command_api.Config.Resolve.{ResolvedConfig, ResolvedTlsConfig, load}
use command_api.Model.{
  running, interrupted, service_restarted, TaskSnapshot, server_restart, server_shutdown,
}
use command_api.Store.{
  TaskRecord, TaskStore, whole, get, put, new_record, persist, cancel_all, mark_finished, is_idle,
}
use command_api.Store.Events.{read_latest_snapshot, read_lines, lines, is_utf8, trim_line}
use command_api.Store.Recover.{
  recover, recover_entry, recover_found, reopen, persist_interrupted, put_some, close,
  refresh_output_sizes,
}
use command_api.Store.Cleanup.{cleanup_expired, expired, is_expired, remove_all}
use command_api.Store.Open.{Opening, open_store, empty_store}
use command_api.Store.Open.Laws.{IsOpened, open_store-IsOpened}
use command_api.Store.Idle.{
  asleep, returned, Wait, Step, test_idle, test_active, call_notified, timed_out, fetch_sub, work,
  notify_waiters, wake, Reachable, start, step,
}
use command_api.Store.Idle.Laws.{wait_until_idle_overslept}
use command_api.Runtime.{
  restart, external_shutdown, received, Round, Ended, choose_action, stop_reason, join_servers,
  end_tasks, run_round, run_rounds, run,
}
use command_api.Runtime.Laws.{IsWait, IsRun, run-IsRun}
use command_api.Runtime.Console.{init_logging, ctrl_c, terminate, console_shutdown_signal}
use command_api.Runtime.Tls.{no_ca, Pem, TlsServer, collect_certs, add_roots, load_tls_config}
use command_api.Runtime.Tls.Laws.{IsLoaded, load_tls_config-IsLoaded}
use command_api.Tests.Samples.{sample, files, task, write_line, read_line, parse_time}
use command_api.Tests.Execute.{idle}
use command_api.Tests.Resolve.{world, config_path, accepted, left, config_resolved}
use command_api.Config.{utf8}
use command_api.Secret.{from_token}

-- A certificate and a key are their text, and a file holds one.
abbrev pub pem : Pem Text Text
pem = record {
  open_file = λ path. some path;
  certs = λ file. if text_eq file (bytes "empty.crt") then [] else some file ∷ [];
  private_key = λ file. some (some file);
  add = λ c. true;
  build_verifier = λ roots. true;
  matches = λ certificates key. true;
}

abbrev tls : ResolvedTlsConfig
tls = record {
  certificate = bytes "server.crt";
  private_key = bytes "server.key";
  client_ca_certificate = bytes "ca.crt";
}

abbrev server : TlsServer Text Text
server = record {
  certificates = bytes "server.crt" ∷ [];
  private_key = bytes "server.key";
  client_roots = bytes "ca.crt" ∷ [];
  alpn_protocols = bytes "h2" ∷ bytes "http/1.1" ∷ [];
}

loading : Unit {0}
unfolding load_tls_config collect_certs add_roots text_eq
loading = tt

tls_loaded : load_tls_config pem tls ≡ ok server
unfolding loading
tls_loaded = refl

empty_ca_refused :
    load_tls_config pem (record tls { client_ca_certificate = bytes "empty.crt" }) ≡ err no_ca
unfolding loading
empty_ca_refused = refl

load_tls_config-IsLoaded_example : IsLoaded pem tls server
load_tls_config-IsLoaded_example = load_tls_config-IsLoaded pem tls server tls_loaded

-- The directory of one task that was running when the service stopped.
abbrev interrupted_task : Opening
interrupted_task = record {
  made = true;
  lock_file = true;
  locked = true;
  entries = record { is_dir = true; directory = files [] [] (some (bytes "{}\n")) } ∷ [];
  write = whole;
}

abbrev pub before : TaskSnapshot
before = sample running utf8 none

opening : Unit {0}
unfolding open_store recover recover_entry recover_found reopen persist_interrupted put_some close
    refresh_output_sizes cleanup_expired expired is_expired remove_all read_latest_snapshot
    read_lines lines is_utf8 trim_line new_record persist put insert remove lookup text_eq get
opening = tt

abbrev reopened : TaskStore
reopened = record {
  max_output_bytes = 10;
  retention_seconds = 60;
  tasks =
      (
        7,
        task
            (record before {
              status = interrupted;
              finished_at = some (5 ∷ []);
              error = some service_restarted;
            })
            (files [] [] (some (bytes "{}\n{}\n"))),
      )
      ∷ [];
  active_count = 0;
}

store_opened :
    open_store
      (write_line (bytes "{}"))
      (read_line (bytes "{}") before)
      parse_time
      (5 ∷ [])
      5
      60
      10
      interrupted_task
    ≡ ok reopened
unfolding opening
store_opened = refl

open_store-IsOpened_example : IsOpened parse_time 5 60 reopened
open_store-IsOpened_example =
    open_store-IsOpened (write_line (bytes "{}")) (read_line (bytes "{}") before) parse_time
      (5 ∷ []) 5 60 10 interrupted_task reopened (omega arith) (omega arith) store_opened

abbrev pub busy : TaskStore
busy = record idle { active_count = 1 }

counting : Unit {0}
unfolding is_idle mark_finished
counting = tt

idle_now : is_idle idle ≡ true
unfolding counting
idle_now = refl

busy_now : is_idle busy ≡ false
unfolding counting
busy_now = refl

wait_until_idle_overslept_example :
    (t : TaskStore) × (is_idle t ≡ true)
    × Reachable busy (record { store = t; finishers = 0; waiter = asleep })
    × ((b : Wait)
        → Step (record { store = t; finishers = 0; waiter = asleep }) b
        → b ≡ record { store = t; finishers = 0; waiter = returned false })
wait_until_idle_overslept_example = wait_until_idle_overslept busy busy_now (omega arith)

-- The executor of task 7 writes its end.
abbrev work_on : TaskStore → Option TaskRecord → TaskStore
work_on s none = s
work_on s (some r) = put s (record r { id = 7; state = record r.state { status = interrupted } })

abbrev worked : TaskStore → TaskStore
worked s = mark_finished (work_on s (get s 7))

-- A wait in which one executor ends its task, and which returns once it has been woken.
abbrev wait : TaskStore → TaskStore × Bool
wait s =
    if is_idle s then (s, true) else if is_idle (worked s) then (worked s, true) else (s, false)

abbrev Sleeps : TaskStore → TaskStore → Type 0
Sleeps s t = Reachable s (record { store = t; finishers = 0; waiter = asleep })

work_on-busy : (s : TaskStore) (o : Option TaskRecord) → is_idle (work_on s o) ≡ is_idle s
unfolding is_idle put
work_on-busy s none = refl
work_on-busy s (some r) = refl

works_on :
    (s : TaskStore) (o : Option TaskRecord)
    → get s 7 ≡ o
    → is_idle s ≡ false
    → Sleeps s s
    → Sleeps s (work_on s o)
works_on s none found e r = r
works_on s (some old) found e r =
    step r (work (record old { id = 7; state = record old.state { status = interrupted } }) e found)

wait-IsWait : IsWait wait
unfolding wake
wait-IsWait s = elim (Bool-cases (is_idle s)) [
  | inl e ↦ rw e (
    record { store = s; finishers = 0; waiter = returned true },
    step start (test_idle e),
    refl,
    refl,
  )
  | inr e ↦
      let sleeping = step (step start (test_active e)) call_notified in
      elim (Bool-cases (is_idle (worked s))) [
        | inr more ↦
            rw (e, more)
              (
                record { store = s; finishers = 0; waiter = returned false },
                step sleeping timed_out,
                refl,
                refl,
              )
        | inl last ↦
            rw (e, last)
              (
                record { store = worked s; finishers = 0; waiter = returned true },
                step
                    (step
                      (step (works_on s (get s 7) refl e sleeping)
                        (fetch_sub (work_on-busy s (get s 7) ∙ e)))
                      notify_waiters)
                    (test_idle last),
                refl,
                refl,
              )
      ]
]

abbrev pub empty_directory : Opening
empty_directory = record {
  made = true;
  lock_file = true;
  locked = true;
  entries = [];
  write = whole;
}

abbrev working_task : TaskRecord
working_task = task (sample running utf8 none) (files [] [] none)

abbrev pub last_round : Round
last_round = record {
  now_text = 5 ∷ [];
  now = 5;
  opening = empty_directory;
  listeners = true ∷ [];
  already_shut_down = false;
  selected = external_shutdown;
  served = λ s. s;
  wait_until_idle = λ seconds. wait;
  wait_after_force = λ seconds. wait;
}

abbrev pub first_round : Round
first_round = record last_round {
  selected = received (some (restart left));
  served = λ s. record (put s working_task) { active_count = 1 };
}

-- The task of the first round as its executor leaves it.
abbrev first_left : TaskStore
first_left = record (empty_store 100 60) {
  tasks =
      (
        7,
        record working_task {
          state = record working_task.state { status = interrupted };
          stop = some server_restart;
        },
      )
      ∷ [];
}

abbrev ended : List Ended
ended =
    record { config = left; reason = server_shutdown; store = empty_store 100 60 }
    ∷ record { config = left; reason = server_restart; store = first_left }
    ∷ []

running_on : Unit {0}
unfolding run_rounds run_round choose_action stop_reason join_servers end_tasks cancel_all
    open_store recover cleanup_expired expired text_eq is_idle put get mark_finished lookup insert
    remove
running_on = tt

two_rounds :
    run_rounds
      (write_line (bytes "{}"))
      (read_line (bytes "{}") before)
      parse_time
      pem
      left.logging.directory
      left
      []
      (first_round ∷ last_round ∷ [])
    ≡ some (ok ended)
unfolding running_on
two_rounds = refl

-- The file of the configuration is parsed by a stand-in.
abbrev from_yaml : Text → Option Config
from_yaml content = some accepted

config_loaded : load world some from_yaml config_path ≡ ok left
unfolding load from_token
config_loaded = rw config_resolved refl

restarted :
    run
      (write_line (bytes "{}"))
      (read_line (bytes "{}") before)
      parse_time
      pem
      world
      some
      from_yaml
      config_path
      true
      none
      true
      (first_round ∷ last_round ∷ [])
    ≡ some (ok ended)
unfolding run from_token init_logging
restarted = rw (run, config_resolved, two_rounds) refl

run-IsRun_example :
    (c : ResolvedConfig) × (load world some from_yaml config_path ≡ ok c)
    × IsRun c.logging.directory ended
run-IsRun_example =
    run-IsRun (write_line (bytes "{}")) (read_line (bytes "{}") before) parse_time pem world some
      from_yaml config_path true none true (first_round ∷ last_round ∷ []) ended
      (
        (λ seconds. wait-IsWait, λ seconds. wait-IsWait),
        ((λ seconds. wait-IsWait, λ seconds. wait-IsWait), tt),
      )
      restarted

sigterm_heard_on_unix :
    (console_shutdown_signal true (terminate ∷ ctrl_c ∷ []) ≡ some (ctrl_c ∷ []))
    × (console_shutdown_signal false (terminate ∷ ctrl_c ∷ []) ≡ some [])
unfolding console_shutdown_signal
sigterm_heard_on_unix = (refl, refl)
