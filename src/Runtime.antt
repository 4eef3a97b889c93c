-- ===== src/Runtime.antt =====
-- src/runtime.rs, `run`: the life of the service, from one configuration to the next. A round is the
-- life of one configuration.
pub mod Tls
pub mod Laws
pub mod Lock
pub mod Console
use command_api.Prelude.{
  ℕ, Text, text_eq, Bool, true, false, not, ◌&&◌, ◌||◌, Option, none, some, List, [], ◌∷◌, Result,
  ok, err, ◌>>=◌, ◌>>◌, bail_if, map_err, if◌then◌else◌,
}
use command_api.Config.{Config}
use command_api.Config.Resolve.{World, ConfigError, ResolvedConfig, load}
use command_api.Model.{
  StopReason, server_restart, server_shutdown, force_killed, TaskSnapshot, Parse,
}
use command_api.Store.{TaskStore, cancel_all}
use command_api.Store.Open.{OpenError, Opening, open_store}
use command_api.Runtime.Console.{LogOutput, init_logging}
use command_api.Runtime.Tls.{TlsError, Pem, load_tls_config}

-- A management action, with the configuration of a restart.
pub data NextAction : Type 0 where
  stop : NextAction
  restart : ResolvedConfig → NextAction

pub data RuntimeError : Type 0 where
  bad_config : ConfigError → RuntimeError
  no_logging log_directory_changed server_failed still_running : RuntimeError
  not_opened : OpenError → RuntimeError
  bad_tls : TlsError → RuntimeError

-- What `select!` gives first: the signal to shut down, or what the management channel receives.
pub data Selected : Type 0 where
  external_shutdown : Selected
  received : Option NextAction → Selected

abbrev or_stop : Option NextAction → NextAction
or_stop none = stop
or_stop (some action) = action

unfoldable pub choose_action : (already_shut_down : Bool) → Selected → NextAction
choose_action true selected = stop
choose_action false external_shutdown = stop
choose_action false (received action) = or_stop action

unfoldable pub stop_reason : NextAction → StopReason
stop_reason stop = server_shutdown
stop_reason (restart next_config) = server_restart

-- `join_next` until no listener is left, each with whether it ended well.
unfoldable pub join_servers : List Bool → Bool
join_servers [] = true
join_servers (ended_well ∷ rest) = ended_well && join_servers rest

-- What the program meets in a round. `served` is what requests and executors make of the store until
-- the servers have ended; a wait of some seconds gives the store after it, and whether it is idle.
pub record Round : Type 0 where
  pub now_text : Text
  pub now : ℕ
  pub opening : Opening
  pub listeners : List Bool
  pub already_shut_down : Bool
  pub selected : Selected
  pub served : TaskStore → TaskStore
  pub wait_until_idle : (seconds : ℕ) → TaskStore → TaskStore × Bool
  pub wait_after_force : (seconds : ℕ) → TaskStore → TaskStore × Bool

abbrev after_force : TaskStore × Bool → Result RuntimeError TaskStore
after_force (last, true) = ok last
after_force (last, false) = err still_running

abbrev after_wait : Round → TaskStore × Bool → Result RuntimeError TaskStore
after_wait r (left, true) = ok left
after_wait r (left, false) = after_force (r.wait_after_force 5 (cancel_all left force_killed))

-- From the end of the servers to the end of the tasks.
unfoldable pub end_tasks :
    Round → (shutdown_timeout_seconds : ℕ) → StopReason → TaskStore → Result RuntimeError TaskStore
unfolding cancel_all
end_tasks r shutdown_timeout_seconds reason store =
    after_wait r (r.wait_until_idle shutdown_timeout_seconds (cancel_all store reason))

-- What is left of a round.
pub record Ended : Type 0 where
  pub config : ResolvedConfig
  pub reason : StopReason
  pub store : TaskStore

module _ {Cert Key : Type 0} (to_vec : TaskSnapshot → Text) (from_str : Text → Option TaskSnapshot)
    (parse : Parse) (p : Pem Cert Key) where
  -- `config.tls.as_ref().map(load_tls_config).transpose()`
  abbrev load_tls : ResolvedConfig → Result TlsError (Unit {0})
  load_tls config = elim config.tls [
    | none ↦ ok tt
    | some tls ↦ load_tls_config p tls >>= λ server. ok tt
  ]

  unfoldable pub run_round :
      (logging_directory : Text) → ResolvedConfig → Round → Result RuntimeError (NextAction × Ended)
  unfolding open_store load_tls_config join_servers choose_action stop_reason end_tasks
  run_round logging_directory config r = do
    bail_if (not (text_eq config.logging.directory logging_directory)) log_directory_changed
    store ← map_err not_opened (
        open_store to_vec from_str parse r.now_text r.now config.logging.retention_seconds
          config.logging.max_output_bytes_per_task r.opening)
    map_err bad_tls (load_tls config)
    bail_if (not (join_servers r.listeners)) server_failed
    left ←
        end_tasks r config.execution.shutdown_timeout_seconds
          (stop_reason (choose_action r.already_shut_down r.selected)) (r.served store)
    ok (
      choose_action r.already_shut_down r.selected,
      record {
        config = config;
        reason = stop_reason (choose_action r.already_shut_down r.selected);
        store = left;
      },
    )

  -- The loop; `none` while the service still runs.
  unfoldable pub run_rounds :
      (logging_directory : Text)
      → ResolvedConfig
      → (so_far : List Ended) → List Round
      → Option (Result RuntimeError (List Ended))
  run_rounds logging_directory config so_far [] = none
  run_rounds logging_directory config so_far (r ∷ rest) =
      elim (run_round logging_directory config r) [
        | err e ↦ some (err e)
        | ok (action, ended) ↦ elim action [
          | stop ↦ some (ok (ended ∷ so_far))
          | restart next_config ↦ run_rounds logging_directory next_config (ended ∷ so_far) rest
        ]
      ]

  abbrev pub after_logging :
      ResolvedConfig → List Round → Option LogOutput → Option (Result RuntimeError (List Ended))
  after_logging c rounds none = some (err no_logging)
  after_logging c rounds (some log) = run_rounds c.logging.directory c [] rounds

  unfoldable pub run :
      World
      → (read_to_string : Text → Option Text) → (from_yaml : Text → Option Config)
      → (config_path : Text) → (log_to_console : Bool) → (env_filter : Option Text)
      → (installed : Bool) → List Round
      → Option (Result RuntimeError (List Ended))
  unfolding load init_logging run_rounds
  run w read_to_string from_yaml config_path log_to_console env_filter installed rounds =
      elim (load w read_to_string from_yaml config_path) [
        | err e ↦ some (err (bad_config e))
        | ok c ↦
            after_logging c rounds
              (init_logging c.logging.directory log_to_console env_filter installed)
      ]
