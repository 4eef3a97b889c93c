-- ===== src/Runtime/Laws.antt =====
-- src/runtime.rs, `run`: what holds of each round of a service that has ended well.
use command_api.Prelude.{
  ℕ, Text, text_eq, Bool, true, false, not, ◌≡◌, refl, ap, ◌∙◌, subst, Option, none, some, List, [],
  ◌∷◌, Result, ok, err, >>=-eq-ok, eq_of_ok, bail_if, bail_if-not, map_err, All,
}
use command_api.Config.{Config}
use command_api.Config.Resolve.{World, ConfigError, ResolvedConfig, load}
use command_api.Model.{
  StopReason, server_restart, server_shutdown, force_killed, TaskSnapshot, Parse,
}
use command_api.Store.{TaskStore, cancel_all, is_idle}
use command_api.Store.Open.{open_store}
use command_api.Store.Idle.{Wait, returned, Reachable}
use command_api.Store.Idle.Laws.{wait_until_idle_true}
use command_api.Runtime.Console.{LogOutput, init_logging}
use command_api.Runtime.Tls.{Pem}
use command_api.Runtime.{
  NextAction, stop, restart, RuntimeError, bad_config, not_opened, bad_tls, log_directory_changed,
  server_failed, choose_action, stop_reason, join_servers, Round, after_force, after_wait,
  end_tasks, Ended, load_tls, run_round, run_rounds, after_logging, run,
}

-- An answer of a wait that some course of events of `wait_until_idle` has.
abbrev pub IsWait : (TaskStore → TaskStore × Bool) → Type 0
IsWait wait =
    (s : TaskStore)
    → (a : Wait) × Reachable s a × (a.store ≡ (wait s).0) × (a.waiter ≡ returned (wait s).1)

abbrev pub HasWaits : Round → Type 0
HasWaits r =
    ((seconds : ℕ) → IsWait (r.wait_until_idle seconds))
    × ((seconds : ℕ) → IsWait (r.wait_after_force seconds))

-- A round that ended with the directory of the logs as at the start, and with no task at work.
pub record IsRound (logging_directory : Text) (e : Ended) : Type 0 where
  pub directory : text_eq e.config.logging.directory logging_directory ≡ true
  pub idle : is_idle e.store ≡ true

abbrev pub AreRestarts : (logging_directory : Text) → List Ended → Type 0
AreRestarts logging_directory es =
    All (λ e. IsRound logging_directory e × (e.reason ≡ server_restart)) es

-- The rounds of a service that has ended, the last one first.
abbrev pub IsRun : (logging_directory : Text) → List Ended → Type 0
IsRun logging_directory [] = ⊥
IsRun logging_directory (e ∷ es) =
    IsRound logging_directory e × (e.reason ≡ server_shutdown) × AreRestarts logging_directory es

wait-is_idle :
    (wait : TaskStore → TaskStore × Bool)
    → IsWait wait
    → (s : TaskStore) → (wait s).1 ≡ true
    → is_idle (wait s).0 ≡ true
wait-is_idle wait h s e =
    let (a, r, store, waiter) = h s in
    subst (λ t. is_idle t ≡ true) store (wait_until_idle_true s a r (waiter ∙ ap returned e))

after_force-is_idle :
    (x : TaskStore × Bool) (left : TaskStore)
    → (x.1 ≡ true → is_idle x.0 ≡ true)
    → after_force x ≡ ok left
    → is_idle left ≡ true
after_force-is_idle (last, true) left h e = subst (λ t. is_idle t ≡ true) (eq_of_ok e) (h refl)
after_force-is_idle (last, false) left h e = cc

after_wait-is_idle :
    (r : Round) (x : TaskStore × Bool) (left : TaskStore)
    → HasWaits r
    → (x.1 ≡ true → is_idle x.0 ≡ true)
    → after_wait r x ≡ ok left
    → is_idle left ≡ true
after_wait-is_idle r (last, true) left w h e = subst (λ t. is_idle t ≡ true) (eq_of_ok e) (h refl)
after_wait-is_idle r (last, false) left w h e =
    after_force-is_idle (r.wait_after_force 5 (cancel_all last force_killed)) left
      (wait-is_idle (r.wait_after_force 5) (w.1 5) (cancel_all last force_killed)) e

end_tasks-is_idle :
    (r : Round) (seconds : ℕ) (reason : StopReason) (store left : TaskStore)
    → HasWaits r
    → end_tasks r seconds reason store ≡ ok left
    → is_idle left ≡ true
unfolding end_tasks
end_tasks-is_idle r seconds reason store left w e =
    after_wait-is_idle r (r.wait_until_idle seconds (cancel_all store reason)) left w
      (wait-is_idle (r.wait_until_idle seconds) (w.0 seconds) (cancel_all store reason)) e

module _ {Cert Key : Type 0} (to_vec : TaskSnapshot → Text) (from_str : Text → Option TaskSnapshot)
    (parse : Parse) (p : Pem Cert Key) where
  run_round-IsRound :
      (logging_directory : Text) (config : ResolvedConfig) (r : Round) (action : NextAction)
      (ended : Ended)
      → HasWaits r
      → run_round to_vec from_str parse p logging_directory config r ≡ ok (action, ended)
      → IsRound logging_directory ended × (ended.reason ≡ stop_reason action)
  unfolding run_round
  run_round-IsRound logging_directory config r action ended w e =
      let (u, a1, e1) =
        >>=-eq-ok
          (bail_if (not (text_eq config.logging.directory logging_directory)) log_directory_changed)
          _ e in
      let (store, a2, e2) =
        >>=-eq-ok
          (map_err not_opened (
            open_store to_vec from_str parse r.now_text r.now config.logging.retention_seconds
              config.logging.max_output_bytes_per_task r.opening))
          _ e1 in
      let (u3, a3, e3) =
        >>=-eq-ok (map_err bad_tls (load_tls to_vec from_str parse p config)) _ e2 in
      let (u4, a4, e4) = >>=-eq-ok (bail_if (not (join_servers r.listeners)) server_failed) _ e3 in
      let (left, a5, e5) =
        >>=-eq-ok
          (end_tasks r config.execution.shutdown_timeout_seconds
            (stop_reason (choose_action r.already_shut_down r.selected)) (r.served store))
          _ e4 in
      subst (λ q. IsRound logging_directory q.1 × (q.1.reason ≡ stop_reason q.0)) (eq_of_ok e5)
        (
          record {
            directory = bail_if-not _ _ a1;
            idle =
                end_tasks-is_idle r config.execution.shutdown_timeout_seconds
                  (stop_reason (choose_action r.already_shut_down r.selected)) (r.served store) left
                  w a5;
          },
          refl,
        )

  run_rounds-IsRun :
      (logging_directory : Text) (rounds : List Round) (config : ResolvedConfig)
      (so_far es : List Ended)
      → All HasWaits rounds
      → AreRestarts logging_directory so_far
      → run_rounds to_vec from_str parse p logging_directory config so_far rounds ≡ some (ok es)
      → IsRun logging_directory es
  unfolding run_rounds stop_reason
  run_rounds-IsRun d [] config so_far es w s e = cc
  run_rounds-IsRun d (r ∷ rest) config so_far es (here, w) s e =
      by_round
        (λ next_config ended is. run_rounds-IsRun d rest next_config (ended ∷ so_far) es w (is, s))
        (run_round to_vec from_str parse p d config r) refl e
    where
      by_round :
          ((next_config : ResolvedConfig) (ended : Ended)
            → IsRound d ended × (ended.reason ≡ server_restart)
            → run_rounds to_vec from_str parse p d next_config (ended ∷ so_far) rest ≡ some (ok es)
            → IsRun d es)
          → (x : Result RuntimeError (NextAction × Ended))
          → run_round to_vec from_str parse p d config r ≡ x
          → (elim x [
            | err f ↦ some (err f)
            | ok (action, ended) ↦ elim action [
              | stop ↦ some (ok (ended ∷ so_far))
              | restart next_config ↦
                  run_rounds to_vec from_str parse p d next_config (ended ∷ so_far) rest
            ]
          ])
            ≡ some (ok es)
          → IsRun d es
      by_round more (err f) same q = cc
      by_round more (ok (stop, ended)) same q =
          let (is, reason) = run_round-IsRound d config r stop ended here same in
          let all : ended ∷ so_far ≡ es = cc in subst (IsRun d) all (is, reason, s)
      by_round more (ok (restart next_config, ended)) same q =
          more next_config ended
            (run_round-IsRound d config r (restart next_config) ended here same) q

  -- A service that ends well, whatever it meets in its rounds, if its waits answer as some course of
  -- events of `wait_until_idle` does: it started with a configuration that was accepted, every round
  -- had that configuration's directory of logs, no task was at work when a round ended, every round
  -- but the last ended by a restart, and the last one by a shutdown.
  pub run-IsRun :
      (w : World) (read_to_string : Text → Option Text) (from_yaml : Text → Option Config)
      (config_path : Text) (log_to_console : Bool) (env_filter : Option Text) (installed : Bool)
      (rounds : List Round) (es : List Ended)
      → All HasWaits rounds
      → run to_vec from_str parse p w read_to_string from_yaml config_path log_to_console env_filter
          installed rounds
        ≡ some (ok es)
      → (c : ResolvedConfig) × (load w read_to_string from_yaml config_path ≡ ok c)
        × IsRun c.logging.directory es
  unfolding run
  run-IsRun w read_to_string from_yaml config_path log_to_console env_filter installed rounds es h
        e =
      let (c, found, started) = by_config (load w read_to_string from_yaml config_path) e in
      (c, found, run_rounds-IsRun c.logging.directory rounds c [] es h tt started)
    where
      by_logging :
          (c : ResolvedConfig) (log : Option LogOutput)
          → after_logging to_vec from_str parse p c rounds log ≡ some (ok es)
          → run_rounds to_vec from_str parse p c.logging.directory c [] rounds ≡ some (ok es)
      by_logging c none q = cc
      by_logging c (some log) q = q

      by_config :
          (x : Result ConfigError ResolvedConfig)
          → (elim x [
            | err f ↦ some (err (bad_config f))
            | ok c ↦
                after_logging to_vec from_str parse p c rounds
                  (init_logging c.logging.directory log_to_console env_filter installed)
          ])
            ≡ some (ok es)
          → (left : ResolvedConfig) × (x ≡ ok left)
            × (run_rounds to_vec from_str parse p left.logging.directory left [] rounds
                ≡ some (ok es))
      by_config (err f) q = cc
      by_config (ok c) q = (c, refl, by_logging c _ q)
