-- ===== src/Lib.antt =====
-- command-api: a service that runs configured scripts on request over HTTP and keeps their output.
--
-- A request (src/app.rs) is authenticated by address and token, names a route, and starts a task. The
-- task store (src/store.rs) keeps a record of each task, with an event log and output files in a
-- directory of its own; the executor (src/process/mod.rs) runs the script in a worker process, captures
-- its output into those files, stops it on request or at its deadline, and publishes each status by a
-- transition of the record. Clients read statuses and chunks of output back from the store.
--
-- The runtime (src/runtime.rs) opens the store, serves until a request or a signal ends the service or
-- restarts it with a new configuration (src/config.rs), and then waits for the tasks to end.
--
-- Prelude: shared helpers; lists, results, maps, byte strings and signed integers.
-- Config: src/config.rs, the types and defaults. Config.Routes: `validate_route`. Config.Arguments:
--   `validate_request_args`. Config.Addresses: `resolve_server`, `validate_listeners`,
--   `validate_access`, `validate_service_name` and `normalize_ip`. Config.Paths: `absolute_from` and
--   `absolute_if_path_like`. Config.Resolve: `resolve`, `resolve_token`, `resolve_tls` and
--   `canonical_file`, and `load`.
-- Model: src/model.rs, the snapshot of a task and the shapes of the answers.
-- Store: src/store.rs, `TaskRecord` and `TaskStore`, with `create`, `persist`, `transition`,
--   `request_stop`, `cancel_all` and `mark_finished`. Store.Open: `open`. Store.Events:
--   `read_latest_snapshot`. Store.Recover: `recover` and `refresh_output_sizes`. Store.Cleanup:
--   `cleanup_expired`, with Ticks for `spawn_cleanup`. Store.Output: `output_chunk` and `view`. Store.Idle: `wait_until_idle` and
--   `mark_finished` as the steps of two threads. Store.Abstract: the calls on the store as calls on a
--   function from ids to tasks.
-- Process.Capture: src/process/mod.rs, `Capture::new`, `start_readers` and `copy_output`. Process.Run:
--   `start_task`, `run_task`, `stop_process` and `force_stop_process`, with Courses for the ways in which
--   a task can end and Overflow for deadlines beyond the system's last instant. Process.Worker: `worker_main`,
--   `run_worker` and `build_script_command`. Process.Platform: src/process/platform.rs, process
--   groups on Unix, with Windows for job objects.
-- Secret: src/secret.rs, tokens and verifiers. Secret.Storage: tokens in files that DPAPI protects.
--   Secret.Dpapi: the module `dpapi`.
-- App.Auth: src/app.rs, `authenticate` and the cooldown of addresses after a failed token, with
--   Lasting for an address that is refused while others call.
-- App.Execute: `build` and `execute` with the two semaphores; its child Permits puts all requests and
--   executors together, and Table is about the table of routes of an accepted configuration.
--   App.Router: the router of `build`. App.Handlers: the handlers of tasks and of the service's own
--   endpoints. App.Http: a request from its arrival to its answer, through all of these.
-- Lifecycle: a task from the request for it over its executor to its end.
-- Runtime: src/runtime.rs, `run`. Runtime.Tls: `load_tls_config`. Runtime.Lock: who holds the lock of
--   the directory of logs while executors end and the service restarts. Runtime.Console:
--   `console_shutdown_signal` and `init_logging`.
-- Service: src/service.rs, `status` and the two threads of `run_service_main` as steps. Its
--   child Manager: `install`, `start`, `stop`, `uninstall` and `run`.
-- Cli: src/main.rs, `main`, `read_token` and the commands on secrets; Commands: `run`.
-- Tests: the theorems at concrete inputs, and runs of the definitions.
--
-- State is explicit: an operation of the store takes the store and returns it, a record carries the
-- contents of its directory, and the executor is a monad over one record, its permits and the list of
-- statuses that were seen. What the operating system, the clock and the disk answer is an argument, so
-- that a theorem for all arguments covers every course of events; the readers of a task interleave by
-- the list of their rounds. A write of a line or of output ends whole or after some of its bytes.
--
-- Counters of 64 bits wrap at 2^64. Every loop is structural recursion, over the lines of a log, the
-- entries of a directory, the rounds of the readers, of the worker or of the service, or the arguments
-- of a request, so no definition of the code takes fuel; a client that polls an output has one query
-- more than the file has bytes, which is shown to be enough. A loop over rounds that has met no end yet says so. An
-- executor whose program never ends and is never stopped is stopped at its deadline, which is one of
-- the answers.
--
-- Parameters stand for other libraries: JSON (`to_vec`, `from_str`), RFC 3339 (`Parse`), decoders and
-- base64, SHA-256 (`digest`) and PHC strings (`phc_accepts`), regular expressions and address blocks;
-- `World` is the file system, the environment and the readers of tokens that the configuration is
-- resolved against, `Pem` what rustls makes of files, `killpg` a system call, and `matches` says which
-- paths a pattern of axum matches.
--
-- Not modelled: the layers of the router but `authenticate` and the limit of the body, the reading
-- and writing of HTTP messages
-- and of JSON, the texts of error messages, sockets, and the parsing of the command line and of YAML,
-- which other libraries do. Paths are those of Unix.
pub mod Prelude
pub mod Config
pub mod Model
pub mod Store
pub mod Process
pub mod Secret
pub mod App
pub mod Cli
pub mod Lifecycle
pub mod Runtime
pub mod Service
pub mod Tests
