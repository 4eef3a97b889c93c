-- ===== src/Config/Resolve/Laws.antt =====
-- src/config.rs, `Config::resolve`: what holds of a configuration that is accepted.
use command_api.Prelude.{
  ℕ, ◌<◌, ◌≡◌, Text, bytes, text_keys, true, false, not, [], map, ok, ◌==◌, >>=-eq-ok, bail_if,
  bail_if-eq-ok, ok_or, ok_or-eq-ok, some, refl, map_err, map_err-eq-ok, eq_of_ok, is_empty,
  Distinct, arith,
}
use command_api.Config.{Config, AccessConfig, LoggingConfig}
use command_api.Config.Addresses.{resolve_server, validate_access, validate_service_name, no_cidrs}
use command_api.Config.Paths.{parent, absolute_from, join_path}
use command_api.Config.Listeners.{listener_keys, resolve_server-Distinct}
use command_api.Config.Resolve.{
  World, ResolvedConfig, bad_server, no_total_concurrency, no_shutdown_timeout, no_retention,
  no_output_limit, no_routes, no_base, no_log_directory, resolved_config, resolve_token,
  resolve_tls, resolve_logging, resolve_routes, resolve,
}
use command_api.Config.Resolve.Routes.{ResolvedAll, resolve_routes-ResolvedAll}

-- What the service relies on.
pub record IsResolvedConfig (w : World) (config : Config) (r : ResolvedConfig) : Type 0 where
  pub base : Text
  pub beside : parent r.source_path ≡ some base
  pub routes : ResolvedAll w config.windows_service.account base config.routes r.routes
  pub access : r.access ≡ config.access
  pub execution : r.execution ≡ config.execution
  pub windows_service : r.windows_service ≡ config.windows_service
  pub log_directory :
      w.canonicalize (absolute_from base config.logging.directory) ≡ some r.logging.directory
  pub paths : Distinct (map (λ q. q.path) r.routes)
  pub some_route : is_empty config.routes ≡ false
  pub listeners : Distinct r.listeners
  pub some_listener : is_empty r.listeners ≡ false
  pub some_cidr : is_empty r.access.allowed_cidrs ≡ false
  pub cooldown :
      r.access.token_failure_cooldown.enabled ≡ true
      → (0 < r.access.token_failure_cooldown.seconds)
        × (0 < r.access.token_failure_cooldown.max_tracked_ips)
  pub concurrency : 0 < r.execution.max_total_concurrency
  pub shutdown_timeout : 0 < r.execution.shutdown_timeout_seconds
  pub retention : 0 < r.logging.retention_seconds
  pub output_limit : 0 < r.logging.max_output_bytes_per_task

validate_access_lem :
    (access : AccessConfig)
    → validate_access access ≡ ok tt
    → (is_empty access.allowed_cidrs ≡ false)
      × (access.token_failure_cooldown.enabled ≡ true
          → (0 < access.token_failure_cooldown.seconds)
            × (0 < access.token_failure_cooldown.max_tracked_ips))
unfolding validate_access
validate_access_lem access e =
    let (u, some_cidr, e1) = >>=-eq-ok (bail_if (is_empty access.allowed_cidrs) no_cidrs) _ e in
    (bail_if-eq-ok _ _ some_cidr, λ on. ground (arith, bail_if-eq-ok _ _ e1))

resolve_logging-same :
    (w : World) (base : Text) (logging left : LoggingConfig)
    → resolve_logging w base logging ≡ ok left
    → (left.retention_seconds ≡ logging.retention_seconds)
      × (left.max_output_bytes_per_task ≡ logging.max_output_bytes_per_task)
      × (w.canonicalize (absolute_from base logging.directory) ≡ some left.directory)
unfolding resolve_logging
resolve_logging-same w base logging left e =
    let full = absolute_from base logging.directory in
    let (u, made, e1) =
      >>=-eq-ok (bail_if (not (w.create_dir_all (join_path full (bytes "tasks")))) no_log_directory)
        _ e in
    let (directory, found, e2) = >>=-eq-ok (ok_or (w.canonicalize full) no_log_directory) _ e1 in
    let same : (record logging { directory = directory }) ≡ left = eq_of_ok e2 in
    rw (← same) (refl, refl, ok_or-eq-ok _ _ found)

positive : (n : ℕ) → (n == 0) ≡ false → 0 < n
positive n h = ground arith

-- A configuration that is accepted gives each route in its resolved form: with the executor, the
-- arguments, the environment, the limits and the encoding that were configured, the program that was
-- given or the default one of the executor, the script and the working directory that were given, or
-- the directory of the script, by their real paths, and each of its patterns compiled. It has distinct paths, at
-- least one route, distinct listeners, at least one, at least one block of addresses, and positive
-- limits, times and concurrencies, and the access rules, the limits of execution and the service
-- account that were configured. Each route was valid, its script is a file and its working
-- directory a directory, and under LocalSystem it takes only arguments of an allowlist.
pub resolve-IsResolvedConfig :
    (w : World) (source_path : Text) (config : Config) (r : ResolvedConfig)
    → resolve w source_path config ≡ ok r
    → IsResolvedConfig w config r
unfolding resolve
resolve-IsResolvedConfig w source_path config r e =
    let (listeners, a1, e1) = >>=-eq-ok (map_err bad_server (resolve_server config.server)) _ e in
    let (u2, a2, e2) = >>=-eq-ok (map_err bad_server (validate_access config.access)) _ e1 in
    let (u3, a3, e3) =
      >>=-eq-ok (bail_if (config.execution.max_total_concurrency == 0) no_total_concurrency) _ e2 in
    let (u4, a4, e4) =
      >>=-eq-ok (bail_if (config.execution.shutdown_timeout_seconds == 0) no_shutdown_timeout) _
        e3 in
    let (u5, a5, e5) =
      >>=-eq-ok (bail_if (config.logging.retention_seconds == 0) no_retention) _ e4 in
    let (u6, a6, e6) =
      >>=-eq-ok (bail_if (config.logging.max_output_bytes_per_task == 0) no_output_limit) _ e5 in
    let (u7, a7, e7) = >>=-eq-ok (bail_if (is_empty config.routes) no_routes) _ e6 in
    let (u8, a8, e8) =
      >>=-eq-ok (map_err bad_server (validate_service_name config.windows_service.name)) _ e7 in
    let (base, a9, e9) = >>=-eq-ok (ok_or (parent source_path) no_base) _ e8 in
    let (token, a10, e10) = >>=-eq-ok (resolve_token w base config.token) _ e9 in
    let (tls, a11, e11) = >>=-eq-ok (resolve_tls w base config.tls) _ e10 in
    let (logging, a12, e12) = >>=-eq-ok (resolve_logging w base config.logging) _ e11 in
    let (routes, a13, e13) =
      >>=-eq-ok (resolve_routes w base config.windows_service.account [] config.routes) _ e12 in
    let same : resolved_config w source_path config listeners token tls logging routes ≡ r =
      eq_of_ok e13 in
    let (some_listener, distinct, as_configured) =
      resolve_server-Distinct config.server listeners (map_err-eq-ok bad_server _ a1) in
    let (some_cidr, cooldown) = validate_access_lem config.access (map_err-eq-ok bad_server _ a2) in
    let (all, paths, fresh) =
      resolve_routes-ResolvedAll w config.windows_service.account base [] config.routes routes
        a13 in
    let (kept, limit, directory) = resolve_logging-same w base config.logging logging a12 in
    rw (← same) (record {
      base = base;
      beside = ok_or-eq-ok _ _ a9;
      access = refl;
      execution = refl;
      windows_service = refl;
      log_directory = directory;
      routes = all;
      paths = paths;
      some_route = bail_if-eq-ok _ _ a7;
      listeners = distinct;
      some_listener = some_listener;
      some_cidr = some_cidr;
      cooldown = cooldown;
      concurrency = positive _ (bail_if-eq-ok _ _ a3);
      shutdown_timeout = positive _ (bail_if-eq-ok _ _ a4);
      retention = rw kept (positive _ (bail_if-eq-ok _ _ a5));
      output_limit = rw limit (positive _ (bail_if-eq-ok _ _ a6));
    })
