-- ===== src/Config/Resolve.antt =====
-- src/config.rs, `Config::resolve`: the configuration that the service runs with. The file system, the
-- environment, the compiler of regular expressions and the readers of tokens are a `World`; the
-- file system answers as it does once the log directory is there.
pub mod Routes
pub mod Laws
use command_api.Prelude.{
  ℕ, Text, bytes, text_eq, trim, contains, Bool, true, false, not, ◌&&◌, ◌||◌, Option, none, some,
  List, [], ◌∷◌, ◌++◌, Result, ok, err, ◌>>=◌, ◌>>◌, bail_if, ok_or, map_err, if◌then◌else◌, ◌==◌,
  any, is_empty,
}
use command_api.Config.{
  IpAddr, Config, ListenerConfig, AccessConfig, TlsConfig, TokenSource, environment, windows_dpapi,
  pbkdf2_sha256, LoggingConfig, ExecutionConfig, WindowsServiceAccount, local_system, local_service,
  WindowsServiceConfig, RouteConfig, ResolvedRoute, default_program,
}
use command_api.Config.Addresses.{
  ServerError, resolve_server, validate_access, validate_service_name,
}
use command_api.Config.Paths.{join_path, absolute_from, absolute_if_path_like, parent}
use command_api.Config.Routes.{RouteError, validate_route}
use command_api.Secret.{
  SecretError, TokenVerifier, PasswordHash, validate_token, from_token, from_pbkdf2_sha256,
}
use command_api.Secret.Storage.{StorageError}

pub data ConfigError : Type 0 where
  bad_server : ServerError → ConfigError
  bad_token : SecretError → ConfigError
  bad_key_file : StorageError → ConfigError
  bad_route : RouteError → ConfigError
  no_total_concurrency no_shutdown_timeout no_retention no_output_limit no_routes : ConfigError
  no_config_file bad_yaml no_base bad_variable no_variable no_key_file missing_file not_a_file :
      ConfigError
  no_log_directory unrestricted_local_system duplicate_route missing_script : ConfigError
  script_not_a_file no_script_directory missing_directory not_a_directory bad_pattern : ConfigError

-- What is outside the program.
pub record World : Type 0 where
  pub windows : Bool
  pub canonicalize : Text → Option Text
  pub is_file : Text → Bool
  pub is_dir : Text → Bool
  pub create_dir_all : Text → Bool
  pub var : Text → Option Text
  pub unprotect_from_file : Text → Result StorageError Text
  pub regex : Text → Option (Text → Bool)
  pub parse_phc : Text → Option PasswordHash
  pub digest : Text → Text
  pub phc_accepts : (phc token : Text) → Bool

pub record ResolvedTlsConfig : Type 0 where
  pub certificate : Text
  pub private_key : Text
  pub client_ca_certificate : Text

pub record ResolvedConfig : Type 0 where
  pub source_path : Text
  pub listeners : List ListenerConfig
  pub access : AccessConfig
  pub tls : Option ResolvedTlsConfig
  pub token : TokenVerifier
  pub logging : LoggingConfig
  pub execution : ExecutionConfig
  pub windows_service : WindowsServiceConfig
  pub routes : List ResolvedRoute

abbrev pub is_local_system : WindowsServiceAccount → Bool
is_local_system local_system = true
is_local_system local_service = false

module _ (w : World) where
  unfoldable pub canonical_file : (base value : Text) → Result ConfigError Text
  unfolding absolute_from
  canonical_file base value = do
    path ← ok_or (w.canonicalize (absolute_from base value)) missing_file
    bail_if (not (w.is_file path)) not_a_file
    ok path

  unfoldable pub resolve_tls :
      (base : Text) → Option TlsConfig → Result ConfigError (Option ResolvedTlsConfig)
  unfolding canonical_file
  resolve_tls base none = ok none
  resolve_tls base (some tls) = do
    certificate ← canonical_file base tls.certificate
    private_key ← canonical_file base tls.private_key
    client_ca_certificate ← canonical_file base tls.client_ca_certificate
    ok (
        some (record {
          certificate = certificate;
          private_key = private_key;
          client_ca_certificate = client_ca_certificate;
        }))

  -- The token itself, of the two sources that give one.
  abbrev pub checked_token : Text → Result ConfigError TokenVerifier
  checked_token token = do
    map_err bad_token (validate_token token)
    ok (from_token w.digest w.phc_accepts token)

  unfoldable pub resolve_token : (base : Text) → TokenSource → Result ConfigError TokenVerifier
  unfolding trim absolute_from
  resolve_token base (environment variable) = do
    bail_if (is_empty (trim variable) || contains b'=' variable || contains 0 variable) bad_variable
    token ← ok_or (w.var variable) no_variable
    checked_token token
  resolve_token base (windows_dpapi file) = do
    path ← ok_or (w.canonicalize (absolute_from base file)) no_key_file
    token ← map_err bad_key_file (w.unprotect_from_file path)
    checked_token token
  resolve_token base (pbkdf2_sha256 hash) = map_err bad_token (from_pbkdf2_sha256 w.parse_phc hash)

  unfoldable pub compile_patterns : List Text → Result ConfigError (List (Text → Bool))
  compile_patterns [] = ok []
  compile_patterns (pattern_text ∷ rest) = do
    is_match ← ok_or (w.regex pattern_text) bad_pattern
    others ← compile_patterns rest
    ok (is_match ∷ others)

  abbrev pub directory_of : (base script : Text) → Option Text → Result ConfigError Text
  directory_of base script (some directory) = ok (absolute_from base directory)
  directory_of base script none = ok_or (parent script) no_script_directory

  abbrev pub program_of : (base : Text) → RouteConfig → Option Text → Text
  program_of base route (some program) = absolute_if_path_like base program
  program_of base route none = default_program w.windows route.executor

  abbrev pub resolved :
      (base : Text)
      → RouteConfig
      → (script working_directory : Text) → List (Text → Bool)
      → ResolvedRoute
  resolved base route script working_directory patterns = record {
    path = route.path;
    executor = route.executor;
    program = program_of base route route.program;
    script = script;
    fixed_args = route.fixed_args;
    request_args = route.request_args;
    request_arg_patterns = patterns;
    working_directory = working_directory;
    env = route.env;
    max_concurrency = route.max_concurrency;
    max_execution_seconds = route.max_execution_seconds;
    graceful_shutdown_seconds = route.graceful_shutdown_seconds;
    merge_stdout_stderr = route.merge_stdout_stderr;
    output_encoding = route.output_encoding;
  }

  -- The rule for a service that runs as LocalSystem.
  unfoldable pub is_unrestricted : WindowsServiceAccount → RouteConfig → Bool
  is_unrestricted account route =
      is_local_system account
      && route.request_args.enabled
      && is_empty route.request_args.allowed_values
      && is_empty route.request_args.allowed_patterns

  -- A round of the loop over the routes; `seen` says that the path has been configured before.
  unfoldable pub resolve_route :
      (base : Text)
      → WindowsServiceAccount
      → (seen : Bool) → RouteConfig
      → Result ConfigError ResolvedRoute
  unfolding absolute_from absolute_if_path_like parent default_program
  resolve_route base account seen route = do
    map_err bad_route (validate_route route)
    bail_if (is_unrestricted account route) unrestricted_local_system
    bail_if seen duplicate_route
    script ← ok_or (w.canonicalize (absolute_from base route.script)) missing_script
    bail_if (not (w.is_file script)) script_not_a_file
    directory ← directory_of base script route.working_directory
    working_directory ← ok_or (w.canonicalize directory) missing_directory
    bail_if (not (w.is_dir working_directory)) not_a_directory
    patterns ← compile_patterns route.request_args.allowed_patterns
    ok (resolved base route script working_directory patterns)

  -- The loop; `paths` is the set of paths so far.
  unfoldable pub resolve_routes :
      (base : Text)
      → WindowsServiceAccount
      → (paths : List Text) → List RouteConfig
      → Result ConfigError (List ResolvedRoute)
  resolve_routes base account paths [] = ok []
  resolve_routes base account paths (route ∷ rest) = do
    one ← resolve_route base account (any (text_eq route.path) paths) route
    others ← resolve_routes base account (route.path ∷ paths) rest
    ok (one ∷ others)

  unfoldable pub resolve_logging : (base : Text) → LoggingConfig → Result ConfigError LoggingConfig
  unfolding absolute_from join_path
  resolve_logging base logging = do
    bail_if
        (not (w.create_dir_all (join_path (absolute_from base logging.directory) (bytes "tasks"))))
        no_log_directory
    directory ← ok_or (w.canonicalize (absolute_from base logging.directory)) no_log_directory
    ok (record logging { directory = directory })

  abbrev pub resolved_config :
      (source_path : Text)
      → Config
      → List ListenerConfig
      → TokenVerifier
      → Option ResolvedTlsConfig
      → LoggingConfig
      → List ResolvedRoute
      → ResolvedConfig
  resolved_config source_path config listeners token tls logging routes = record {
    source_path = source_path;
    listeners = listeners;
    access = config.access;
    tls = tls;
    token = token;
    logging = logging;
    execution = config.execution;
    windows_service = config.windows_service;
    routes = routes;
  }

  -- `resolve`
  unfoldable pub resolve : (source_path : Text) → Config → Result ConfigError ResolvedConfig
  unfolding resolve_server validate_access validate_service_name resolve_tls resolve_token
      resolve_logging resolve_routes parent
  resolve source_path config = do
    listeners ← map_err bad_server (resolve_server config.server)
    map_err bad_server (validate_access config.access)
    bail_if (config.execution.max_total_concurrency == 0) no_total_concurrency
    bail_if (config.execution.shutdown_timeout_seconds == 0) no_shutdown_timeout
    bail_if (config.logging.retention_seconds == 0) no_retention
    bail_if (config.logging.max_output_bytes_per_task == 0) no_output_limit
    bail_if (is_empty config.routes) no_routes
    map_err bad_server (validate_service_name config.windows_service.name)
    base ← ok_or (parent source_path) no_base
    token ← resolve_token base config.token
    tls ← resolve_tls base config.tls
    logging ← resolve_logging base config.logging
    routes ← resolve_routes base config.windows_service.account [] config.routes
    ok (resolved_config source_path config listeners token tls logging routes)

  -- `load`, with what reading a file gives and `serde_yaml`.
  unfoldable pub load :
      (read_to_string : Text → Option Text)
      → (from_str : Text → Option Config) → (path : Text) → Result ConfigError ResolvedConfig
  unfolding resolve
  load read_to_string from_str path = do
    source_path ← ok_or (w.canonicalize path) no_config_file
    content ← ok_or (read_to_string source_path) no_config_file
    config ← ok_or (from_str content) bad_yaml
    resolve source_path config
