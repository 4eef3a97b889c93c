-- ===== src/Config.antt =====
-- src/config.rs: the configuration as it is read from YAML, its defaults, and the resolved form.
-- Paths are the bytes of their UTF-8 text. A compiled regular expression is its `is_match`.
pub mod Routes
pub mod Arguments
pub mod Addresses
pub mod Listeners
pub mod Paths
pub mod Resolve
use command_api.Prelude.{
  ℕ, ◌*◌, Text, bytes, Bool, false, Option, none, some, List, [], ◌∷◌, String, if◌then◌else◌,
}

pub data IpAddr : Type 0 where
  v4 v6 : ℕ → IpAddr

pub data Executor : Type 0 where
  sh bash zsh pwsh powershell cmd : Executor

-- `windows` stands for `cfg!(windows)`.
unfoldable pub default_program : (windows : Bool) → Executor → Text
default_program windows sh = bytes "sh"
default_program windows bash = bytes "bash"
default_program windows zsh = bytes "zsh"
default_program windows pwsh = bytes "pwsh"
default_program windows powershell = if windows then bytes "powershell.exe" else bytes "powershell"
default_program windows cmd = bytes "cmd.exe"

abbrev pwsh_args : List Text
pwsh_args =
    bytes "-NoLogo"
    ∷ bytes "-NoProfile"
    ∷ bytes "-NonInteractive"
    ∷ bytes "-ExecutionPolicy"
    ∷ bytes "Bypass"
    ∷ bytes "-File"
    ∷ []

unfoldable pub launcher_args : Executor → List Text
launcher_args pwsh = pwsh_args
launcher_args powershell = pwsh_args
launcher_args cmd = bytes "/D" ∷ bytes "/S" ∷ bytes "/C" ∷ []
launcher_args sh = []
launcher_args bash = []
launcher_args zsh = []

pub data OutputEncoding : Type 0 where
  utf8 gbk utf16le : OutputEncoding

unfoldable pub label : OutputEncoding → String
label utf8 = "utf-8"
label gbk = "gbk"
label utf16le = "utf-16le"

pub record ListenerConfig : Type 0 where
  pub host : IpAddr
  pub port : ℕ

-- `hosts` of a file: one address or a list of them.
pub data OneOrManyHosts : Type 0 where
  one : IpAddr → OneOrManyHosts
  many : List IpAddr → OneOrManyHosts

unfoldable pub hosts_of : OneOrManyHosts → Option (List IpAddr)
hosts_of (one host) = some (host ∷ [])
hosts_of (many hosts) = some hosts

pub record ServerConfig : Type 0 where
  pub hosts : Option (List IpAddr)
  pub port : Option ℕ
  pub listeners : List ListenerConfig

pub record TokenFailureCooldownConfig : Type 0 where
  pub enabled : Bool
  pub seconds : ℕ
  pub max_tracked_ips : ℕ

abbrev pub default_token_failure_cooldown_seconds : ℕ
default_token_failure_cooldown_seconds = 10

abbrev pub default_token_failure_max_tracked_ips : ℕ
default_token_failure_max_tracked_ips = 4096

abbrev pub default_cooldown : TokenFailureCooldownConfig
default_cooldown = record {
  enabled = false;
  seconds = default_token_failure_cooldown_seconds;
  max_tracked_ips = default_token_failure_max_tracked_ips;
}

-- A CIDR block of the crate `ipnet` is its `contains`.
pub record AccessConfig : Type 0 where
  pub allowed_cidrs : List (IpAddr → Bool)
  pub token_failure_cooldown : TokenFailureCooldownConfig

pub record TlsConfig : Type 0 where
  pub certificate : Text
  pub private_key : Text
  pub client_ca_certificate : Text

pub data TokenSource : Type 0 where
  environment : (variable : Text) → TokenSource
  windows_dpapi : (file : Text) → TokenSource
  pbkdf2_sha256 : (hash : Text) → TokenSource

pub record LoggingConfig : Type 0 where
  pub directory : Text
  pub retention_seconds : ℕ
  pub max_output_bytes_per_task : ℕ

abbrev pub default_retention_seconds : ℕ
default_retention_seconds = 86400

abbrev pub default_max_output_bytes : ℕ
default_max_output_bytes = 100 * 1024 * 1024

pub record ExecutionConfig : Type 0 where
  pub max_total_concurrency : ℕ
  pub shutdown_timeout_seconds : ℕ

abbrev pub default_max_total_concurrency : ℕ
default_max_total_concurrency = 16

abbrev pub default_shutdown_timeout_seconds : ℕ
default_shutdown_timeout_seconds = 30

abbrev pub default_execution : ExecutionConfig
default_execution = record {
  max_total_concurrency = default_max_total_concurrency;
  shutdown_timeout_seconds = default_shutdown_timeout_seconds;
}

pub data WindowsServiceAccount : Type 0 where
  local_service local_system : WindowsServiceAccount

pub account_name : WindowsServiceAccount → Option String
account_name local_service = some "NT AUTHORITY\\LocalService"
account_name local_system = none

pub record WindowsServiceConfig : Type 0 where
  pub name : Text
  pub display_name : Text
  pub description : Text
  pub account : WindowsServiceAccount

abbrev pub default_service_name : Text
default_service_name = bytes "command-api"

abbrev pub default_service_display_name : Text
default_service_display_name = bytes "Command API"

abbrev pub default_service_description : Text
default_service_description = bytes "通过受控 HTTP API 异步执行预配置脚本"

abbrev pub default_service : WindowsServiceConfig
default_service = record {
  name = default_service_name;
  display_name = default_service_display_name;
  description = default_service_description;
  account = local_service;
}

abbrev pub default_max_arg_count : ℕ
default_max_arg_count = 32

abbrev pub default_max_arg_bytes : ℕ
default_max_arg_bytes = 4096

abbrev pub default_max_total_arg_bytes : ℕ
default_max_total_arg_bytes = 16 * 1024

pub record RequestArgsConfig : Type 0 where
  pub enabled : Bool
  pub max_count : ℕ
  pub max_item_bytes : ℕ
  pub max_total_bytes : ℕ
  pub allowed_values : List Text
  pub allowed_patterns : List Text

abbrev pub default_request_args : RequestArgsConfig
default_request_args = record {
  enabled = false;
  max_count = default_max_arg_count;
  max_item_bytes = default_max_arg_bytes;
  max_total_bytes = default_max_total_arg_bytes;
  allowed_values = [];
  allowed_patterns = [];
}

pub record RouteConfig : Type 0 where
  pub path : Text
  pub executor : Executor
  pub program : Option Text
  pub script : Text
  pub fixed_args : List Text
  pub request_args : RequestArgsConfig
  pub working_directory : Option Text
  pub env : List (Text × Text)
  pub max_concurrency : ℕ
  pub max_execution_seconds : ℕ
  pub graceful_shutdown_seconds : ℕ
  pub merge_stdout_stderr : Bool
  pub output_encoding : OutputEncoding

pub record Config : Type 0 where
  pub server : ServerConfig
  pub access : AccessConfig
  pub tls : Option TlsConfig
  pub token : TokenSource
  pub logging : LoggingConfig
  pub execution : ExecutionConfig
  pub windows_service : WindowsServiceConfig
  pub routes : List RouteConfig

pub record ResolvedRoute : Type 0 where
  pub path : Text
  pub executor : Executor
  pub program : Text
  pub script : Text
  pub fixed_args : List Text
  pub request_args : RequestArgsConfig
  pub request_arg_patterns : List (Text → Bool)
  pub working_directory : Text
  pub env : List (Text × Text)
  pub max_concurrency : ℕ
  pub max_execution_seconds : ℕ
  pub graceful_shutdown_seconds : ℕ
  pub merge_stdout_stderr : Bool
  pub output_encoding : OutputEncoding
