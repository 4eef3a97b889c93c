-- ===== src/Tests/Resolve.antt =====
-- src/config.rs, `Config::resolve`, and src/app.rs, `build`, at concrete inputs.
use command_api.Prelude.{
  ◌≡◌, refl, starts_with, if◌then◌else◌, Bool, Bool-cases, inl, inr, subst, text_eq_iff, arith,
  Text, bytes, text_eq, trim, split, true, false, none, some, List, [], ◌∷◌, ok, err,
}
use command_api.Config.{
  v4, Config, environment, default_cooldown, default_execution, default_program, local_service,
  local_system, WindowsServiceAccount, bash, utf8, RouteConfig, ResolvedRoute, default_request_args,
}
use command_api.Config.Addresses.{
  resolve_server, validate_listeners, check_unique, listener_eq, ip_eq, validate_access,
  validate_service_name,
}
use command_api.Config.Routes.{
  validate_route, validate_args, has_parent_segment, is_reserved, runs_batch, file_name, extension,
  ascii_lowercase,
}
use command_api.Config.Paths.{
  absolute_from, join_path, parent, before_last_slash, absolute_if_path_like,
}
use command_api.Config.Arguments.{validate_request_args, check_args}
use command_api.Config.Resolve.{
  World, ResolvedConfig, unrestricted_local_system, duplicate_route, canonical_file, resolve_tls,
  resolve_token, compile_patterns, is_unrestricted, resolve_route, resolve_routes, resolve_logging,
  resolve,
}
use command_api.Config.Resolve.Laws.{IsResolvedConfig, resolve-IsResolvedConfig}
use command_api.Secret.{validate_token, from_token}
use command_api.Secret.Storage.{no_file}
use command_api.App.Execute.{AppState, admit, build}
use command_api.App.Router.{post, execute, router, found, dispatch, is_literal, literal_prefix}
use command_api.App.Router.Configured.{configured-execute}
use command_api.Tests.Execute.{idle}

abbrev token : Text
token = bytes "0123456789abcdef0123456789abcdef"

-- Every path is canonical and names a file and a directory.
abbrev pub world : World
world = record {
  windows = false;
  canonicalize = λ p. some p;
  is_file = λ p. true;
  is_dir = λ p. true;
  create_dir_all = λ p. true;
  var = λ v. some token;
  unprotect_from_file = λ p. err no_file;
  regex = λ p. none;
  parse_phc = λ p. none;
  digest = λ t. t;
  phc_accepts = λ p t. false;
}

abbrev open_route : Text → RouteConfig
open_route path = record {
  path = path;
  executor = bash;
  program = none;
  script = bytes "job.sh";
  fixed_args = [];
  request_args = record default_request_args { enabled = true };
  working_directory = none;
  env = [];
  max_concurrency = 2;
  max_execution_seconds = 10;
  graceful_shutdown_seconds = 1;
  merge_stdout_stderr = false;
  output_encoding = utf8;
}

abbrev config : WindowsServiceAccount → List RouteConfig → Config
config account routes = record {
  server = record { hosts = some (v4 1 ∷ []); port = some 80; listeners = [] };
  access = record { allowed_cidrs = (λ a. true) ∷ []; token_failure_cooldown = default_cooldown };
  tls = none;
  token = environment (bytes "TOKEN");
  logging = record {
    directory = bytes "logs";
    retention_seconds = 60;
    max_output_bytes_per_task = 100;
  };
  execution = default_execution;
  windows_service = record {
    name = bytes "api";
    display_name = bytes "api";
    description = [];
    account = account;
  };
  routes = routes;
}

abbrev pub config_path : Text
config_path = bytes "/etc/api/config.yaml"

abbrev open_resolved : ResolvedRoute
open_resolved = record {
  path = bytes "/run";
  executor = bash;
  program = bytes "bash";
  script = bytes "/etc/api/job.sh";
  fixed_args = [];
  request_args = record default_request_args { enabled = true };
  request_arg_patterns = [];
  working_directory = bytes "/etc/api";
  env = [];
  max_concurrency = 2;
  max_execution_seconds = 10;
  graceful_shutdown_seconds = 1;
  merge_stdout_stderr = false;
  output_encoding = utf8;
}

abbrev pub accepted : Config
accepted = config local_service (open_route (bytes "/run") ∷ [])

abbrev pub left : ResolvedConfig
left = record {
  source_path = config_path;
  listeners = record { host = v4 1; port = 80 } ∷ [];
  access = accepted.access;
  tls = none;
  token = from_token world.digest world.phc_accepts token;
  logging = record accepted.logging { directory = bytes "/etc/api/logs" };
  execution = default_execution;
  windows_service = accepted.windows_service;
  routes = open_resolved ∷ [];
}

resolving : Unit {0}
unfolding resolve_server validate_listeners check_unique listener_eq ip_eq validate_access
    validate_service_name validate_route validate_args has_parent_segment is_reserved runs_batch
    file_name extension ascii_lowercase split text_eq trim absolute_from join_path parent
    before_last_slash absolute_if_path_like canonical_file resolve_tls resolve_token
    compile_patterns is_unrestricted resolve_route resolve_routes resolve_logging resolve
    validate_token from_token default_program
resolving = tt

pub config_resolved : resolve world config_path accepted ≡ ok left
unfolding resolving
config_resolved = refl

twice_refused :
    resolve world config_path
      (config local_service (open_route (bytes "/run") ∷ open_route (bytes "/run") ∷ []))
    ≡ err duplicate_route
unfolding resolving
twice_refused = refl

local_system_refused :
    resolve world config_path (config local_system (open_route (bytes "/run") ∷ []))
    ≡ err unrestricted_local_system
unfolding resolving
local_system_refused = refl

resolve-IsResolvedConfig_example : IsResolvedConfig world accepted left
resolve-IsResolvedConfig_example =
    resolve-IsResolvedConfig world config_path accepted left config_resolved

no_args : validate_request_args open_resolved [] ≡ ok tt
unfolding validate_request_args check_args
no_args = refl

-- A stand-in for `axum` by which a pattern is the text before its first capture.
abbrev by_prefix : (pattern_text path : Text) → Bool
by_prefix pattern_text path =
    if is_literal pattern_text
    then text_eq pattern_text path
    else starts_with (literal_prefix pattern_text) path

starts_with-literal_prefix : (p : Text) → starts_with (literal_prefix p) p ≡ true
unfolding literal_prefix
starts_with-literal_prefix [] = refl
starts_with-literal_prefix (c ∷ p) = ground (arith, starts_with-literal_prefix p)

by_prefix-starts_with :
    (p x : Text) → by_prefix p x ≡ true → starts_with (literal_prefix p) x ≡ true
by_prefix-starts_with p x h = elim (Bool-cases (is_literal p)) [
  | inl l ↦
      subst (λ t. starts_with (literal_prefix p) t ≡ true) ((text_eq_iff p x).0 (rw l at h))
        (starts_with-literal_prefix p)
  | inr l ↦ rw l at h
]

configured-execute_example :
    (dispatch by_prefix (router (build 16 (open_resolved ∷ []) idle).routes) post (bytes "/run")
      ≡ found (execute (bytes "/run")))
    × (a : AppState) × (admit (build 16 (open_resolved ∷ []) idle) (bytes "/run") [] ≡ ok a)
configured-execute_example =
    configured-execute by_prefix world config_path accepted left idle [] [] open_resolved []
      (λ p x h. rw h refl) by_prefix-starts_with config_resolved (refl, tt) refl no_args
