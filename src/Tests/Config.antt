-- ===== src/Tests/Config.antt =====
-- src/config.rs at concrete inputs.
use command_api.Prelude.{
  Distinct, ◌≡◌, ◌↔◌, ◌⊎◌, is_empty, some, false, refl, Text, bytes, true, false, none, [], ◌∷◌, ok,
  err, arith, text_eq, split,
}
use command_api.Config.{
  default_service_name, hosts_of, one, many, v4, ServerConfig, Executor, bash, utf8, RouteConfig,
  default_request_args,
}
use command_api.Config.Addresses.{
  validate_service_name, resolve_server, validate_listeners, check_unique, listener_eq, ip_eq,
  duplicate_listener, on_hosts,
}
use command_api.Config.Listeners.{listener_keys, resolve_server-Distinct}
use command_api.Config.Routes.{
  batch_with_arguments, validate_route, validate_args, has_parent_segment, is_reserved, runs_batch,
  file_name, extension, ascii_lowercase,
}
use command_api.Config.Routes.Laws.{IsValidRoute, validate_route-IsValidRoute}
use command_api.Tests.Samples.{resolved}
use command_api.Config.Arguments.{validate_request_args, IsAllowed, validate_request_args_iff}

abbrev route : Executor → Text → RouteConfig
route executor path = record {
  path = path;
  executor = executor;
  program = none;
  script = bytes "job.cmd";
  fixed_args = bytes "-v" ∷ [];
  request_args = record default_request_args { enabled = true };
  working_directory = none;
  env = [];
  max_concurrency = 1;
  max_execution_seconds = 10;
  graceful_shutdown_seconds = 1;
  merge_stdout_stderr = false;
  output_encoding = utf8;
}

validating : Unit {0}
unfolding validate_route validate_args has_parent_segment is_reserved runs_batch file_name extension
    ascii_lowercase split text_eq
validating = tt

batch_refused : validate_route (route bash (bytes "/run")) ≡ err batch_with_arguments
unfolding validating
batch_refused = refl

abbrev shell_route : RouteConfig
shell_route = record (route bash (bytes "/jobs/run")) { script = bytes "job.sh" }

shell_accepted : validate_route shell_route ≡ ok tt
unfolding validating
shell_accepted = refl

validate_route-IsValidRoute_example : IsValidRoute shell_route
validate_route-IsValidRoute_example = validate_route-IsValidRoute shell_route shell_accepted

validate_request_args_iff_example :
    (validate_request_args resolved (bytes "status" ∷ []) ≡ ok tt)
    ↔ IsAllowed resolved (bytes "status" ∷ [])
validate_request_args_iff_example =
    validate_request_args_iff resolved (bytes "status" ∷ []) (omega arith)

-- A path with the characters of a pattern.
pattern_accepted : validate_route (record shell_route { path = bytes "/{id}" }) ≡ ok tt
unfolding validating
pattern_accepted = refl

abbrev two_hosts : ServerConfig
two_hosts = record { hosts = some (v4 1 ∷ v4 2 ∷ []); port = some 80; listeners = [] }

resolving : Unit {0}
unfolding resolve_server validate_listeners check_unique listener_eq ip_eq
resolving = tt

two_accepted :
    resolve_server two_hosts
    ≡ ok (record { host = v4 1; port = 80 } ∷ record { host = v4 2; port = 80 } ∷ [])
unfolding resolving
two_accepted = refl

twice_refused :
    resolve_server (record two_hosts { hosts = some (v4 1 ∷ v4 1 ∷ []) }) ≡ err duplicate_listener
unfolding resolving
twice_refused = refl

resolve_server-Distinct_example :
    (is_empty (on_hosts two_hosts.hosts two_hosts.port) ≡ false)
    × Distinct (on_hosts two_hosts.hosts two_hosts.port)
    × (((two_hosts.listeners ≡ [])
          × (on_hosts two_hosts.hosts two_hosts.port ≡ on_hosts two_hosts.hosts two_hosts.port))
        ⊎ ((two_hosts.hosts ≡ none)
            × (two_hosts.port ≡ none)
            × (on_hosts two_hosts.hosts two_hosts.port ≡ two_hosts.listeners)))
resolve_server-Distinct_example =
    resolve_server-Distinct two_hosts (on_hosts two_hosts.hosts two_hosts.port) two_accepted

-- What is left out of a file is accepted.
service_name_accepted : validate_service_name default_service_name ≡ ok tt
unfolding validate_service_name
service_name_accepted = refl

one_host : hosts_of (one (v4 1)) ≡ hosts_of (many (v4 1 ∷ []))
unfolding hosts_of
one_host = refl
