-- ===== src/Cli/Commands.antt =====
-- src/main.rs, the commands and `run`, and src/service.rs, which refuses its commands where there is no
-- Windows.
use command_api.Prelude.{ℕ, ℤ, Text, Bool, Option, ◌&&◌}
use command_api.Secret.Dpapi.{DpapiScope}
use command_api.Cli.{main_code}

pub data SecretAction : Type 0 where
  generate : (output : Text) → (scope : DpapiScope) → SecretAction
  protect : (output : Text) → (scope : DpapiScope) → (stdin : Bool) → SecretAction
  hash : (stdin : Bool) → (rounds : ℕ) → SecretAction

pub data ServiceAction : Type 0 where
  run install start stop uninstall : (config : Text) → ServiceAction

pub data Command : Type 0 where
  run : (config : Text) → Command
  service : ServiceAction → Command
  secret : SecretAction → Command

-- The calls that the commands end in, each with whether it succeeds.
pub record Calls : Type 0 where
  pub windows : Bool
  pub build_runtime : Bool
  pub runtime_run : (config : Text) → Bool
  pub service_call : ServiceAction → Bool
  pub secret_call : SecretAction → Bool

-- On systems other than Windows every command of the service fails.
unfoldable pub call_service : Calls → ServiceAction → Bool
call_service c action = c.windows && c.service_call action

unfoldable pub run_command : Calls → Command → Bool
unfolding call_service
run_command c (Command.run config) = c.build_runtime && c.runtime_run config
run_command c (service action) = call_service c action
run_command c (secret action) = c.secret_call action

-- `main` after the command line has been parsed.
unfoldable pub exit_code : Calls → (first_argument : Option Text) → (worker : ℤ) → Command → ℕ
unfolding main_code run_command
exit_code c first_argument worker command = main_code first_argument worker (run_command c command)
