-- ===== src/Runtime/Console.antt =====
-- src/runtime.rs, `console_shutdown_signal` and `init_logging`: the signals that end the service, and
-- where its own log goes.
use command_api.Prelude.{Text, bytes, Bool, true, false, Option, none, some, List, [], ◌∷◌}

-- What reaches the process: Ctrl+C, or SIGTERM, which is heard on Unix alone.
pub data Signal : Type 0 where
  ctrl_c terminate : Signal

-- What is left of the signals when the wait returns; `none` while it waits.
unfoldable pub console_shutdown_signal : (unix : Bool) → List Signal → Option (List Signal)
console_shutdown_signal unix [] = none
console_shutdown_signal unix (ctrl_c ∷ rest) = some rest
console_shutdown_signal true (terminate ∷ rest) = some rest
console_shutdown_signal false (terminate ∷ rest) = console_shutdown_signal false rest

-- The subscriber: a file that is rolled daily, and the console beside it.
pub record LogOutput : Type 0 where
  pub directory : Text
  pub file_name_prefix : Text
  pub to_console : Bool
  pub ansi : Bool
  pub filter : Text

abbrev default_filter : Text
default_filter = bytes "command_api=info,tower_http=info"

abbrev filter_or : Option Text → Text
filter_or none = default_filter
filter_or (some f) = f

-- `env_filter` is what `EnvFilter::try_from_default_env` reads; `installed` says whether `try_init`
-- finds no other subscriber.
unfoldable pub init_logging :
    (directory : Text)
    → (log_to_console : Bool) → (env_filter : Option Text) → (installed : Bool) → Option LogOutput
init_logging directory log_to_console env_filter false = none
init_logging directory log_to_console env_filter true = some (record {
  directory = directory;
  file_name_prefix = bytes "command-api.log";
  to_console = log_to_console;
  ansi = false;
  filter = filter_or env_filter;
})
