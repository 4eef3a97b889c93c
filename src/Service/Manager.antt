-- ===== src/Service/Manager.antt =====
-- src/service.rs, `install`, `start`, `stop` and `uninstall`: commands for the service manager.
use command_api.Prelude.{
  String, Text, bytes, Bool, true, false, Option, none, some, List, [], ◌∷◌, if◌then◌else◌,
}
use command_api.Config.{account_name}
use command_api.Config.Resolve.{ResolvedConfig}
use command_api.Service.{ServiceState, stopped}

-- What `install` registers.
pub record ServiceInfo : Type 0 where
  pub name : Text
  pub display_name : Text
  pub description : Text
  pub executable_path : Text
  pub launch_arguments : List Text
  pub account_name : Option String

unfoldable pub install : (executable : Text) → ResolvedConfig → ServiceInfo
install executable config = record {
  name = config.windows_service.name;
  display_name = config.windows_service.display_name;
  description = config.windows_service.description;
  executable_path = executable;
  launch_arguments = bytes "service" ∷ bytes "run" ∷ bytes "--config" ∷ config.source_path ∷ [];
  account_name = account_name config.windows_service.account;
}

-- The calls on a service that has been opened.
pub data ManagerCall : Type 0 where
  start_service stop_service query_status delete_service : ManagerCall

-- Whether the command succeeds, and its calls. `opened` says that the configuration was loaded, the
-- manager connected and the service opened.
unfoldable pub start : (opened started : Bool) → Bool × List ManagerCall
start false started = (false, [])
start true started = (started, start_service ∷ [])

unfoldable pub stop : (opened accepted : Bool) → Bool × List ManagerCall
stop false accepted = (false, [])
stop true accepted = (accepted, stop_service ∷ [])

abbrev pub is_stopped : ServiceState → Bool
is_stopped stopped = true
is_stopped _ = false

-- A stop that is refused does not keep the service from being deleted.
unfoldable pub uninstall :
    (opened : Bool) → (state : Option ServiceState) → (deleted : Bool) → Bool × List ManagerCall
uninstall false state deleted = (false, [])
uninstall true none deleted = (false, query_status ∷ [])
uninstall true (some state) deleted =
    if is_stopped state
    then (deleted, query_status ∷ delete_service ∷ [])
    else (deleted, query_status ∷ stop_service ∷ delete_service ∷ [])

-- The statics `CONFIG_PATH` and `SERVICE_NAME`, each of which can be set once.
pub record Statics : Type 0 where
  pub config_path : Option Text
  pub service_name : Option Text

abbrev set_name : ResolvedConfig → (dispatched : Bool) → Statics → Bool × Statics
set_name config dispatched st = elim st.service_name [
  | some name ↦ (false, st)
  | none ↦ (dispatched, record st { service_name = some config.windows_service.name })
]

abbrev set_path : ResolvedConfig → (dispatched : Bool) → Statics → Bool × Statics
set_path config dispatched st = elim st.config_path [
  | some path ↦ (false, st)
  | none ↦ set_name config dispatched (record st { config_path = some config.source_path })
]

-- `run`, with the configuration that is loaded, if it is, and whether the dispatcher could be started.
unfoldable pub run_service :
    (loaded : Option ResolvedConfig) → (dispatched : Bool) → Statics → Bool × Statics
run_service none dispatched st = (false, st)
run_service (some config) dispatched st = set_path config dispatched st

-- `manager_and_config`
unfoldable pub manager_and_config :
    (loaded : Option ResolvedConfig) → (connected : Bool) → Option ResolvedConfig
manager_and_config none connected = none
manager_and_config (some config) false = none
manager_and_config (some config) true = some config
