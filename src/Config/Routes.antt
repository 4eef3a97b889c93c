-- ===== src/Config/Routes.antt =====
-- src/config.rs, `validate_route`: which routes may be configured.
-- `extension` and `file_name` are `Path::extension` and `Path::file_name` of the standard library, on
-- Unix, for paths that are UTF-8.
pub mod Laws
use command_api.Prelude.{
  ℕ, ◌+◌, ◌<◌, Text, bytes, text_eq, contains, starts_with, ends_with, split, Bool, true, false,
  not, ◌&&◌, ◌||◌, Option, none, some, List, [], ◌∷◌, Result, ok, ◌>>=◌, ◌>>◌, bail_if,
  if◌then◌else◌, ltb, leb, ◌==◌, any, length, is_empty,
}
use command_api.Config.{Executor, cmd, RouteConfig, RequestArgsConfig}

pub data RouteError : Type 0 where
  bad_slashes bad_contents reserved_path no_concurrency no_execution_time : RouteError
  no_grace_period batch_with_arguments bad_argument_limits nul_in_fixed_args : RouteError

abbrev pub slash : ℕ
slash = b'/'

-- `path.split('/').any(|segment| segment == "..")`
unfoldable pub has_parent_segment : Text → Bool
has_parent_segment path = any (text_eq (bytes "..")) (split slash path)

-- The paths of the service itself.
unfoldable pub is_reserved : Text → Bool
is_reserved path =
    text_eq path (bytes "/")
    || text_eq path (bytes "/healthz")
    || text_eq path (bytes "/tasks")
    || starts_with (bytes "/tasks/") path
    || text_eq path (bytes "/system")
    || starts_with (bytes "/system/") path

abbrev pub to_lower : ℕ → ℕ
to_lower c = if leb b'A' c && leb c b'Z' then c + 32 else c

unfoldable pub ascii_lowercase : Text → Text
ascii_lowercase [] = []
ascii_lowercase (c ∷ s) = to_lower c ∷ ascii_lowercase s

abbrev last_or : Text → List Text → Text
last_or d [] = d
last_or d (s ∷ ss) = last_or s ss

-- The last component that is neither empty nor `.`; none after `..`.
abbrev drop_dots : List Text → List Text
drop_dots [] = []
drop_dots (s ∷ ss) =
    let rest = drop_dots ss in if text_eq s [] || text_eq s (bytes ".") then rest else s ∷ rest

abbrev plain : Text → Option Text
plain s = if text_eq s [] || text_eq s (bytes "..") then none else some s

unfoldable pub file_name : Text → Option Text
file_name path = plain (last_or [] (drop_dots (split slash path)))

-- After the last dot; none where the only dot begins the name.
abbrev last_dot : List Text → Option Text
last_dot [] = none
last_dot (s ∷ []) = none
last_dot (s ∷ t ∷ ss) = if text_eq s [] && is_empty ss then none else some (last_or t ss)

abbrev on_some : (Text → Option Text) → Option Text → Option Text
on_some f none = none
on_some f (some s) = f s

unfoldable pub extension : Text → Option Text
unfolding file_name split
extension path = on_some (λ name. last_dot (split b'.' name)) (file_name path)

abbrev pub is_some_and : (Text → Bool) → Option Text → Bool
is_some_and p none = false
is_some_and p (some s) = p s

abbrev pub is_cmd : Executor → Bool
is_cmd cmd = true
is_cmd _ = false

-- A batch file, or `cmd` as the program.
unfoldable pub runs_batch : RouteConfig → Bool
runs_batch route =
    is_cmd route.executor
    || is_some_and
        (λ e.
          text_eq (ascii_lowercase e) (bytes "bat") || text_eq (ascii_lowercase e) (bytes "cmd"))
        (extension route.script)
    || is_some_and
        (λ n.
          text_eq (ascii_lowercase n) (bytes "cmd")
          || text_eq (ascii_lowercase n) (bytes "cmd.exe"))
        (on_some file_name route.program)

unfoldable pub validate_args : List Text → Result RouteError (Unit {0})
validate_args args = bail_if (any (contains 0) args) nul_in_fixed_args

unfoldable pub validate_route : RouteConfig → Result RouteError (Unit {0})
validate_route route = do
  bail_if
      (not (starts_with (bytes "/") route.path)
        || ltb (length route.path) 2
        || ends_with slash route.path)
      bad_slashes
  bail_if (contains b'?' route.path || contains b'#' route.path || has_parent_segment route.path)
      bad_contents
  bail_if (is_reserved route.path) reserved_path
  bail_if (route.max_concurrency == 0) no_concurrency
  bail_if (route.max_execution_seconds == 0) no_execution_time
  bail_if (route.graceful_shutdown_seconds == 0) no_grace_period
  bail_if (route.request_args.enabled && runs_batch route) batch_with_arguments
  bail_if
      (route.request_args.enabled
        && (route.request_args.max_count == 0
            || route.request_args.max_item_bytes == 0
            || route.request_args.max_total_bytes == 0))
      bad_argument_limits
  validate_args route.fixed_args
