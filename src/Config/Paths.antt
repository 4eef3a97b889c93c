-- ===== src/Config/Paths.antt =====
-- src/config.rs, `absolute_from` and `absolute_if_path_like`, with what they use of `std::path` on Unix,
-- for paths that are UTF-8.
use command_api.Prelude.{
  ℕ, ◌+◌, Text, bytes, text_eq, starts_with, ends_with, split, Bool, ◌||◌, Option, none, some, List,
  [], ◌∷◌, ◌++◌, if◌then◌else◌, ltb, ◌==◌, is_empty,
}
use command_api.Config.Routes.{slash}

abbrev pub is_absolute : Text → Bool
is_absolute = starts_with (bytes "/")

-- `base.join(value)`, for a relative value.
unfoldable pub join_path : (base value : Text) → Text
join_path base value =
    if is_empty base || ends_with slash base then base ++ value else base ++ slash ∷ value

unfoldable pub absolute_from : (base value : Text) → Text
unfolding join_path
absolute_from base value = if is_absolute value then value else join_path base value

-- The components of a relative path: its segments that are neither empty nor `.`, and a first `.`.
abbrev count_named : List Text → ℕ
count_named [] = 0
count_named (s ∷ ss) =
    if text_eq s [] || text_eq s (bytes ".") then count_named ss else 1 + count_named ss

abbrev count_segments : List Text → ℕ
count_segments [] = 0
count_segments (s ∷ ss) = if text_eq s (bytes ".") then 1 + count_named ss else count_named (s ∷ ss)

unfoldable pub absolute_if_path_like : (base value : Text) → Text
unfolding absolute_from split text_eq
absolute_if_path_like base value =
    if is_absolute value || ltb 1 (count_segments (split slash value))
    then absolute_from base value
    else value

-- The text before the last slash.
unfoldable pub before_last_slash : Text → Option Text
before_last_slash [] = none
before_last_slash (c ∷ s) = elim (before_last_slash s) [
  | some t ↦ some (c ∷ t)
  | none ↦ if c == slash then some [] else none
]

abbrev or_root : Option Text → Option Text
or_root none = some []
or_root (some t) = if is_empty t then some (bytes "/") else some t

-- `path.parent()`, for a canonical path.
unfoldable pub parent : Text → Option Text
unfolding before_last_slash text_eq
parent path = if text_eq path (bytes "/") then none else or_root (before_last_slash path)
