-- ===== src/Store/Events.antt =====
-- src/store.rs, `read_latest_snapshot`: the last snapshot of a task's event log.
-- Reading the bytes of a file that exists succeeds; `none` is the error `NotFound` of `File::open`.
pub mod Laws
pub mod Persist
use command_api.Prelude.{
  ℕ, zero, suc, Text, Bool, true, false, ◌&&◌, Option, none, some, List, [], ◌∷◌, Result, ok, err,
  if◌then◌else◌, ◌==◌, leb, push_head,
}
use command_api.Model.{TaskSnapshot}
use command_api.Store.{StoreError, not_utf8}

-- A check of UTF-8 (`str::from_utf8`): between characters, or where `n` more bytes follow the next,
-- which lies between `lo` and `hi`.
pub data Utf8 : Type 0 where
  start : Utf8
  within : (n lo hi : ℕ) → Utf8

abbrev between : ℕ → ℕ → ℕ → Bool
between lo hi b = leb lo b && leb b hi

utf8_lead : ℕ → Option Utf8
utf8_lead b =
    if leb b 0x7f
    then some start
    else if between 0xc2 0xdf b
    then some (within 0 0x80 0xbf)
    else if b == 0xe0
    then some (within 1 0xa0 0xbf)
    else if b == 0xed
    then some (within 1 0x80 0x9f)
    else if between 0xe1 0xef b
    then some (within 1 0x80 0xbf)
    else if b == 0xf0
    then some (within 2 0x90 0xbf)
    else if between 0xf1 0xf3 b
    then some (within 2 0x80 0xbf)
    else if b == 0xf4
    then some (within 2 0x80 0x8f)
    else none

utf8_step : Utf8 → ℕ → Option Utf8
unfolding utf8_lead
utf8_step start b = utf8_lead b
utf8_step (within zero lo hi) b = if between lo hi b then some start else none
utf8_step (within (suc n) lo hi) b = if between lo hi b then some (within n 0x80 0xbf) else none

utf8_from : Option Utf8 → Text → Bool
utf8_from none s = false
utf8_from (some start) [] = true
utf8_from (some (within n lo hi)) [] = false
utf8_from (some u) (b ∷ s) = utf8_from (utf8_step u b) s

unfoldable pub is_utf8 : Text → Bool
unfolding utf8_from utf8_step
is_utf8 s = utf8_from (some start) s

-- What `BufRead::lines` reads for each line, the newline included; the last may have none.
unfoldable pub lines : Text → List Text
lines [] = []
lines (x ∷ xs) = let rest = lines xs in if x == 10 then (x ∷ []) ∷ rest else push_head x rest

-- Its newline is cut off, and a carriage return before the newline.
unfoldable pub trim_line : Text → Text
trim_line [] = []
trim_line (x ∷ []) = if x == 10 then [] else x ∷ []
trim_line (x ∷ y ∷ []) = if y == 10 then (if x == 13 then [] else x ∷ []) else x ∷ y ∷ []
trim_line (x ∷ y ∷ z ∷ zs) = x ∷ trim_line (y ∷ z ∷ zs)

-- A line that does not parse is skipped.
abbrev or_else {ℓ} : {A : Type ℓ} → Option A → Option A → Option A
or_else none latest = latest
or_else (some s) latest = some s

-- The loop over the lines; `from_str` is `serde_json::from_str`.
unfoldable pub read_lines :
    (from_str : Text → Option TaskSnapshot)
    → Option TaskSnapshot
    → List Text
    → Result StoreError (Option TaskSnapshot)
read_lines from_str latest [] = ok latest
read_lines from_str latest (line ∷ rest) =
    let next = read_lines from_str (or_else (from_str (trim_line line)) latest) rest in
    if is_utf8 line then next else err not_utf8

unfoldable pub read_latest_snapshot :
    (from_str : Text → Option TaskSnapshot) → Option Text → Result StoreError (Option TaskSnapshot)
unfolding read_lines lines is_utf8 trim_line
read_latest_snapshot from_str none = ok none
read_latest_snapshot from_str (some t) = read_lines from_str none (lines t)
