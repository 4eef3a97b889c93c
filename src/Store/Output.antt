-- ===== src/Store/Output.antt =====
-- src/store.rs, `output_chunk` and `view`: what clients read of a task.
-- `usize` has 64 bits. `decode` is the decoder of `encoding_rs`, with its flag for errors, and
-- `base64` the encoder of the crate `base64`; `show_id` prints a task id.
pub mod Laws
pub mod Progress
pub mod Polling
use command_api.Prelude.{
  ℕ, ◌+◌, ◌-◌, ◌*◌, ◌%◌, min, Text, bytes, Bool, true, false, not, ◌&&◌, ◌||◌, Option, none, some,
  ◌++◌, Result, ok, bail_if, ◌>>=◌, ◌>>◌, ok_or, if◌then◌else◌, ltb, leb, ◌==◌, take, drop, length,
}
use command_api.Config.{OutputEncoding, utf8, gbk, utf16le, label}
use command_api.Model.{
  OutputMode, OutputStream, OutputChunk, OutputSizes, TaskView, TaskLinks, TaskStatus, succeeded,
  is_finished, Parse, elapsed_ms,
}
use command_api.Model
use command_api.Store.{
  Directory, TaskRecord, TaskStore, StoreError, no_such_task, no_output_file, bad_limit, wrong_mode,
  offset_too_large, get, snapshot,
}

abbrev pub file_of : OutputStream → Directory → Option Text
file_of Model.stdout d = d.stdout_log
file_of Model.stderr d = d.stderr_log
file_of OutputStream.combined d = d.output_log

-- The streams that a task's mode does not have.
abbrev pub lacks : OutputMode → OutputStream → Bool
lacks OutputMode.separate OutputStream.combined = true
lacks OutputMode.separate Model.stdout = false
lacks OutputMode.separate Model.stderr = false
lacks OutputMode.combined OutputStream.combined = false
lacks OutputMode.combined Model.stdout = true
lacks OutputMode.combined Model.stderr = true

abbrev is_utf16le : OutputEncoding → Bool
is_utf16le utf8 = false
is_utf16le gbk = false
is_utf16le utf16le = true

abbrev pub max_limit : ℕ
max_limit = 1024 * 1024

-- A UTF-16 chunk has an even number of bytes.
unfoldable pub read_limit : OutputEncoding → (limit available : ℕ) → ℕ
read_limit encoding limit available =
    let n = min limit available in if is_utf16le encoding && not (n % 2 == 0) then n - 1 else n

abbrev is_succeeded : TaskStatus → Bool
is_succeeded succeeded = true
is_succeeded _ = false

abbrev then_some : Bool → Text → Option Text
then_some b t = if b then some t else none

module _ (decode : OutputEncoding → Text → Text × Bool) (base64 : Text → Text) where
  -- The part of `output_chunk` that reads the file.
  unfoldable pub chunk_of :
      (id : ℕ) → TaskRecord → OutputStream → (file : Text) → (offset limit : ℕ) → OutputChunk
  unfolding read_limit label
  chunk_of id r stream file offset limit =
      let size = length file in
      let s = r.state in
      let piece = take (read_limit s.output_encoding limit (size - offset)) (drop offset file) in
      let next_offset = offset + length piece in
      let (content, decoding_errors) = decode s.output_encoding piece in
      record {
        success = true;
        task_id = id;
        stream = stream;
        encoding = label s.output_encoding;
        offset = offset;
        next_offset = next_offset;
        eof = is_finished s.status && leb size next_offset;
        content = content;
        decoding_errors = decoding_errors;
        content_base64 = then_some decoding_errors (base64 piece);
      }

  unfoldable pub output_chunk :
      TaskStore → (id : ℕ) → OutputStream → (offset limit : ℕ) → Result StoreError OutputChunk
  unfolding get
  output_chunk s id stream offset limit = do
    bail_if (limit == 0 || ltb max_limit limit) bad_limit
    r ← ok_or (get s id) no_such_task
    bail_if (lacks r.state.output_mode stream) wrong_mode
    file ← ok_or (file_of stream r.directory) no_output_file
    bail_if (ltb (length file) offset) (offset_too_large offset (length file))
    ok (chunk_of id r stream file offset limit)

module _ (parse : Parse) (show_id : ℕ → Text) (now : ℕ) where
  unfoldable pub base_url : ℕ → Text
  base_url id = bytes "/tasks/" ++ show_id id

  abbrev pub links_of : OutputMode → (base : Text) → TaskLinks
  links_of OutputMode.separate base = record {
    status = base;
    stdout = some (base ++ bytes "/output?stream=stdout");
    stderr = some (base ++ bytes "/output?stream=stderr");
    combined = none;
    cancel = base ++ bytes "/cancel";
    kill = base ++ bytes "/kill";
  }
  links_of OutputMode.combined base = record {
    status = base;
    stdout = none;
    stderr = none;
    combined = some (base ++ bytes "/output?stream=combined");
    cancel = base ++ bytes "/cancel";
    kill = base ++ bytes "/kill";
  }

  abbrev sizes_of : OutputMode → TaskRecord → OutputSizes
  sizes_of OutputMode.separate r = record {
    stdout = some r.stdout_bytes;
    stderr = some r.stderr_bytes;
    combined = none;
  }
  sizes_of OutputMode.combined r = record {
    stdout = none;
    stderr = none;
    combined = some r.combined_bytes;
  }

  abbrev started_or_created : Option Text → Text → Text
  started_or_created none created = created
  started_or_created (some t) created = t

  unfoldable pub view_record : TaskRecord → TaskView
  unfolding snapshot elapsed_ms base_url
  view_record r =
      let s = snapshot r in
      record {
        success = is_succeeded s.status;
        task = s;
        duration_ms =
            elapsed_ms parse now (started_or_created s.started_at s.created_at) s.finished_at;
        output_bytes = sizes_of s.output_mode r;
        links = links_of s.output_mode (base_url r.id);
      }

  unfoldable pub view : TaskStore → (id : ℕ) → Option TaskView
  unfolding get view_record
  view s id = elim (get s id) [ none ↦ none | some r ↦ some (view_record r) ]
