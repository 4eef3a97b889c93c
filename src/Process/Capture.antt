-- ===== src/Process/Capture.antt =====
-- src/process/mod.rs, `Capture` and `copy_output`: the readers that log the output of a task.
-- A round is one `read` of a pipe; the readers of one task share `captured_bytes`, and their rounds
-- interleave. A round touches the shared counter once, by an atomic `fetch_add`, and otherwise its
-- own file and counter, so a round is one step.
pub mod Bounds
pub mod Contents
use command_api.Prelude.{
  ℕ, ◌+◌, ◌-◌, ◌%◌, ◌^◌, min, Text, Bool, true, false, Option, List, [], ◌∷◌, if◌then◌else◌, ltb,
  take, length,
}
use command_api.Model.{OutputMode, OutputStream, logging_failure}
use command_api.Model
use command_api.Store.{Directory, TaskRecord, Write, append, succeeded, request_stop_now}
use command_api.Store.Output.{file_of}

-- The streams that have a reader, `Capture::new`.
unfoldable pub readers : OutputMode → List OutputStream
readers OutputMode.separate = Model.stdout ∷ Model.stderr ∷ []
readers OutputMode.combined = OutputStream.combined ∷ []

abbrev pub with_file : OutputStream → Option Text → Directory → Directory
with_file Model.stdout file d = record d { stdout_log = file }
with_file Model.stderr file d = record d { stderr_log = file }
with_file OutputStream.combined file d = record d { output_log = file }

abbrev pub count_up : OutputStream → ℕ → TaskRecord → TaskRecord
count_up Model.stdout n r = record r { stdout_bytes = (r.stdout_bytes + n) % 2 ^ 64 }
count_up Model.stderr n r = record r { stderr_bytes = (r.stderr_bytes + n) % 2 ^ 64 }
count_up OutputStream.combined n r = record r { combined_bytes = (r.combined_bytes + n) % 2 ^ 64 }

-- `write_all`, `flush` and the counter of the stream. The test says whether the write succeeded.
unfoldable pub write_piece : OutputStream → Text → Write → TaskRecord → TaskRecord × Bool
write_piece stream piece w r =
    let written = record r {
      directory = with_file stream (append w piece (file_of stream r.directory)) r.directory;
    } in
    if succeeded w then (count_up stream (length piece) written, true) else (written, false)

abbrev mark_truncated : Bool → TaskRecord → TaskRecord
mark_truncated cut r = if cut then record r { output_truncated = true } else r

-- The body of the loop of `copy_output`, for the bytes of one `read`.
unfoldable pub copy_round :
    (limit : ℕ) → OutputStream → (data_read : Text) → Write → TaskRecord → TaskRecord × Bool
copy_round limit stream data_read w r =
    let size = length data_read in
    let allowed = min (limit - r.captured_bytes) size in
    let counted = record r { captured_bytes = (r.captured_bytes + size) % 2 ^ 64 } in
    let stored = write_piece stream (take allowed data_read) w counted in
    let (r', good) = if ltb 0 allowed then stored else (counted, true) in
    if good then (mark_truncated (ltb allowed size) r', true) else (r', false)

-- What a reader meets: bytes and the result of writing them, or an error of the pipe or the file.
pub data Round : Type 0 where
  got : Text → Write → Round
  io_error : Round

-- A reader up to the end of its pipe; an error stops the task.
unfoldable pub reader : (limit : ℕ) → OutputStream → TaskRecord → List Round → TaskRecord × Bool
reader limit stream r [] = (r, true)
reader limit stream r (io_error ∷ rest) = (request_stop_now logging_failure r, false)
reader limit stream r (got data_read w ∷ rest) =
    let (r', good) = copy_round limit stream data_read w r in
    let next = reader limit stream r' rest in
    if good then next else (request_stop_now logging_failure r', false)

-- The interleaved rounds of all readers of a task.
unfoldable pub capture : (limit : ℕ) → TaskRecord → List (OutputStream × Text × Write) → TaskRecord
capture limit r [] = r
capture limit r ((stream, data_read, w) ∷ rest) =
    capture limit (copy_round limit stream data_read w r).0 rest
