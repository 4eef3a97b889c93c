-- ===== src/Process/Capture/Bounds.antt =====
-- src/process/mod.rs, `copy_output`: how many bytes are stored and counted.
use command_api.Prelude.{
  ℕ, ◌+◌, ◌-◌, ◌%◌, ◌^◌, ◌≤◌, ◌<◌, min, Text, ◌≡◌, List, [], ◌∷◌, ltb, take, length, length-take,
  length-append, arith,
}
use command_api.Model.{OutputStream}
use command_api.Model
use command_api.Store.{TaskRecord, Write, whole, torn, contents}
use command_api.Process.Capture.{write_piece, copy_round, capture}

-- The bytes in the output files of a task.
abbrev pub stored : TaskRecord → ℕ
stored r =
    length (contents r.directory.stdout_log)
    + length (contents r.directory.stderr_log)
    + length (contents r.directory.output_log)

-- The bytes that the task wrote to its pipes.
abbrev pub produced_bytes : List (OutputStream × Text × Write) → ℕ
produced_bytes [] = 0
produced_bytes ((stream, piece, w) ∷ rest) = length piece + produced_bytes rest

write_piece-stored :
    (stream : OutputStream) (piece : Text) (w : Write) (r : TaskRecord)
    → (stored r ≤ stored (write_piece stream piece w r).0)
      × (stored (write_piece stream piece w r).0 ≤ stored r + length piece)
      × ((write_piece stream piece w r).0.captured_bytes ≡ r.captured_bytes)
unfolding write_piece
write_piece-stored Model.stdout piece whole r =
    omega (arith, length-append (contents r.directory.stdout_log) piece)
write_piece-stored Model.stdout piece (torn k) r =
    omega
      (arith, length-append (contents r.directory.stdout_log) (take k piece), length-take k piece)
write_piece-stored Model.stderr piece whole r =
    omega (arith, length-append (contents r.directory.stderr_log) piece)
write_piece-stored Model.stderr piece (torn k) r =
    omega
      (arith, length-append (contents r.directory.stderr_log) (take k piece), length-take k piece)
write_piece-stored OutputStream.combined piece whole r =
    omega (arith, length-append (contents r.directory.output_log) piece)
write_piece-stored OutputStream.combined piece (torn k) r =
    omega
      (arith, length-append (contents r.directory.output_log) (take k piece), length-take k piece)

-- One round keeps the stored bytes within the limit and within the bytes counted.
copy_round-stored :
    (limit : ℕ) (stream : OutputStream) (piece : Text) (w : Write) (r : TaskRecord)
    → r.captured_bytes + length piece < 2 ^ 64
    → stored r ≤ min limit r.captured_bytes
    → (stored (copy_round limit stream piece w r).0
        ≤ min limit (copy_round limit stream piece w r).0.captured_bytes)
      × ((copy_round limit stream piece w r).0.captured_bytes ≡ r.captured_bytes + length piece)
unfolding copy_round
copy_round-stored limit stream piece w r h b =
    let allowed = min (limit - r.captured_bytes) (length piece) in
    ground (
      arith,
      write_piece-stored stream (take allowed piece) w
          (record r { captured_bytes = (r.captured_bytes + length piece) % 2 ^ 64 }),
      length-take allowed piece,
    )

-- Whatever is written, in whatever order the readers run and whichever writes fail: all output files
-- of a task together never hold more bytes than the limit, nor more than the task produced, as long
-- as it produces fewer than 2^64 bytes; and the shared counter counts all that was produced.
pub capture-stored :
    (limit : ℕ) (r : TaskRecord) (rounds : List (OutputStream × Text × Write))
    → r.captured_bytes + produced_bytes rounds < 2 ^ 64
    → stored r ≤ min limit r.captured_bytes
    → (stored (capture limit r rounds) ≤ min limit (r.captured_bytes + produced_bytes rounds))
      × ((capture limit r rounds).captured_bytes ≡ r.captured_bytes + produced_bytes rounds)
unfolding capture
capture-stored limit r [] h b = omega arith
capture-stored limit r ((stream, piece, w) ∷ rest) h b =
    let (b', c) = copy_round-stored limit stream piece w r (omega arith) b in
    omega (arith, capture-stored limit (copy_round limit stream piece w r).0 rest (omega arith) b')

-- Every write succeeds.
abbrev pub AllWhole : List (OutputStream × Text × Write) → Type 0
AllWhole [] = Unit {0}
AllWhole ((stream, piece, w) ∷ rest) = (w ≡ whole) × AllWhole rest

-- The counters of a record are exact.
pub record IsExact (limit : ℕ) (r : TaskRecord) : Type 0 where
  pub total : stored r ≡ min limit r.captured_bytes
  pub stdout : r.stdout_bytes ≡ length (contents r.directory.stdout_log)
  pub stderr : r.stderr_bytes ≡ length (contents r.directory.stderr_log)
  pub combined : r.combined_bytes ≡ length (contents r.directory.output_log)
  pub truncated : r.output_truncated ≡ ltb limit r.captured_bytes

copy_round-IsExact :
    (limit : ℕ) (stream : OutputStream) (piece : Text) (r : TaskRecord)
    → r.captured_bytes + length piece < 2 ^ 64
    → IsExact limit r
    → IsExact limit (copy_round limit stream piece whole r).0
unfolding copy_round write_piece
copy_round-IsExact limit Model.stdout piece r h x =
    let allowed = min (limit - r.captured_bytes) (length piece) in
    ground (
      arith,
      length-append (contents r.directory.stdout_log) (take allowed piece),
      length-take allowed piece,
    )
copy_round-IsExact limit Model.stderr piece r h x =
    let allowed = min (limit - r.captured_bytes) (length piece) in
    ground (
      arith,
      length-append (contents r.directory.stderr_log) (take allowed piece),
      length-take allowed piece,
    )
copy_round-IsExact limit OutputStream.combined piece r h x =
    let allowed = min (limit - r.captured_bytes) (length piece) in
    ground (
      arith,
      length-append (contents r.directory.output_log) (take allowed piece),
      length-take allowed piece,
    )

-- Where every write succeeds and fewer than 2^64 bytes are produced, exact counters stay exact: the
-- stored bytes are the smaller of the limit and the bytes produced, each stream's counter is the
-- size of its file, and `output_truncated` says whether more than the limit was produced.
pub capture-IsExact :
    (limit : ℕ) (r : TaskRecord) (rounds : List (OutputStream × Text × Write))
    → AllWhole rounds
    → r.captured_bytes + produced_bytes rounds < 2 ^ 64
    → IsExact limit r
    → IsExact limit (capture limit r rounds)
unfolding capture
capture-IsExact limit r [] a h x = x
capture-IsExact limit r ((stream, piece, w) ∷ rest) (e, a) h x =
    let x' = copy_round-IsExact limit stream piece r (omega arith) x in
    let (b, c) =
      copy_round-stored limit stream piece whole r (omega arith) (omega (arith, x.total)) in
    rw e (capture-IsExact limit (copy_round limit stream piece whole r).0 rest a (omega arith) x')
