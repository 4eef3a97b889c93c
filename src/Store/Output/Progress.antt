-- ===== src/Store/Output/Progress.antt =====
-- src/store.rs, `output_chunk`: a client that asks again from each `next_offset`.
use command_api.Prelude.{
  ℕ, ◌+◌, ◌-◌, ◌%◌, ◌≤◌, ◌<◌, Text, Bool, false, ◌≡◌, refl, sym, ap, ◌∙◌, Bool-cases, inl, inr,
  some, ok, length, arith,
}
use command_api.Config.{OutputEncoding, utf16le}
use command_api.Model.{OutputStream, OutputChunk}
use command_api.Store.{TaskRecord, TaskStore, get}
use command_api.Store.Output.{file_of, lacks, max_limit, read_limit, chunk_of, output_chunk}
use command_api.Store.Output.Laws.{
  IsSlice, output_chunk-IsSlice, next-offset, read_limit-even, read_limit-pos,
}

module _ (decode : OutputEncoding → Text → Text × Bool) (base64 : Text → Text) where
  module _ (s : TaskStore) (id : ℕ) (r : TaskRecord) (stream : OutputStream) (file : Text) where
    -- A query with a limit of at least two bytes that starts at least two bytes before the end of an
    -- existing output file is answered, and its next offset is larger, whatever the encoding.
    pub output_chunk_progress :
        (offset limit : ℕ)
        → get s id ≡ some r
        → file_of stream r.directory ≡ some file
        → lacks r.state.output_mode stream ≡ false
        → 2 ≤ limit
        → limit ≤ max_limit
        → offset + 2 ≤ length file
        → (c : OutputChunk) × (output_chunk decode base64 s id stream offset limit ≡ ok c)
          × (offset < c.next_offset)
    unfolding output_chunk
    output_chunk_progress offset limit e f m h k l = (
      chunk_of decode base64 id r stream file offset limit,
      rw (e, f, m) (ground arith),
      omega (
        arith,
        next-offset decode base64 id r stream file offset limit,
        read_limit-pos r.state.output_encoding limit (length file - offset) h (omega arith),
      ),
    )

    -- The offsets that a client meets that starts at 0 and goes on from each `next_offset`.
    pub data Follows : ℕ → Type 0 where
      start : Follows 0
      next :
          {offset : ℕ} (limit : ℕ) (c : OutputChunk)
          → Follows offset
          → output_chunk decode base64 s id stream offset limit ≡ ok c
          → Follows c.next_offset

    -- The record and the file of an answer are those of the store.
    same_task :
        {offset limit : ℕ} {c : OutputChunk}
        → get s id ≡ some r
        → (sl : IsSlice decode base64 s id stream offset limit c) → sl.task ≡ r
    same_task e sl = let f = sl.found in cc

    same_file :
        {offset limit : ℕ} {c : OutputChunk}
        → get s id ≡ some r
        → file_of stream r.directory ≡ some file
        → (sl : IsSlice decode base64 s id stream offset limit c) → sl.file ≡ file
    same_file e f sl =
        let t = same_task e sl in
        let o : file_of stream r.directory ≡ some sl.file =
          ap (λ q. file_of stream q.directory) (sym t) ∙ sl.opened in
        cc

    next-even :
        {offset limit : ℕ} {c : OutputChunk}
        → get s id ≡ some r
        → r.state.output_encoding ≡ utf16le
        → offset % 2 ≡ 0
        → IsSlice decode base64 s id stream offset limit c
        → c.next_offset % 2 ≡ 0
    next-even {offset} {limit} {c} e u even sl =
        let t : sl.task.state.output_encoding ≡ utf16le =
          ap (λ q. q.state.output_encoding) (same_task e sl) ∙ u in
        let reads : c.next_offset ≡ offset + read_limit utf16le limit (length sl.file - offset) =
          sl.reads ∙ ap (λ q. offset + read_limit q limit (length sl.file - offset)) t in
        omega (arith, read_limit-even limit (length sl.file - offset))

    Follows-even :
        {offset : ℕ}
        → get s id ≡ some r
        → r.state.output_encoding ≡ utf16le
        → Follows offset
        → offset % 2 ≡ 0
    Follows-even e u start = refl
    Follows-even e u (next {offset} limit c f ans) =
        next-even e u (Follows-even e u f)
          (output_chunk-IsSlice decode base64 s id stream offset limit c ans)

    -- A UTF-16LE output with an odd number of bytes is never reported as ended: whatever limits a
    -- client uses, no chunk that it gets from 0 onwards has the mark `eof`, also when the task has
    -- finished.
    pub utf16le_odd_never_eof :
        {offset : ℕ} (limit : ℕ) (c : OutputChunk)
        → get s id ≡ some r
        → file_of stream r.directory ≡ some file
        → r.state.output_encoding ≡ utf16le
        → length file % 2 ≡ 1
        → Follows offset
        → output_chunk decode base64 s id stream offset limit ≡ ok c
        → c.eof ≡ false
    utf16le_odd_never_eof {offset} limit c e f u odd reached ans =
        let sl = output_chunk-IsSlice decode base64 s id stream offset limit c ans in
        let even = next-even e u (Follows-even e u reached) sl in
        let size : length sl.file ≡ length file = ap length (same_file e f sl) in
        elim (Bool-cases c.eof) [
          | inl ended ↦ let at_end = (sl.ends.0 ended).1 in absurd (omega arith)
          | inr open_ended ↦ open_ended
        ]
