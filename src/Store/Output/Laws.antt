-- ===== src/Store/Output/Laws.antt =====
-- src/store.rs, `output_chunk`: a chunk is a slice of the file, and chunks follow one another.
use command_api.Prelude.{
  ℕ, zero, suc, ◌+◌, ◌-◌, ◌%◌, ◌≤◌, ◌<◌, min, Text, Bool, true, false, ◌||◌, ◌≡◌, ◌↔◌, refl, sym,
  ap, ◌∙◌, some, [], ◌∷◌, ◌++◌, ok, ◌==◌, ltb, take, drop, length, length-take, length-drop,
  >>=-eq-ok, ok_or, bail_if, ok_or-eq-ok, bail_if-eq-ok, arith,
}
use command_api.Config.{OutputEncoding, utf8, gbk, utf16le}
use command_api.Model.{OutputStream, OutputChunk, is_finished}
use command_api.Store.{
  TaskRecord, TaskStore, get, bad_limit, no_such_task, no_output_file, wrong_mode, offset_too_large,
}
use command_api.Store.Output.{file_of, lacks, max_limit, read_limit, chunk_of, output_chunk}

pub read_limit-le : (e : OutputEncoding) (l a : ℕ) → read_limit e l a ≤ min l a
unfolding read_limit
read_limit-le utf8 l a = omega arith
read_limit-le gbk l a = omega arith
read_limit-le utf16le l a = ground arith

pub read_limit-even : (l a : ℕ) → read_limit utf16le l a % 2 ≡ 0
unfolding read_limit
read_limit-even l a = ground arith

pub read_limit-pos : (e : OutputEncoding) (l a : ℕ) → 2 ≤ l → 2 ≤ a → 0 < read_limit e l a
unfolding read_limit
read_limit-pos utf8 l a h k = omega arith
read_limit-pos gbk l a h k = omega arith
read_limit-pos utf16le l a h k = ground arith

take-nil : (n : ℕ) → ◌≡◌ {A = Text} (take n []) []
take-nil zero = refl
take-nil (suc n) = refl

take_split : (n k : ℕ) (s : Text) → n ≤ k → take k s ≡ take n s ++ take (k - n) (drop n s)
take_split zero k s h = let e : k ≡ k - 0 = omega arith in ap (λ j. take j s) e
take_split (suc n) zero s h = absurd (omega arith)
take_split (suc n) (suc k) [] h = sym (take-nil (suc k - suc n))
take_split (suc n) (suc k) (x ∷ s) h =
    let e : k - n ≡ suc k - suc n = omega arith in
    ap (◌∷◌ x) (take_split n k s (omega arith) ∙ ap (λ j. take n s ++ take j (drop n s)) e)

limit_bounds :
    (limit : ℕ) → (limit == 0 || ltb max_limit limit) ≡ false → (0 < limit) × (limit ≤ max_limit)
limit_bounds limit h = ground arith

offset_bound : (size offset : ℕ) → ltb size offset ≡ false → offset ≤ size
offset_bound size offset h = ground arith

module _ (decode : OutputEncoding → Text → Text × Bool) (base64 : Text → Text) where
  module _ (id : ℕ) (r : TaskRecord) (stream : OutputStream) (file : Text) (offset limit : ℕ) where
    pub next-offset :
        (chunk_of decode base64 id r stream file offset limit).next_offset
        ≡ offset + read_limit r.state.output_encoding limit (length file - offset)
    unfolding chunk_of
    next-offset = omega (
      arith,
      length-take (read_limit r.state.output_encoding limit (length file - offset))
          (drop offset file),
      length-drop offset file,
      read_limit-le r.state.output_encoding limit (length file - offset),
    )

  -- What a chunk promises: it is the slice of the file from the offset to the next offset.
  pub record IsSlice (s : TaskStore) (id : ℕ) (stream : OutputStream) (offset limit : ℕ)
      (c : OutputChunk) : Type 0 where
    pub task : TaskRecord
    pub file : Text
    pub found : get s id ≡ some task
    pub opened : file_of stream task.directory ≡ some file
    pub allowed : (0 < limit) × (limit ≤ max_limit)
    pub in_mode : lacks task.state.output_mode stream ≡ false
    pub from : c.offset ≡ offset
    pub forward : offset ≤ c.next_offset
    pub bounded : c.next_offset ≤ offset + limit
    pub inside : c.next_offset ≤ length file
    pub reads :
        c.next_offset ≡ offset + read_limit task.state.output_encoding limit (length file - offset)
    pub text :
        c.content
        ≡ (decode task.state.output_encoding (take (c.next_offset - offset) (drop offset file))).0
    pub tiles :
        take c.next_offset file
        ≡ take offset file ++ take (c.next_offset - offset) (drop offset file)
    pub ends :
        (c.eof ≡ true) ↔ ((is_finished task.state.status ≡ true) × (c.next_offset ≡ length file))

  chunk_of-IsSlice :
      (s : TaskStore) (id : ℕ) (stream : OutputStream) (offset limit : ℕ) (r : TaskRecord)
      (file : Text)
      → get s id ≡ some r
      → file_of stream r.directory ≡ some file
      → (0 < limit) × (limit ≤ max_limit)
      → lacks r.state.output_mode stream ≡ false
      → offset ≤ length file
      → IsSlice s id stream offset limit (chunk_of decode base64 id r stream file offset limit)
  unfolding chunk_of next-offset
  chunk_of-IsSlice s id stream offset limit r file e f h m k =
      let n = read_limit r.state.output_encoding limit (length file - offset) in
      let cut = length-take n (drop offset file) in
      let rest = length-drop offset file in
      let small = read_limit-le r.state.output_encoding limit (length file - offset) in
      let size : length (take n (drop offset file)) ≡ n = omega (arith, cut, rest, small) in
      let step : (offset + length (take n (drop offset file))) - offset ≡ n = omega (arith, size) in
      record {
        task = r;
        file = file;
        found = e;
        opened = f;
        allowed = h;
        in_mode = m;
        from = refl;
        forward = omega arith;
        bounded = omega (arith, size, small);
        inside = omega (arith, size, small);
        reads = next-offset id r stream file offset limit;
        text = rw step;
        tiles = take_split offset _ file (omega arith);
        ends = ground (arith, size, small);
      }

  -- On success the answer is a slice of the named file that starts at the offset, is no longer than
  -- the limit, and has the mark `eof` exactly where a finished task's file has been read to its end.
  pub output_chunk-IsSlice :
      (s : TaskStore) (id : ℕ) (stream : OutputStream) (offset limit : ℕ) (c : OutputChunk)
      → output_chunk decode base64 s id stream offset limit ≡ ok c
      → IsSlice s id stream offset limit c
  unfolding output_chunk
  output_chunk-IsSlice s id stream offset limit c e =
      let (_, in_limit, e1) =
        >>=-eq-ok (bail_if (limit == 0 || ltb max_limit limit) bad_limit) _ e in
      let (r, found, e2) = >>=-eq-ok (ok_or (get s id) no_such_task) _ e1 in
      let (_, mode, e3) = >>=-eq-ok (bail_if (lacks r.state.output_mode stream) wrong_mode) _ e2 in
      let (file, opened, e4) = >>=-eq-ok (ok_or (file_of stream r.directory) no_output_file) _ e3 in
      let (_, near, e5) =
        >>=-eq-ok (bail_if (ltb (length file) offset) (offset_too_large offset (length file))) _
          e4 in
      let same : chunk_of decode base64 id r stream file offset limit ≡ c = cc in
      rw (← same) (
        chunk_of-IsSlice s id stream offset limit r file (ok_or-eq-ok (get s id) no_such_task found)
          (ok_or-eq-ok (file_of stream r.directory) no_output_file opened)
          (limit_bounds limit
            (bail_if-eq-ok (limit == 0 || ltb max_limit limit) bad_limit in_limit))
          (bail_if-eq-ok (lacks r.state.output_mode stream) wrong_mode mode)
          (offset_bound (length file) offset (bail_if-eq-ok _ _ near)))
