-- ===== src/Store/Output/Polling.antt =====
-- src/store.rs, `output_chunk`: a client that polls the output of a task until `eof`.
use command_api.Prelude.{
  ℕ, zero, suc, ◌+◌, ◌-◌, ◌%◌, ◌≤◌, ◌<◌, Text, Bool, true, false, ◌≡◌, refl, sym, ap, ◌∙◌, subst,
  Bool-cases, inl, inr, Option, none, some, List, [], ◌∷◌, ◌++◌, ok, err, length, take, drop, leb,
  if◌then◌else◌, arith, take-append-drop,
}
use command_api.Config.{OutputEncoding, utf8, gbk, utf16le}
use command_api.Model.{OutputStream, OutputChunk, is_finished}
use command_api.Store.{TaskRecord, TaskStore, get}
use command_api.Store.Output.{file_of, lacks, max_limit, read_limit, chunk_of, output_chunk}
use command_api.Store.Output.Laws.{next-offset, read_limit-le}

module _ (decode : OutputEncoding → Text → Text × Bool) (base64 : Text → Text) (s : TaskStore)
    (id : ℕ) (stream : OutputStream) (limit : ℕ) where
  abbrev prepend : OutputChunk → Option (List OutputChunk) → Option (List OutputChunk)
  prepend c none = none
  prepend c (some rest) = some (c ∷ rest)

  -- The client asks from an offset on, from each `next_offset`, until a chunk has the mark `eof`;
  -- `none` where a query is refused or the fuel is spent.
  unfoldable pub poll : (fuel offset : ℕ) → Option (List OutputChunk)
  poll zero offset = none
  poll (suc fuel) offset = elim (output_chunk decode base64 s id stream offset limit) [
    | err e ↦ none
    | ok c ↦ let rest = poll fuel c.next_offset in if c.eof then some (c ∷ []) else prepend c rest
  ]

-- The contents of chunks are the decodings of pieces of bytes, in order.
unfoldable pub Decodes :
    (decode : OutputEncoding → Text → Text × Bool)
    → OutputEncoding
    → List OutputChunk
    → List Text
    → Type 0
Decodes decode e [] [] = Unit {0}
Decodes decode e (c ∷ cs) (p ∷ ps) = (c.content ≡ (decode e p).0) × Decodes decode e cs ps
Decodes decode e _ _ = ⊥

abbrev pub concat : List Text → Text
concat [] = []
concat (p ∷ ps) = p ++ concat ps

-- What the encoding asks of the limit and of the bytes that are left.
unfoldable pub Fits : OutputEncoding → (limit rest : ℕ) → Type 0
Fits utf8 limit rest = 0 < limit
Fits gbk limit rest = 0 < limit
Fits utf16le limit rest = (2 ≤ limit) × (rest % 2 ≡ 0)

Fits-pos : (e : OutputEncoding) (limit rest : ℕ) → Fits e limit rest → 0 < limit
unfolding Fits
Fits-pos utf8 limit rest f = f
Fits-pos gbk limit rest f = f
Fits-pos utf16le limit rest (f, even) = omega (arith, f)

read_limit-progress :
    (e : OutputEncoding) (limit rest : ℕ)
    → Fits e limit rest
    → 0 < rest
    → 0 < read_limit e limit rest
unfolding Fits read_limit
read_limit-progress utf8 limit rest f h = omega arith
read_limit-progress gbk limit rest f h = omega arith
read_limit-progress utf16le limit rest (f, even) h = ground arith

read_limit-Fits :
    (e : OutputEncoding) (limit rest : ℕ)
    → Fits e limit rest
    → Fits e limit (rest - read_limit e limit rest)
unfolding Fits read_limit
read_limit-Fits utf8 limit rest f = f
read_limit-Fits gbk limit rest f = f
read_limit-Fits utf16le limit rest (f, even) = (f, ground arith)

drop_all : (n : ℕ) (xs : Text) → length xs ≤ n → drop n xs ≡ []
drop_all zero [] h = refl
drop_all zero (x ∷ xs) h = absurd (omega arith)
drop_all (suc n) [] h = refl
drop_all (suc n) (x ∷ xs) h = drop_all n xs (omega arith)

drop_nil : (n : ℕ) → drop {A = ℕ} n [] ≡ []
drop_nil zero = refl
drop_nil (suc n) = refl

drop-drop : (n k : ℕ) (xs : Text) → drop k (drop n xs) ≡ drop (n + k) xs
drop-drop zero k xs = let e : k ≡ zero + k = omega arith in ap (λ i. drop i xs) e
drop-drop (suc n) k [] = drop_nil k ∙ sym (drop_nil (suc n + k))
drop-drop (suc n) k (x ∷ xs) =
    let e : suc (n + k) ≡ suc n + k = omega arith in drop-drop n k xs ∙ ap (λ i. drop i (x ∷ xs)) e

module _ (decode : OutputEncoding → Text → Text × Bool) (base64 : Text → Text) (s : TaskStore)
    (id : ℕ) (r : TaskRecord) (stream : OutputStream) (file : Text) (limit : ℕ)
    (found : get s id ≡ some r) (opened : file_of stream r.directory ≡ some file)
    (in_mode : lacks r.state.output_mode stream ≡ false) (over : is_finished r.state.status ≡ true)
    (small : limit ≤ max_limit) where
  abbrev encoding : OutputEncoding
  encoding = r.state.output_encoding

  abbrev chunk_at : ℕ → OutputChunk
  chunk_at offset = chunk_of decode base64 id r stream file offset limit

  answered :
      (offset : ℕ)
      → 0 < limit
      → offset ≤ length file
      → output_chunk decode base64 s id stream offset limit ≡ ok (chunk_at offset)
  unfolding output_chunk
  answered offset positive h = rw (found, opened, in_mode) (ground (arith, small))

  chunk_at-eof :
      (offset : ℕ) → (chunk_at offset).eof ≡ leb (length file) (chunk_at offset).next_offset
  unfolding chunk_of
  chunk_at-eof offset = rw over refl

  chunk_at-offset : (offset : ℕ) → (chunk_at offset).offset ≡ offset
  unfolding chunk_of
  chunk_at-offset offset = refl

  abbrev polled : (fuel offset : ℕ) → Option (List OutputChunk)
  polled = poll decode base64 s id stream limit

  -- The bytes of a chunk.
  abbrev piece_at : ℕ → Text
  piece_at offset = take (read_limit encoding limit (length file - offset)) (drop offset file)

  chunk_at-content :
      (offset : ℕ) → (chunk_at offset).content ≡ (decode encoding (piece_at offset)).0
  unfolding chunk_of
  chunk_at-content offset = refl

  -- The last chunk, and every other one.
  poll-last :
      (fuel offset : ℕ)
      → 0 < limit
      → offset ≤ length file
      → leb (length file) (chunk_at offset).next_offset ≡ true
      → polled (suc fuel) offset ≡ some (chunk_at offset ∷ [])
  unfolding poll
  poll-last fuel offset positive h e =
      rw (poll, answered offset positive h, chunk_at-eof offset, e) refl

  poll-more :
      (fuel offset : ℕ) (rest : List OutputChunk)
      → 0 < limit
      → offset ≤ length file
      → leb (length file) (chunk_at offset).next_offset ≡ false
      → polled fuel (chunk_at offset).next_offset ≡ some rest
      → polled (suc fuel) offset ≡ some (chunk_at offset ∷ rest)
  unfolding poll
  poll-more fuel offset rest positive h e more =
      rw (poll, answered offset positive h, chunk_at-eof offset, e, more) refl

  -- The bytes of a chunk, before those from its end on.
  piece-tail :
      (offset : ℕ) (rest : Text)
      → rest ≡ drop (chunk_at offset).next_offset file
      → piece_at offset ++ rest ≡ drop offset file
  piece-tail offset rest e =
      let n = read_limit encoding limit (length file - offset) in
      let next : (chunk_at offset).next_offset ≡ offset + n =
        next-offset decode base64 id r stream file offset limit in
      let tail : rest ≡ drop n (drop offset file) =
        e ∙ ap (λ i. drop i file) next ∙ sym (drop-drop offset n file) in
      ap (λ x. piece_at offset ++ x) tail ∙ take-append-drop n (drop offset file)

  poll_from :
      (fuel offset : ℕ)
      → offset ≤ length file
      → length file - offset < fuel
      → Fits encoding limit (length file - offset)
      → (cs : List OutputChunk) × (pieces : List Text) × (polled fuel offset ≡ some cs)
        × Decodes decode encoding cs pieces
        × (concat pieces ≡ drop offset file)
  unfolding Decodes
  poll_from zero offset h enough fits = absurd (omega arith)
  poll_from (suc fuel) offset h enough fits =
      let rest = length file - offset in
      let n = read_limit encoding limit rest in
      let positive = Fits-pos encoding limit rest fits in
      let next : (chunk_at offset).next_offset ≡ offset + n =
        next-offset decode base64 id r stream file offset limit in
      let inside = read_limit-le encoding limit rest in
      elim (Bool-cases (leb (length file) (chunk_at offset).next_offset)) [
        | inl last ↦ (
          chunk_at offset ∷ [],
          piece_at offset ∷ [],
          poll-last fuel offset positive h last,
          (chunk_at-content offset, tt),
          piece-tail offset []
              (sym (drop_all (chunk_at offset).next_offset file (ground (arith, last)))),
        )
        | inr more ↦
            let short : (chunk_at offset).next_offset < length file = ground (arith, more) in
            let moves = read_limit-progress encoding limit rest fits (omega (arith, next, short)) in
            let left : rest - n ≡ length file - (chunk_at offset).next_offset =
              omega (arith, next, inside) in
            let (cs, pieces, polled_on, shown, text) =
              poll_from fuel (chunk_at offset).next_offset (omega (arith, short))
                (omega (arith, next, moves, short, enough))
                (subst (Fits encoding limit) left (read_limit-Fits encoding limit rest fits)) in
            (
              chunk_at offset ∷ cs,
              piece_at offset ∷ pieces,
              poll-more fuel offset cs positive h more polled_on,
              (chunk_at-content offset, shown),
              piece-tail offset (concat pieces) text,
            )
      ]

  -- A client that polls the output of a finished task from 0 on, with one limit and from each
  -- `next_offset`, is answered with `eof` after at most one query more than the file has bytes, and the
  -- contents of its chunks are the decodings of pieces that make up the file in order: with a limit of
  -- 1 byte to 1 MiB, and for UTF-16LE with one of at least two bytes and a file of an even number of
  -- bytes.
  pub poll_reads_all :
      Fits encoding limit (length file)
      → (cs : List OutputChunk) × (pieces : List Text) × (polled (length file + 1) 0 ≡ some cs)
        × Decodes decode encoding cs pieces
        × (concat pieces ≡ file)
  poll_reads_all fits =
      let whole : length file ≡ length file - 0 = omega arith in
      poll_from (length file + 1) 0 (omega arith) (omega arith)
        (subst (Fits encoding limit) whole fits)
