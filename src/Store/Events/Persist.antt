-- ===== src/Store/Events/Persist.antt =====
-- src/store.rs, `persist` and `transition`: the event log and the snapshot in memory.
use command_api.Prelude.{
  ℕ, zero, suc, ◌≤◌, Text, true, false, ◌≡◌, refl, ap, ◌∙◌, Option, none, some, [], ◌∷◌, ◌++◌, ok,
  err, if◌then◌else◌, ends_with, contains, take, length, arith,
}
use command_api.Model.{TaskSnapshot}
use command_api.Store.{contents, TaskRecord, not_utf8, whole, torn, snapshot, persist, transition}
use command_api.Store.Events.{is_utf8, lines, read_lines, read_latest_snapshot}
use command_api.Store.Events.Laws.{
  IsWhole, IsLog, lines_one, lines_torn, trim_line_one, trim_line_torn, is_utf8-newline,
  read_latest-append,
}

-- What `serde_json` does for a snapshot: compact JSON is one line of UTF-8 that is read back.
pub record IsWritable (to_vec : TaskSnapshot → Text) (from_str : Text → Option TaskSnapshot)
    (s : TaskSnapshot) : Type 0 where
  pub read_back : from_str (to_vec s) ≡ some s
  pub one_line : contains 10 (to_vec s) ≡ false
  pub no_cr : ends_with 13 (to_vec s) ≡ false
  pub utf8 : is_utf8 (to_vec s) ≡ true

IsWhole-append : (log line : Text) → IsWhole (log ++ (line ++ 10 ∷ []))
IsWhole-append [] [] = refl
IsWhole-append [] (x ∷ []) = refl
IsWhole-append [] (x ∷ y ∷ ys) = IsWhole-append [] (y ∷ ys)
IsWhole-append (x ∷ []) [] = refl
IsWhole-append (x ∷ []) (y ∷ ys) = IsWhole-append [] (y ∷ ys)
IsWhole-append (x ∷ y ∷ ys) line = IsWhole-append (y ∷ ys) line

take-append : (k : ℕ) (s t : Text) → k ≤ length s → take k (s ++ t) ≡ take k s
take-append zero s t h = refl
take-append (suc k) [] t h = absurd (omega arith)
take-append (suc k) (x ∷ s) t h = ap (◌∷◌ x) (take-append k s t (omega arith))

contains-take : (c k : ℕ) (s : Text) → contains c s ≡ false → contains c (take k s) ≡ false
contains-take c zero s h = refl
contains-take c (suc k) [] h = refl
contains-take c (suc k) (x ∷ s) h = ground (arith, contains-take c k s)

module _ (to_vec : TaskSnapshot → Text) (from_str : Text → Option TaskSnapshot) where
  read_lines_one :
      (latest : Option TaskSnapshot) (s : TaskSnapshot)
      → IsWritable to_vec from_str s
      → read_lines from_str latest (lines (to_vec s ++ 10 ∷ [])) ≡ ok (some s)
  unfolding read_lines
  read_lines_one latest s v = rw (
    lines_one (to_vec s) v.one_line,
    is_utf8-newline (to_vec s) v.utf8,
    trim_line_one (to_vec s) v.no_cr,
    v.read_back,
  )

  -- A record whose line is written whole is read back from its log, with all that its state holds.
  pub persist-IsLog :
      (r : TaskRecord) (latest : Option TaskSnapshot)
      → IsLog from_str r.directory.events latest
      → IsWritable to_vec from_str (snapshot r)
      → IsLog from_str (persist to_vec whole r).0.directory.events (some (snapshot r))
  unfolding persist
  persist-IsLog r latest log v = (
    IsWhole-append (contents r.directory.events) (to_vec (snapshot r)),
    read_latest-append from_str r.directory.events latest (to_vec (snapshot r) ++ 10 ∷ []) log
        ∙ read_lines_one latest (snapshot r) v,
  )

  -- After a transition whose line is written whole, the log reads back as the snapshot that is in
  -- memory, if the log was whole lines before and the new snapshot's text reads back as itself.
  pub transition-IsLog :
      (r : TaskRecord) (latest : Option TaskSnapshot) (update : TaskSnapshot → TaskSnapshot)
      → IsLog from_str r.directory.events latest
      → IsWritable to_vec from_str (snapshot (transition to_vec whole update r).0)
      → IsLog from_str
          (transition to_vec whole update r).0.directory.events
          (some (snapshot (transition to_vec whole update r).0))
  unfolding transition
  transition-IsLog r latest update log v =
      persist-IsLog
        (record r { state = record (update r.state) { output_truncated = r.output_truncated } })
        latest log v

  read_lines_torn :
      (latest : Option TaskSnapshot) (p : Text)
      → contains 10 p ≡ false
      → from_str p ≡ none
      → read_lines from_str latest (lines p) ≡ (if is_utf8 p then ok latest else err not_utf8)
  unfolding read_lines lines is_utf8
  read_lines_torn latest [] h e = refl
  read_lines_torn latest (x ∷ p) h e = rw (lines_torn x p h, trim_line_torn (x ∷ p) h, e)

  -- A line cut short by a crash is ignored, and the snapshot before it is read, if it is cut between
  -- two characters. Cut inside a character it is an error of the whole log.
  pub persist_torn :
      (r : TaskRecord) (latest : Option TaskSnapshot) (k : ℕ)
      → IsLog from_str r.directory.events latest
      → IsWritable to_vec from_str (snapshot r)
      → k ≤ length (to_vec (snapshot r))
      → from_str (take k (to_vec (snapshot r))) ≡ none
      → read_latest_snapshot from_str (persist to_vec (torn k) r).0.directory.events
        ≡ (if is_utf8 (take k (to_vec (snapshot r))) then ok latest else err not_utf8)
  unfolding persist
  persist_torn r latest k log v h e =
      let line = to_vec (snapshot r) in
      read_latest-append from_str r.directory.events latest (take k (line ++ 10 ∷ [])) log
      ∙ rw (take-append k line (10 ∷ []) h)
          (read_lines_torn latest (take k line) (contains-take 10 k line v.one_line) e)
