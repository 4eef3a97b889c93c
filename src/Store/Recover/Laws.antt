-- ===== src/Store/Recover/Laws.antt =====
-- src/store.rs, `recover`: the tasks after a restart.
use command_api.Prelude.{
  ℕ, ◌≤◌, Text, Bool, true, false, ◌≡◌, ◌≢◌, refl, ap, ◌∙◌, inl, inr, Option, none, some, List, [],
  ◌∷◌, ◌++◌, ok, err, >>=-eq-ok, insert, remove, nat_eq, length, if◌then◌else◌, Bool-cases, arith,
  take,
}
use command_api.Model.{TaskSnapshot, is_finished}
use command_api.Store.{
  Directory, TaskRecord, TaskStore, Write, torn, not_utf8, snapshot, put, new_record, persist,
}
use command_api.Store.Events.{is_utf8, read_latest_snapshot}
use command_api.Store.Events.Laws.{IsLog}
use command_api.Store.Events.Persist.{IsWritable, persist_torn}
use command_api.Store.Laws.{IsKeyed, put-IsKeyed}
use command_api.Store.Recover.{
  DirEntry, close, refresh_output_sizes, persist_interrupted, reopen, recover_found, recover_entry,
  put_some, recover,
}

-- Every task in the table has finished.
abbrev pub AllFinished : List (ℕ × TaskRecord) → Type 0
AllFinished [] = Unit {0}
AllFinished ((id, r) ∷ rest) = (is_finished r.state.status ≡ true) × AllFinished rest

pub remove-AllFinished :
    (id : ℕ) (l : List (ℕ × TaskRecord)) → AllFinished l → AllFinished (remove id l)
unfolding remove
remove-AllFinished id [] k = tt
remove-AllFinished id ((j, r) ∷ rest) k = ground (arith, remove-AllFinished id rest k.1)

put-AllFinished :
    (s : TaskStore) (r : TaskRecord)
    → is_finished r.state.status ≡ true
    → AllFinished s.tasks
    → AllFinished (put s r).tasks
unfolding put insert
put-AllFinished s r f k = (f, remove-AllFinished r.id s.tasks k)

pub close-IsFinished : (now : Text) (s : TaskSnapshot) → is_finished (close now s).status ≡ true
unfolding close
close-IsFinished now s = ground arith

module _ (to_vec : TaskSnapshot → Text) (from_str : Text → Option TaskSnapshot) (now : Text)
    (w : Write) where
  persist_interrupted-state :
      (r r' : TaskRecord)
      → persist_interrupted to_vec from_str now w r ≡ ok r'
      → (r'.state ≡ r.state) × (r'.output_truncated ≡ r.output_truncated)
  unfolding persist_interrupted persist
  persist_interrupted-state r r' e = ground arith

  recover_found-state :
      (entry : DirEntry) (s : TaskSnapshot) (r : TaskRecord)
      → recover_found to_vec from_str now w entry (some s) ≡ ok (some r)
      → (r.state ≡ close now s) × (r.output_truncated ≡ false)
  unfolding recover_found reopen refresh_output_sizes new_record
  recover_found-state entry s r e =
      let (q, written, same) =
        >>=-eq-ok (persist_interrupted to_vec from_str now w (reopen to_vec from_str now w entry s))
          _ e in
      let p : q ≡ r = cc in rw (← p) (persist_interrupted-state _ q written)

  -- What a recovered record is.
  abbrev pub Recovered : DirEntry → TaskRecord → Type 0
  Recovered entry r =
      (s : TaskSnapshot) × (read_latest_snapshot from_str entry.directory.events ≡ ok (some s))
      × (r.state ≡ close now s)
      × (r.output_truncated ≡ false)

  recover_found-Recovered :
      (entry : DirEntry) (r : TaskRecord) (o : Option TaskSnapshot)
      → read_latest_snapshot from_str entry.directory.events ≡ ok o
      → recover_found to_vec from_str now w entry o ≡ ok (some r)
      → Recovered entry r
  unfolding recover_found
  recover_found-Recovered entry r none read e = cc
  recover_found-Recovered entry r (some s) read e =
      let (same, clear) = recover_found-state entry s r e in (s, read, same, clear)

  recover_entry-Recovered :
      (entry : DirEntry) (r : TaskRecord)
      → recover_entry to_vec from_str now w entry ≡ ok (some r)
      → Recovered entry r
  unfolding recover_entry
  recover_entry-Recovered entry r e = elim (Bool-cases entry.is_dir) [
    | inr file ↦ cc (simp (file, recover_entry) at e)
    | inl dir ↦
        let (o, read, rest) =
          >>=-eq-ok (read_latest_snapshot from_str entry.directory.events)
            (recover_found to_vec from_str now w entry) (simp (dir, recover_entry) at e) in
        recover_found-Recovered entry r o read rest
  ]

  put_some-AllFinished :
      (s : TaskStore) (entry : DirEntry) (o : Option TaskRecord)
      → recover_entry to_vec from_str now w entry ≡ ok o
      → AllFinished s.tasks
      → AllFinished (put_some to_vec from_str now w s o).tasks
  unfolding put_some
  put_some-AllFinished s entry none e k = k
  put_some-AllFinished s entry (some r) e k =
      let (q, read, same, clear) = recover_entry-Recovered entry r e in
      put-AllFinished s r (ap (λ t. is_finished t.status) same ∙ close-IsFinished now q) k

  put_some-IsKeyed :
      (s : TaskStore) (o : Option TaskRecord)
      → IsKeyed s.tasks
      → IsKeyed (put_some to_vec from_str now w s o).tasks
  unfolding put_some
  put_some-IsKeyed s none k = k
  put_some-IsKeyed s (some r) k = put-IsKeyed s r k

  put_some-active_count :
      (s : TaskStore) (o : Option TaskRecord)
      → (put_some to_vec from_str now w s o).active_count ≡ s.active_count
  unfolding put_some
  put_some-active_count s none = refl
  put_some-active_count s (some r) = refl

  -- Whatever the directories hold, a recovery that succeeds leaves only finished tasks, each once in
  -- the table, if the table was so before, and it does not change the count of active tasks.
  pub recover_lem :
      (s t : TaskStore) (entries : List DirEntry)
      → AllFinished s.tasks
      → IsKeyed s.tasks
      → recover to_vec from_str now w s entries ≡ ok t
      → AllFinished t.tasks × IsKeyed t.tasks × (t.active_count ≡ s.active_count)
  unfolding recover
  recover_lem s t [] f k e = ground arith
  recover_lem s t (entry ∷ rest) f k e =
      let (o, found, next) = >>=-eq-ok (recover_entry to_vec from_str now w entry) _ e in
      let (f', k', same) =
        recover_lem (put_some to_vec from_str now w s o) t rest
          (put_some-AllFinished s entry o found f) (put_some-IsKeyed s o k) next in
      (f', k', same ∙ put_some-active_count s o)

  -- The flag `output_truncated` of a recovered task is lost: its snapshot shows `false`, also where
  -- the last snapshot of its log has `true`.
  pub recover_entry-output_truncated :
      (entry : DirEntry) (r : TaskRecord)
      → recover_entry to_vec from_str now w entry ≡ ok (some r)
      → (snapshot r).output_truncated ≡ false
  unfolding snapshot
  recover_entry-output_truncated entry r e =
      let (s, read, same, clear) = recover_entry-Recovered entry r e in clear

  recover_fails :
      (before : List DirEntry) (entry : DirEntry) (after : List DirEntry) (s t : TaskStore)
      → recover_entry to_vec from_str now w entry ≡ err not_utf8
      → recover to_vec from_str now w s (before ++ entry ∷ after) ≢ ok t
  unfolding recover
  recover_fails [] entry after s t h e =
      let (o, found, next) = >>=-eq-ok (recover_entry to_vec from_str now w entry) _ e in cc
  recover_fails (b ∷ before) entry after s t h e =
      let (o, found, next) = >>=-eq-ok (recover_entry to_vec from_str now w b) _ e in
      recover_fails before entry after (put_some to_vec from_str now w s o) t h next

  torn_entry :
      (d : Directory)
      → read_latest_snapshot from_str d.events ≡ err not_utf8
      → recover_entry to_vec from_str now w (record { is_dir = true; directory = d }) ≡ err not_utf8
  unfolding recover_entry
  torn_entry d e = rw e

  -- Recovery fails once a crash has cut the last line of one event log inside a character: the
  -- line is an error and is not skipped, whatever other directories there are.
  pub recover_torn_character :
      (before after : List DirEntry) (s t : TaskStore) (r : TaskRecord)
      (latest : Option TaskSnapshot) (k : ℕ)
      → IsLog from_str r.directory.events latest
      → IsWritable to_vec from_str (snapshot r)
      → k ≤ length (to_vec (snapshot r))
      → from_str (take k (to_vec (snapshot r))) ≡ none
      → is_utf8 (take k (to_vec (snapshot r))) ≡ false
      → recover to_vec from_str now w s (
          before
          ++ record { is_dir = true; directory = (persist to_vec (torn k) r).0.directory } ∷ after)
        ≢ ok t
  recover_torn_character before after s t r latest k log v h e u =
      recover_fails before _ after s t (
        torn_entry (persist to_vec (torn k) r).0.directory
          (persist_torn to_vec from_str r latest k log v h e ∙ cut u))
    where
      cut : {b : Bool} → b ≡ false → (if b then ok latest else err not_utf8) ≡ err not_utf8
      cut c = rw c
