-- ===== src/Store/Open/Laws.antt =====
-- src/store.rs, `open`: the store that the service starts with.
use command_api.Prelude.{
  ℕ, ◌^◌, ◌<◌, Text, true, false, not, ◌≡◌, refl, ◌∙◌, Option, none, some, List, [], ◌∷◌, ok,
  >>=-eq-ok, bail_if, map_err, map_err-eq-ok, nat_eq, remove, is_empty, Bool-cases, inl, inr, arith,
}
use command_api.Model.{TaskSnapshot, Parse}
use command_api.Store.{TaskRecord, TaskStore, Write, get, is_idle}
use command_api.Store.Laws.{IsKeyed, remove-IsKeyed}
use command_api.Store.Recover.{DirEntry, recover, put_some, recover_entry}
use command_api.Store.Recover.Laws.{AllFinished, remove-AllFinished, recover_lem}
use command_api.Store.Cleanup.{expired, remove_all, cleanup_expired}
use command_api.Store.Cleanup.Laws.{unless_aged, is_aged, cleanup_expired_lem}
use command_api.Store.Open.{
  Opening, no_tasks_directory, no_lock_file, already_locked, not_recovered, empty_store, open_store,
}

remove_all-AllFinished :
    (ids : List ℕ) (l : List (ℕ × TaskRecord))
    → AllFinished l
    → IsKeyed l
    → AllFinished (remove_all ids l) × IsKeyed (remove_all ids l)
unfolding remove_all
remove_all-AllFinished [] l f k = (f, k)
remove_all-AllFinished (id ∷ ids) l f k =
    remove_all-AllFinished ids (remove id l) (remove-AllFinished id l f) (remove-IsKeyed id l k)

cleanup_expired-AllFinished :
    (parse : Parse) (now : ℕ) (s : TaskStore)
    → AllFinished s.tasks
    → IsKeyed s.tasks
    → AllFinished (cleanup_expired parse now s).tasks
      × IsKeyed (cleanup_expired parse now s).tasks
      × ((cleanup_expired parse now s).active_count ≡ s.active_count)
unfolding cleanup_expired
cleanup_expired-AllFinished parse now s f k =
    elim (Bool-cases (is_empty (expired parse now s.retention_seconds s.tasks))) [
      | inl e ↦ rw e (f, k, refl)
      | inr e ↦ rw e (
          let (f', k') =
            remove_all-AllFinished (expired parse now s.retention_seconds s.tasks) s.tasks f k in
          (f', k', refl))
    ]

-- Recovery leaves the settings of the store.
recover-retention :
    (to_vec : TaskSnapshot → Text) (from_str : Text → Option TaskSnapshot) (now : Text) (w : Write)
    (s t : TaskStore) (entries : List DirEntry)
    → recover to_vec from_str now w s entries ≡ ok t
    → t.retention_seconds ≡ s.retention_seconds
unfolding recover put_some
recover-retention to_vec from_str now w s t [] e = cc
recover-retention to_vec from_str now w s t (entry ∷ rest) e =
    let (o, found, next) = >>=-eq-ok (recover_entry to_vec from_str now w entry) _ e in
    recover-retention to_vec from_str now w (put_some to_vec from_str now w s o) t rest next
    ∙ same o
  where
    same :
        (o : Option TaskRecord)
        → (put_some to_vec from_str now w s o).retention_seconds ≡ s.retention_seconds
    same none = refl
    same (some r) = refl

-- A store that has just been opened: its tasks are finished, each once in the table, none of them as
-- old as the retention, and no task is at work.
pub record IsOpened (parse : Parse) (now retention : ℕ) (s : TaskStore) : Type 0 where
  pub finished : AllFinished s.tasks
  pub keyed : IsKeyed s.tasks
  pub idle : is_idle s ≡ true
  pub young :
      (id : ℕ) (r : TaskRecord)
      → get s id ≡ some r
      → is_aged parse now retention r.state.finished_at ≡ false

aged_gone :
    (parse : Parse) (now retention : ℕ) (o : Option TaskRecord) (r : TaskRecord)
    → unless_aged parse now retention o ≡ some r
    → is_aged parse now retention r.state.finished_at ≡ false
aged_gone parse now retention none r e = cc
aged_gone parse now retention (some q) r e = ground arith

-- The cleanup of a store that holds finished tasks only.
cleanup_expired-IsOpened :
    (parse : Parse) (now retention : ℕ) (t : TaskStore)
    → AllFinished t.tasks
    → IsKeyed t.tasks
    → t.active_count ≡ 0
    → t.retention_seconds ≡ retention
    → 0 < retention
    → retention < 2 ^ 63
    → IsOpened parse now retention (cleanup_expired parse now t)
unfolding is_idle get
cleanup_expired-IsOpened parse now retention t f k active same_retention p h =
    let (f', k', same) = cleanup_expired-AllFinished parse now t f k in
    record {
      finished = f';
      keyed = k';
      idle = rw (same, active) refl;
      young = λ id r found. aged_gone parse now retention (get t id) r (
          rw
            (
              cleanup_expired_lem parse now t id k (rw same_retention p) (rw same_retention h),
              same_retention,
            )
            at found);
    }

-- Whatever the directories of the tasks hold, a store that opens with a retention of 1 to 2^63 - 1
-- seconds has only finished tasks, each once in the table, none with a readable time of finish that
-- lies back at least the retention, and it is idle.
pub open_store-IsOpened :
    (to_vec : TaskSnapshot → Text) (from_str : Text → Option TaskSnapshot) (parse : Parse)
    (now_text : Text) (now retention_seconds max_output_bytes : ℕ) (o : Opening) (s : TaskStore)
    → 0 < retention_seconds
    → retention_seconds < 2 ^ 63
    → open_store to_vec from_str parse now_text now retention_seconds max_output_bytes o ≡ ok s
    → IsOpened parse now retention_seconds s
unfolding open_store
open_store-IsOpened to_vec from_str parse now_text now retention_seconds max_output_bytes o s p h
      e =
    let (u1, a1, e1) = >>=-eq-ok (bail_if (not o.made) no_tasks_directory) _ e in
    let (u2, a2, e2) = >>=-eq-ok (bail_if (not o.lock_file) no_lock_file) _ e1 in
    let (u3, a3, e3) = >>=-eq-ok (bail_if (not o.locked) already_locked) _ e2 in
    let start = empty_store max_output_bytes retention_seconds in
    let (t, recovered, e4) =
      >>=-eq-ok (map_err not_recovered (recover to_vec from_str now_text o.write start o.entries)) _
        e3 in
    let done = map_err-eq-ok not_recovered _ recovered in
    let (f, k, active) =
      recover_lem to_vec from_str now_text o.write start t o.entries tt tt done in
    let kept : t.retention_seconds ≡ retention_seconds =
      recover-retention to_vec from_str now_text o.write start t o.entries done in
    let same : cleanup_expired parse now t ≡ s = cc in
    rw (← same) (cleanup_expired-IsOpened parse now retention_seconds t f k active kept p h)
