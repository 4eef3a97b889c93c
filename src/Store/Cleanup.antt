-- ===== src/Store/Cleanup.antt =====
-- src/store.rs, `cleanup_expired`: finished tasks are dropped once they are old enough.
-- The removal of a directory may fail, which is only logged.
pub mod Laws
pub mod Ticks
use command_api.Prelude.{
  ℕ, Text, Bool, false, Option, none, some, List, [], ◌∷◌, if◌then◌else◌, div_sub, geb_ℤ, as_i64,
  remove, nat_eq, is_empty,
}
use command_api.Model.{Parse}
use command_api.Store.{TaskRecord, TaskStore}

-- `(now - finished_at).whole_seconds() >= self.retention.as_secs() as i64`
abbrev pub is_old : (now retention finished : ℕ) → Bool
is_old now retention finished = geb_ℤ (div_sub now finished 1000000000) (as_i64 retention)

-- The tests of the loop over the records; a time that does not parse is passed over.
abbrev parsed_old : (now retention : ℕ) → Option ℕ → Bool
parsed_old now retention none = false
parsed_old now retention (some t) = is_old now retention t

abbrev finished_old : Parse → (now retention : ℕ) → Option Text → Bool
finished_old parse now retention none = false
finished_old parse now retention (some t) = parsed_old now retention (parse t)

unfoldable pub is_expired : Parse → (now retention : ℕ) → TaskRecord → Bool
is_expired parse now retention r = finished_old parse now retention r.state.finished_at

unfoldable pub expired : Parse → (now retention : ℕ) → List (ℕ × TaskRecord) → List ℕ
unfolding is_expired
expired parse now retention [] = []
expired parse now retention ((id, r) ∷ rest) =
    let ids = expired parse now retention rest in
    if is_expired parse now retention r then r.id ∷ ids else ids

unfoldable pub remove_all : List ℕ → List (ℕ × TaskRecord) → List (ℕ × TaskRecord)
remove_all [] tasks = tasks
remove_all (id ∷ ids) tasks = remove_all ids (remove id tasks)

unfoldable pub cleanup_expired : Parse → (now : ℕ) → TaskStore → TaskStore
unfolding expired remove_all remove
cleanup_expired parse now s =
    let ids = expired parse now s.retention_seconds s.tasks in
    if is_empty ids then s else record s { tasks = remove_all ids s.tasks }
