-- ===== src/Store/Cleanup/Laws.antt =====
-- src/store.rs, `cleanup_expired`: which tasks it drops.
use command_api.Prelude.{
  ℕ, ◌+◌, ◌*◌, ◌^◌, ◌≤◌, ◌<◌, Text, Bool, true, false, ◌≡◌, ◌↔◌, refl, ap, ◌∙◌, inl, inr, Option,
  none, some, List, [], ◌∷◌, lookup, remove, lookup-remove, nat_eq, ◌==◌, any, if◌then◌else◌,
  Option-cases, Bool-cases, is_empty, leb, arith,
}
use command_api.Model.{Parse}
use command_api.Store.{TaskRecord, TaskStore, get}
use command_api.Store.Laws.{IsKeyed, remove-IsKeyed}
use command_api.Store.Cleanup.{is_old, is_expired, expired, remove_all, cleanup_expired}

lookup-remove_all :
    (ids : List ℕ) (j : ℕ) (l : List (ℕ × TaskRecord))
    → lookup j (remove_all ids l) ≡ (if any (λ i. i == j) ids then none else lookup j l)
unfolding remove_all
lookup-remove_all [] j l = refl
lookup-remove_all (i ∷ ids) j l =
    ground (arith, lookup-remove_all ids j (remove i l), lookup-remove i j l)

remove_all-IsKeyed :
    (ids : List ℕ) (l : List (ℕ × TaskRecord)) → IsKeyed l → IsKeyed (remove_all ids l)
unfolding remove_all
remove_all-IsKeyed [] l k = k
remove_all-IsKeyed (id ∷ ids) l k = remove_all-IsKeyed ids (remove id l) (remove-IsKeyed id l k)

-- The cleanup changes the table alone.
pub cleanup_expired-same :
    (parse : Parse) (now : ℕ) (s : TaskStore)
    → IsKeyed s.tasks
    → ((cleanup_expired parse now s).active_count ≡ s.active_count)
      × ((cleanup_expired parse now s).retention_seconds ≡ s.retention_seconds)
      × IsKeyed (cleanup_expired parse now s).tasks
unfolding cleanup_expired
cleanup_expired-same parse now s k =
    let ids = expired parse now s.retention_seconds s.tasks in
    elim (Bool-cases (is_empty ids)) [
      | inl none_old ↦ rw none_old (refl, refl, k)
      | inr some_old ↦ rw some_old (refl, refl, remove_all-IsKeyed ids s.tasks k)
    ]

-- What the cleanup does to the task under one id.
abbrev pub kept : Bool → TaskRecord → Option TaskRecord
kept old r = if old then none else some r

abbrev pub survivor : Parse → (now retention : ℕ) → Option TaskRecord → Option TaskRecord
survivor parse now retention none = none
survivor parse now retention (some r) = kept (is_expired parse now retention r) r

abbrev expired_in : Parse → (now retention : ℕ) → Option TaskRecord → Bool
expired_in parse now retention none = false
expired_in parse now retention (some r) = is_expired parse now retention r

expired-lookup :
    (parse : Parse) (now retention j : ℕ) (l : List (ℕ × TaskRecord))
    → IsKeyed l
    → any (λ i. i == j) (expired parse now retention l)
      ≡ expired_in parse now retention (lookup j l)
unfolding expired lookup
expired-lookup parse now retention j [] k = refl
expired-lookup parse now retention j ((id, r) ∷ rest) k =
    ground (arith, expired-lookup parse now retention j rest k.2)

-- The cleanup takes away exactly the expired tasks, and leaves every other task as it was.
pub cleanup_expired-get :
    (parse : Parse) (now : ℕ) (s : TaskStore) (id : ℕ)
    → IsKeyed s.tasks
    → get (cleanup_expired parse now s) id ≡ survivor parse now s.retention_seconds (get s id)
unfolding cleanup_expired get
cleanup_expired-get parse now s id k = ground (
  arith,
  lookup-remove_all (expired parse now s.retention_seconds s.tasks) id s.tasks,
  expired-lookup parse now s.retention_seconds id s.tasks k,
)

is_old_iff :
    (now retention f : ℕ)
    → 0 < retention
    → retention < 2 ^ 63
    → (is_old now retention f ≡ true) ↔ (f + retention * 1000000000 ≤ now)
is_old_iff now retention f p h = ground arith

is_old_overflow :
    (now retention f : ℕ)
    → 2 ^ 63 ≤ retention
    → retention < 2 ^ 64
    → f ≤ now
    → is_old now retention f ≡ true
is_old_overflow now retention f p h l = ground arith

-- The age test in seconds, without machine integers.
abbrev parsed_aged : (now retention : ℕ) → Option ℕ → Bool
parsed_aged now retention none = false
parsed_aged now retention (some f) = leb (f + retention * 1000000000) now

abbrev pub is_aged : Parse → (now retention : ℕ) → Option Text → Bool
is_aged parse now retention none = false
is_aged parse now retention (some t) = parsed_aged now retention (parse t)

abbrev pub unless_aged : Parse → (now retention : ℕ) → Option TaskRecord → Option TaskRecord
unless_aged parse now retention none = none
unless_aged parse now retention (some r) = kept (is_aged parse now retention r.state.finished_at) r

is_expired-is_aged :
    (parse : Parse) (now retention : ℕ) (r : TaskRecord)
    → 0 < retention
    → retention < 2 ^ 63
    → is_expired parse now retention r ≡ is_aged parse now retention r.state.finished_at
unfolding is_expired
is_expired-is_aged parse now retention r p h = elim (Option-cases r.state.finished_at) [
  | inl e ↦ rw (e, is_expired)
  | inr (t, e) ↦
      rw (e, is_expired)
        (elim (Option-cases (parse t)) [
          | inl n ↦ rw n
          | inr (f, n) ↦ rw n (ground (arith, is_old_iff now retention f p h))
        ])
]

-- With a retention of 1 to 2^63 - 1 seconds, over a table with one entry for each task: the cleanup
-- takes away exactly the tasks with a readable time of finish that lies back at least the retention;
-- every other task, each unfinished one among them, is found as it was, and no task is added.
pub cleanup_expired_lem :
    (parse : Parse) (now : ℕ) (s : TaskStore) (id : ℕ)
    → IsKeyed s.tasks
    → 0 < s.retention_seconds
    → s.retention_seconds < 2 ^ 63
    → get (cleanup_expired parse now s) id ≡ unless_aged parse now s.retention_seconds (get s id)
cleanup_expired_lem parse now s id k p h = cleanup_expired-get parse now s id k ∙ same (get s id)
  where
    same :
        (o : Option TaskRecord)
        → survivor parse now s.retention_seconds o ≡ unless_aged parse now s.retention_seconds o
    same none = refl
    same (some r) = ap (λ b. kept b r) (is_expired-is_aged parse now s.retention_seconds r p h)

-- With a retention of 2^63 seconds or more, which the configuration accepts, the cast to `i64` turns
-- negative, and the cleanup takes away every task as soon as it has finished.
pub cleanup_retention_overflow :
    (parse : Parse) (now : ℕ) (s : TaskStore) (id : ℕ) (r : TaskRecord) (t : Text) (f : ℕ)
    → IsKeyed s.tasks
    → 2 ^ 63 ≤ s.retention_seconds
    → s.retention_seconds < 2 ^ 64
    → get s id ≡ some r
    → r.state.finished_at ≡ some t
    → parse t ≡ some f
    → f ≤ now
    → get (cleanup_expired parse now s) id ≡ none
unfolding is_expired
cleanup_retention_overflow parse now s id r t f k p h e d q l =
    cleanup_expired-get parse now s id k
    ∙ rw (e, d, q, is_old_overflow now s.retention_seconds f p h l)
