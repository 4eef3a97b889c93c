-- ===== src/Store/Abstract/Steps.antt =====
-- src/store.rs: what a step on the table of tasks does to one task.
use command_api.Prelude.{
  ℕ, ◌^◌, ◌<◌, Bool, true, false, ◌≡◌, refl, sym, ap, ◌∙◌, subst, Option, none, some, if◌then◌else◌,
  ◌==◌, Option-cases, Bool-cases, inl, inr, arith, fun_ext, nat_eq,
}
use command_api.Model.{StopReason, is_finished}
use command_api.Store.{
  TaskRecord, TaskStore, get, put, snapshot, request_stop, request_stop_now, cancel_all,
}
use command_api.Store.Laws.{IsKeyed, get-put, get-id, put-IsKeyed, cancel_all-get}
use command_api.Store.Abstract.{
  Tasks, tasks_of, Answer, done, after_stop, with_task, is_running, told,
}

-- What the store keeps: each task stands once, and the retention survives the cast to `i64`.
pub record IsStore (s : TaskStore) : Type 0 where
  pub keyed : IsKeyed s.tasks
  pub positive : 0 < s.retention_seconds
  pub small : s.retention_seconds < 2 ^ 63

-- That a step on the store does what one on its tasks does.
abbrev pub Agrees : Answer × TaskStore → Answer × Tasks → Type 0
Agrees (x, s) y = ((x, tasks_of s) ≡ y) × IsStore s

-- A step that changes the tasks alone.
pub retasked :
    (s t : TaskStore) (b c : Bool) (f : ℕ → Option TaskRecord)
    → IsStore s
    → b ≡ c
    → ((j : ℕ) → get t j ≡ f j)
    → t.active_count ≡ s.active_count
    → t.retention_seconds ≡ s.retention_seconds
    → IsKeyed t.tasks
    → Agrees (done b, t) (done c, record (tasks_of s) { task = f })
retasked s t b c f h same tasks count retention keyed = (
  let found : get t ≡ f = fun_ext tasks in cc,
  record { keyed = keyed; positive = rw retention h.positive; small = rw retention h.small },
)

pub put-Agrees :
    (s : TaskStore) (r : TaskRecord) (n : ℕ)
    → IsStore s
    → Agrees
        (done true, record (put s r) { active_count = n })
        (done true, record (with_task (tasks_of s) r.id r) { active_count = n })
unfolding put get
put-Agrees s r n h = (
  ap (λ f. (done true, record (tasks_of s) { active_count = n; task = f })) (fun_ext (get-put s r)),
  record { keyed = put-IsKeyed s r h.keyed; positive = h.positive; small = h.small },
)

unfoldable pub told_at : (s : TaskStore) (id : ℕ) → StopReason → ℕ → Option TaskRecord
told_at s id reason j = if id == j then told reason (get s j) else get s j

told_missing :
    (s : TaskStore) (id : ℕ) (reason : StopReason)
    → get s id ≡ none
    → (j : ℕ) → get s j ≡ told_at s id reason j
unfolding told_at
told_missing s id reason n j = ground arith

told_over :
    (s : TaskStore) (id : ℕ) (reason : StopReason) (r : TaskRecord)
    → get s id ≡ some r
    → is_finished r.state.status ≡ true
    → (j : ℕ) → get s j ≡ told_at s id reason j
unfolding told_at
told_over s id reason r f over j = elim (Bool-cases (id == j)) [
  | inl same ↦ let g : get s j ≡ some r = ground arith in rw (same, g, over) refl
  | inr other ↦ rw other refl
]

told_live :
    (s : TaskStore) (id : ℕ) (reason : StopReason) (r : TaskRecord)
    → r.id ≡ id
    → get s id ≡ some r
    → is_finished r.state.status ≡ false
    → (j : ℕ) → get (put s (request_stop_now reason r)) j ≡ told_at s id reason j
unfolding told_at request_stop_now
told_live s id reason r named f live j = elim (Bool-cases (id == j)) [
  | inl same ↦
      let g : get s j ≡ some r = ground arith in
      let n : (r.id == j) ≡ true = ground arith in
      get-put s (request_stop_now reason r) j ∙ rw (n, same, g, live) refl
  | inr other ↦ get-put s (request_stop_now reason r) j ∙ ground arith
]

pub cancel_all-told :
    (s : TaskStore) (reason : StopReason) (j : ℕ)
    → get (cancel_all s reason) j ≡ told reason (get s j)
unfolding request_stop_now
cancel_all-told s reason j = cancel_all-get s reason j ∙ same (get s j)
  where
    same :
        (o : Option TaskRecord)
        → (elim o [
          | none ↦ none
          | some r ↦ some (if is_finished r.state.status then r else request_stop_now reason r)
        ])
          ≡ told reason o
    same none = refl
    same (some r) = refl

pub cancel_all-same :
    (s : TaskStore) (reason : StopReason)
    → ((cancel_all s reason).active_count ≡ s.active_count)
      × ((cancel_all s reason).retention_seconds ≡ s.retention_seconds)
unfolding cancel_all
cancel_all-same s reason = (refl, refl)

-- The task under an id is told to stop.
pub stop-Agrees :
    (s : TaskStore) (id : ℕ) (reason : StopReason)
    → IsStore s
    → Agrees
        (after_stop (request_stop s id reason))
        (done (is_running (get s id)), record (tasks_of s) { task = told_at s id reason })
unfolding request_stop request_stop_now snapshot put
stop-Agrees s id reason h = elim (Option-cases (get s id)) [
  | inl n ↦
      answered s false (rw (request_stop, n) refl) (rw n refl) (told_missing s id reason n) refl
        refl h.keyed
  | inr (r, f) ↦ elim (Bool-cases (is_finished r.state.status)) [
    | inl over ↦
        answered s false (rw (request_stop, f, over) refl) (rw (f, over) refl)
          (told_over s id reason r f over) refl refl h.keyed
    | inr live ↦
        let r' = request_stop_now reason r in
        answered (put s r') true (rw (request_stop, f, live) refl) (rw (f, live) refl)
          (told_live s id reason r (get-id s id r h.keyed f) f live) refl refl
          (put-IsKeyed s r' h.keyed)
  ]
]
  where
    answered :
        (t : TaskStore) (b : Bool)
        → request_stop s id reason ≡ (t, b)
        → b ≡ is_running (get s id)
        → ((j : ℕ) → get t j ≡ told_at s id reason j)
        → t.active_count ≡ s.active_count
        → t.retention_seconds ≡ s.retention_seconds
        → IsKeyed t.tasks
        → Agrees
            (after_stop (request_stop s id reason))
            (done (is_running (get s id)), record (tasks_of s) { task = told_at s id reason })
    answered t b e same tasks count retention keyed =
        subst
          (λ x.
            Agrees (after_stop x)
              (done (is_running (get s id)), record (tasks_of s) { task = told_at s id reason }))
          (sym e)
          (retasked s t b (is_running (get s id)) (told_at s id reason) h same tasks count retention
            keyed)
