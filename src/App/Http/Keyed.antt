-- ===== src/App/Http/Keyed.antt =====
-- src/app.rs: each task stands once in the store, also after a request that adds or stops one.
use command_api.Prelude.{
  ℕ, Text, Bool, true, false, ◌≡◌, refl, sym, subst, List, Result, ok, err, >>=-eq-ok, ok_or,
  map_err, map_err-eq-ok, lookup, lookup-remove, nat_eq, text_keys, Option-cases, Bool-cases, inl,
  inr, arith,
}
use command_api.Model.{TaskSnapshot, OutputMode, StopReason, is_finished}
use command_api.Config.{OutputEncoding}
use command_api.Store.{
  TaskStore, StoreError, TaskRecord, Write, whole, torn, create, persist, put, get, request_stop,
  request_stop_now,
}
use command_api.Store.Laws.{IsKeyed, put-IsKeyed, remove-IsKeyed}
use command_api.App.Execute.{
  AppState, admit, create_task, execute, not_found, task_create_failed, mode_of,
}
use command_api.App.Execute.Acquire.{admit-Admitted}
use command_api.App.Handlers.{stop_task}

abbrev Keeps : Result StoreError (TaskRecord × TaskStore) → Type 0
Keeps (ok (r, t)) = IsKeyed t.tasks
Keeps (err e) = Unit {0}

create-Keeps :
    (to_vec : TaskSnapshot → Text) (s : TaskStore) (id : ℕ) (now : Text) (made : Bool) (w : Write)
    (route : Text) (mode : OutputMode) (encoding : OutputEncoding)
    → IsKeyed s.tasks
    → Keeps (create to_vec s id now made w route mode encoding)
unfolding create persist put
create-Keeps to_vec s id now false w route mode encoding k = tt
create-Keeps to_vec s id now true (torn n) route mode encoding k = tt
create-Keeps to_vec s id now true whole route mode encoding k =
    (refl, ground (arith, lookup-remove id id s.tasks), remove-IsKeyed id s.tasks k)

create_task-IsKeyed :
    (to_vec : TaskSnapshot → Text) (app left : AppState) (path : Text) (id : ℕ) (now : Text)
    (made : Bool) (w : Write) (r : TaskRecord)
    → IsKeyed app.store.tasks
    → create_task to_vec app path id now made w ≡ ok (r, left)
    → IsKeyed left.store.tasks
unfolding create_task
create_task-IsKeyed to_vec app left path id now made w r k e =
    let (route, e2, rest) = >>=-eq-ok (ok_or (lookup path app.routes) not_found) _ e in
    let (pair, e3, last) =
      >>=-eq-ok
        (map_err (λ x. task_create_failed)
          (create to_vec app.store id now made w route.config.path
            (mode_of route.config.merge_stdout_stderr) route.config.output_encoding))
        _ rest in
    let e4 = map_err-eq-ok (λ x. task_create_failed) _ e3 in
    let kept : IsKeyed pair.1.tasks =
      subst Keeps e4 (create-Keeps to_vec app.store id now made w _ _ _ k) in
    let same : pair.1 ≡ left.store = cc in subst (λ s. IsKeyed s.tasks) same kept

pub execute-IsKeyed :
    (to_vec : TaskSnapshot → Text) (app left : AppState) (path : Text) (args : List Text) (id : ℕ)
    (now : Text) (made : Bool) (w : Write) (r : TaskRecord)
    → IsKeyed app.store.tasks
    → execute to_vec app path args id now made w ≡ ok (r, left)
    → IsKeyed left.store.tasks
unfolding execute
execute-IsKeyed to_vec app left path args id now made w r k e =
    let (admitted, e1, rest) = >>=-eq-ok (admit app path args) _ e in
    let a = admit-Admitted app admitted path args e1 in
    create_task-IsKeyed to_vec admitted left path id now made w r
      (subst (λ x. IsKeyed x.store.tasks) (sym a.same) k) rest

pub stop_task-IsKeyed :
    (reason : StopReason) (s t : TaskStore) (id : ℕ)
    → IsKeyed s.tasks
    → stop_task reason s id ≡ ok t
    → IsKeyed t.tasks
unfolding stop_task request_stop
stop_task-IsKeyed reason s t id k e = elim (Option-cases (get s id)) [
  | inl n ↦ cc (rw n at e)
  | inr (r, f) ↦ elim (Bool-cases (is_finished r.state.status)) [
    | inl over ↦ let g = rw (request_stop, f, over) at e in cc
    | inr live ↦
        let g = rw (request_stop, f, live) at e in
        let same : put s (request_stop_now reason r) ≡ t = cc in
        subst (λ u. IsKeyed u.tasks) same (put-IsKeyed s (request_stop_now reason r) k)
  ]
]
