-- ===== src/Process/Run/Frame.antt =====
-- src/process/mod.rs, `start_task`: the executor works on one task only.
use command_api.Prelude.{
  ℕ, ◌+◌, leb, Text, Bool, true, false, ◌≡◌, refl, ◌∙◌, Option, none, some, Result, ok, err,
  Bool-cases, inl, inr, arith,
}
use command_api.Model.{StopReason, timeout, force_killed, Fault, no_signal, TaskSnapshot}
use command_api.Store.{Write, whole, torn, transition, persist}
use command_api.Process.Run.Trace.{Post, and_then-Post}
use command_api.Process.Run.{
  ExitStatus, Answers, Run, Failure, fault, panicked, add_to_instant, M, and_then, check, lift,
  publish, drop_permits, graceful_stop, forced_stop, is_force_killed, status_or_wait,
  force_stop_process, forced_end, await_tree, await_worker, stop_process, stopped, await_end,
  end_descendants, settle, finish, give_up, run_task, recover_fault, start_task, Wait, WorkerWait,
  TreeWait,
}

-- A run that works on the task with an id.
pub record IsOf (id : ℕ) (s : Run) : Type 0 where
  pub keyed : s.task.id ≡ id
  pub named : s.task.state.task_id ≡ id

abbrev Stays {ℓ} : {A : Type ℓ} → ℕ → Result Failure A × Run → Type 0
Stays id = Post (λ _. IsOf id) (λ _. IsOf id)

after {ℓ κ} :
    {A : Type ℓ} {B : Type κ} (id : ℕ) (f : A → M B) (r : Result Failure A × Run)
    → Stays id r
    → ((x : A) (s : Run) → IsOf id s → Stays id (f x s))
    → Stays id (and_then f r)
after id f r = and_then-Post (λ _. IsOf id) (λ _. IsOf id) (λ _. IsOf id) f r

Stays-IsOf {ℓ} : {A : Type ℓ} (id : ℕ) (r : Result Failure A × Run) → Stays id r → IsOf id r.1
Stays-IsOf id (ok x, s) h = h
Stays-IsOf id (err e, s) h = h

lift-Stays {ℓ} :
    {A : Type ℓ} (id : ℕ) (r : Result Fault A) (s : Run) → IsOf id s → Stays id (lift r s)
lift-Stays id (ok x) s is = is
lift-Stays id (err e) s is = is

check-Stays : (id : ℕ) (b : Bool) (e : Fault) (s : Run) → IsOf id s → Stays id (check b e s)
check-Stays id true e s is = is
check-Stays id false e s is = is

add_to_instant-Stays :
    (id last now seconds : ℕ) (s : Run) → IsOf id s → Stays id (add_to_instant last now seconds s)
unfolding add_to_instant
add_to_instant-Stays id last now seconds s is = elim (Bool-cases (leb (now + seconds) last)) [
  | inl e ↦ rw (add_to_instant, e) is
  | inr e ↦ rw (add_to_instant, e) is
]

module _ (to_vec : TaskSnapshot → Text) (a : Answers) (id : ℕ) where
  publish-Stays :
      (w : Write) (update : TaskSnapshot → TaskSnapshot) (s : Run)
      → ((update s.task.state).task_id ≡ s.task.state.task_id)
      → IsOf id s
      → Stays id (publish to_vec a w update s)
  unfolding publish transition persist
  publish-Stays whole update s h is = record { keyed = is.keyed; named = h ∙ is.named }
  publish-Stays (torn k) update s h is = record { keyed = is.keyed; named = h ∙ is.named }

  force_stop_process-Stays :
      (reason : StopReason) (graceful : Bool) (o : Option ExitStatus) (s : Run)
      → IsOf id s
      → Stays id (force_stop_process to_vec a reason graceful o s)
  unfolding force_stop_process forced_stop
  force_stop_process-Stays reason graceful o s is =
      after id _ _ (publish-Stays a.forced_write _ s refl is) λ _ s1 i1.
        after id _ _ (check-Stays id a.force_sent no_signal s1 i1) λ _ s2 i2.
          after id _ _ (waited o s2 i2)
            λ e s3 i3. after id _ _ (lift-Stays id a.forced_empty s3 i3) λ _ s4 i4. i4
    where
      waited :
          (o : Option ExitStatus) (s : Run) → IsOf id s → Stays id (status_or_wait to_vec a o s)
      waited none s is = lift-Stays id a.forced_exit s is
      waited (some e) s is = is

  forced_end-Stays :
      (reason : StopReason) (o : Option ExitStatus) (s : Run)
      → IsOf id s
      → Stays id (forced_end to_vec a reason o s)
  forced_end-Stays reason o s is =
      after id _ _ (force_stop_process-Stays reason true o s is) λ _ s1 i1. i1

  await_tree-Stays :
      (reason : StopReason) (e : ExitStatus) (t : TreeWait) (s : Run)
      → IsOf id s
      → Stays id (await_tree to_vec a reason e t s)
  unfolding await_tree
  await_tree-Stays reason e TreeWait.emptied s is = is
  await_tree-Stays reason e TreeWait.tree_failed s is = is
  await_tree-Stays reason e TreeWait.elapsed s is = forced_end-Stays reason (some e) s is
  await_tree-Stays reason e TreeWait.force_asked s is = forced_end-Stays force_killed (some e) s is

  await_worker-Stays :
      (reason : StopReason) (w : WorkerWait) (s : Run)
      → IsOf id s
      → Stays id (await_worker to_vec a reason w s)
  unfolding await_worker
  await_worker-Stays reason (WorkerWait.exited e) s is = await_tree-Stays reason e a.tree s is
  await_worker-Stays reason WorkerWait.wait_failed s is = is
  await_worker-Stays reason WorkerWait.elapsed s is = forced_end-Stays reason none s is
  await_worker-Stays reason WorkerWait.force_asked s is = forced_end-Stays force_killed none s is

  stop_process-Stays :
      (reason : StopReason) (s : Run) → IsOf id s → Stays id (stop_process to_vec a reason s)
  unfolding stop_process graceful_stop
  stop_process-Stays reason s is = elim (Bool-cases (is_force_killed reason)) [
    | inl at_once ↦
        rw at_once (after id _ _ (force_stop_process-Stays reason false none s is) λ _ s1 i1. i1)
    | inr gently ↦ rw gently (
        after id _ _ (publish-Stays a.stopping_write _ s refl is) λ _ s1 i1.
          after id _ _ (check-Stays id a.graceful_sent no_signal s1 i1) λ _ s2 i2.
            after id _ _
              (add_to_instant-Stays id a.last_instant a.stopping_at a.graceful_seconds s2 i2)
              λ _ s3 i3. await_worker-Stays reason a.worker s3 i3)
  ]

  stopped-Stays : (reason : StopReason) (s : Run) → IsOf id s → Stays id (stopped to_vec a reason s)
  stopped-Stays reason s is = after id _ _ (stop_process-Stays reason s is) λ _ s1 i1. i1

  await_end-Stays : (w : Wait) (s : Run) → IsOf id s → Stays id (await_end to_vec a w s)
  unfolding await_end
  await_end-Stays (Wait.exited e) s is = is
  await_end-Stays Wait.wait_failed s is = is
  await_end-Stays Wait.deadline s is = stopped-Stays timeout s is
  await_end-Stays (Wait.stop_requested reason) s is = stopped-Stays reason s is

  end_descendants-Stays :
      (ended : Bool) (s : Run) → IsOf id s → Stays id (end_descendants to_vec a ended s)
  unfolding forced_stop
  end_descendants-Stays true s is = is
  end_descendants-Stays false s is =
      after id _ _ (check-Stays id a.force_sent no_signal s is) λ _ s1 i1.
        after id _ _ (publish-Stays a.overrun_write _ s1 refl i1)
          λ _ s2 i2. after id _ _ (lift-Stays id a.stopped_empty s2 i2) λ _ s3 i3. i3

  settle-Stays : (o : Option StopReason) (s : Run) → IsOf id s → Stays id (settle to_vec a o s)
  unfolding settle
  settle-Stays none s is = end_descendants-Stays a.descendants_ended s is
  settle-Stays (some reason) s is = after id _ _ (lift-Stays id a.stopped_empty s is) λ _ s1 i1. i1

  run_task-Stays : (s : Run) → IsOf id s → Stays id (run_task to_vec a s)
  unfolding run_task drop_permits finish
  run_task-Stays s is = after id _ _ (lift-Stays id a.setup s is) λ _ s1 i1.
      after id _ _ (publish-Stays a.running_write _ s1 refl i1) λ _ s2 i2.
        after id _ _ (add_to_instant-Stays id a.last_instant a.running_at a.execution_seconds s2 i2)
          λ _ s2' i2'. after id _ _ (await_end-Stays a.first s2' i2') λ p s3 i3.
            after id _ _ (settle-Stays p.1 s3 i3) λ o s4 i4.
              after id _ _ (lift-Stays id a.outputs s4 i4) λ _ s5 i5.
                publish-Stays a.final_write (finish a.finished_at o p.0)
                  (record s5 { permits = false }) refl
                  (record { keyed = i5.keyed; named = i5.named })

  give_up-named : (e : Fault) (t : TaskSnapshot) → (give_up a.finished_at e t).task_id ≡ t.task_id
  unfolding give_up
  give_up-named e t = ground arith

  recover_fault-IsOf :
      (r : Result Failure (Unit {0}) × Run) → Stays id r → IsOf id (recover_fault to_vec a r)
  recover_fault-IsOf (ok x, s) is = is
  recover_fault-IsOf (err panicked, s) is = record { keyed = is.keyed; named = is.named }
  recover_fault-IsOf (err (fault e), s) is = Stays-IsOf id _ (
      publish-Stays a.failed_write (give_up a.finished_at e) (record s { permits = false })
        (give_up-named e s.task.state) (record { keyed = is.keyed; named = is.named }))

  -- The executor leaves the id of its task as it was, in the record and in the snapshot.
  pub start_task-IsOf : (s : Run) → IsOf id s → IsOf id (start_task to_vec a s)
  unfolding start_task
  start_task-IsOf s is = recover_fault-IsOf (run_task to_vec a s) (run_task-Stays s is)
