-- ===== src/Process/Run/Outcome.antt =====
-- src/process/mod.rs, `run_task`: what the final snapshot of a task says of how it ended.
use command_api.Prelude.{
  ℕ, ◌+◌, leb, Text, Bool, true, false, ◌≡◌, ◌≢◌, refl, inl, inr, Option, none, some, Bool-cases,
  Result, ok, err, subst, arith,
}
use command_api.Model.{
  StopReason, force_killed, timeout, Fault, no_signal, Termination, TaskSnapshot,
}
use command_api.Store.{Write, whole, torn}
use command_api.Process.Run.{
  ExitStatus, Answers, Run, Failure, M, and_then, lift, check, add_to_instant, publish, finish,
  graceful_stop, forced_stop, force_stop_process, status_or_wait, forced_end, await_tree,
  await_worker, stop_process, is_force_killed, TreeWait, WorkerWait, Wait, stopped, await_end,
  end_descendants, settle, run_task, drop_permits,
}
use command_api.Process.Run.Courses.{
  Asked, at_deadline, by_request, Stops, at_once, in_time, children_late, children_killed,
  worker_late, worker_killed, Course, by_itself, children_overran, stopped_early, Deserves,
  final_status-Deserves,
}
use command_api.Process.Run.Trace.{Post, and_then-Post}

-- The record of a task's end names the reason for which it was stopped, if it was.
abbrev pub Explains : Option StopReason → TaskSnapshot → Type 0
Explains none s = s.termination ≡ none
Explains (some reason) s = (t : Termination) × (s.termination ≡ some t) × (t.reason ≡ reason)

-- The snapshot of a task whose execution has met these answers.
pub record IsOutcome (a : Answers) (s : TaskSnapshot) : Type 0 where
  pub reason : Option StopReason
  pub exit : ExitStatus
  pub course : Course a reason exit
  pub status : Deserves reason exit s.status
  pub exit_code : s.exit_code ≡ exit.code
  pub explained : Explains reason s
  pub time : s.finished_at ≡ some a.finished_at

abbrev Any : Failure → Run → Type 0
Any e s = Unit {0}

-- An action that leaves the snapshot with a property, whatever it returns.
abbrev Leaves {ℓ} : {A : Type ℓ} → (TaskSnapshot → Type 0) → A → Run → Type 0
Leaves P _ s = P s.task.state

chain {ℓ κ} :
    {A : Type ℓ} {B : Type κ} (Q : A → Run → Type 0) (R : B → Run → Type 0) (f : A → M B)
    (r : Result Failure A × Run)
    → Post Q Any r
    → ((x : A) (s : Run) → Q x s → Post R Any (f x s))
    → Post R Any (and_then f r)
chain Q R f r = and_then-Post Q R Any f r

lift-Leaves {ℓ} :
    {A : Type ℓ} (P : TaskSnapshot → Type 0) (r : Result Fault A) (s : Run)
    → P s.task.state
    → Post (Leaves P) Any (lift r s)
lift-Leaves P (ok x) s h = h
lift-Leaves P (err e) s h = tt

check-Leaves :
    (P : TaskSnapshot → Type 0) (b : Bool) (e : Fault) (s : Run)
    → P s.task.state
    → Post (Leaves P) Any (check b e s)
check-Leaves P true e s h = h
check-Leaves P false e s h = tt

add_to_instant-Leaves :
    (P : TaskSnapshot → Type 0) (last now seconds : ℕ) (s : Run)
    → P s.task.state
    → Post (Leaves P) Any (add_to_instant last now seconds s)
unfolding add_to_instant
add_to_instant-Leaves P last now seconds s h = elim (Bool-cases (leb (now + seconds) last)) [
  | inl e ↦ rw (add_to_instant, e) h
  | inr e ↦ rw (add_to_instant, e) tt
]

module _ (to_vec : TaskSnapshot → Text) (a : Answers) where
  publish-Leaves :
      (P : TaskSnapshot → Type 0) (w : Write) (update : TaskSnapshot → TaskSnapshot) (s : Run)
      → P (record (update s.task.state) { output_truncated = s.task.output_truncated })
      → Post (Leaves P) Any (publish to_vec a w update s)
  unfolding publish
  publish-Leaves P whole update s h = h
  publish-Leaves P (torn k) update s h = tt

  -- The status of a worker that is killed: the one it had ended with, or that of its end now.
  abbrev Forced : Option ExitStatus → ExitStatus → Type 0
  Forced none e = a.forced_exit ≡ ok e
  Forced (some worker) e = worker ≡ e

  abbrev Killed : StopReason → Option ExitStatus → ExitStatus → Run → Type 0
  Killed reason worker e s = Explains (some reason) s.task.state × Forced worker e

  force_stop_process-Killed :
      (reason : StopReason) (graceful : Bool) (worker : Option ExitStatus) (s : Run)
      → Post (Killed reason worker) Any (force_stop_process to_vec a reason graceful worker s)
  unfolding force_stop_process forced_stop
  force_stop_process-Killed reason graceful worker s =
      let P = Explains (some reason) in
      chain (Leaves P) (Killed reason worker) _ _
        (publish-Leaves P a.forced_write _ s (_, refl, refl))
        λ _ s1 h1.
          chain (Leaves P) (Killed reason worker) _ _ (check-Leaves P a.force_sent no_signal s1 h1)
            λ _ s2 h2.
              chain (Killed reason worker) (Killed reason worker) _ _ (waited worker s2 h2)
                λ e s3 h3.
                  chain (Leaves P) (Killed reason worker) _ _ (lift-Leaves P a.forced_empty s3 h3.0)
                    λ _ s4 h4. (h4, h3.1)
    where
      ended :
          (r : Result Fault ExitStatus) (s2 : Run)
          → a.forced_exit ≡ r
          → Explains (some reason) s2.task.state
          → Post (Killed reason none) Any (lift r s2)
      ended (ok e) s2 same h2 = (h2, same)
      ended (err e) s2 same h2 = tt

      waited :
          (o : Option ExitStatus) (s2 : Run)
          → Explains (some reason) s2.task.state
          → Post (Killed reason o) Any (status_or_wait to_vec a o s2)
      waited none s2 h2 = ended a.forced_exit s2 refl h2
      waited (some e) s2 h2 = (h2, refl)

  -- A task that was asked to stop for a reason, and has ended for the one in `p`.
  abbrev Stopped : StopReason → ExitStatus × StopReason → Run → Type 0
  Stopped asked p s = Explains (some p.1) s.task.state × Stops a asked p.1 p.0

  forced_end-Stopped :
      (asked reason : StopReason) (worker : Option ExitStatus) (s : Run)
      → ((e : ExitStatus) → Forced worker e → Stops a asked reason e)
      → Post (Stopped asked) Any (forced_end to_vec a reason worker s)
  forced_end-Stopped asked reason worker s course =
      chain (Killed reason worker) (Stopped asked) _ _
        (force_stop_process-Killed reason true worker s) λ e s1 h1. (h1.0, course e h1.1)

  await_tree-Stopped :
      (reason : StopReason) (e : ExitStatus) (t : TreeWait) (s : Run)
      → reason ≢ force_killed
      → a.worker ≡ WorkerWait.exited e
      → a.tree ≡ t
      → Explains (some reason) s.task.state
      → Post (Stopped reason) Any (await_tree to_vec a reason e t s)
  unfolding await_tree
  await_tree-Stopped reason e TreeWait.emptied s gentle w t h = (h, in_time gentle w t)
  await_tree-Stopped reason e TreeWait.tree_failed s gentle w t h = tt
  await_tree-Stopped reason e TreeWait.elapsed s gentle w t h =
      forced_end-Stopped reason reason (some e) s
        λ x same. subst (Stops a reason reason) same (children_late gentle w t)
  await_tree-Stopped reason e TreeWait.force_asked s gentle w t h =
      forced_end-Stopped reason force_killed (some e) s
        λ x same. subst (Stops a reason force_killed) same (children_killed gentle w t)

  await_worker-Stopped :
      (reason : StopReason) (w : WorkerWait) (s : Run)
      → reason ≢ force_killed
      → a.worker ≡ w
      → Explains (some reason) s.task.state
      → Post (Stopped reason) Any (await_worker to_vec a reason w s)
  unfolding await_worker
  await_worker-Stopped reason (WorkerWait.exited e) s gentle w h =
      await_tree-Stopped reason e a.tree s gentle w refl h
  await_worker-Stopped reason WorkerWait.wait_failed s gentle w h = tt
  await_worker-Stopped reason WorkerWait.elapsed s gentle w h =
      forced_end-Stopped reason reason none s λ x found. worker_late gentle w found
  await_worker-Stopped reason WorkerWait.force_asked s gentle w h =
      forced_end-Stopped reason force_killed none s λ x found. worker_killed gentle w found

  is_force_killed-eq : (reason : StopReason) → is_force_killed reason ≡ true → reason ≡ force_killed
  is_force_killed-eq reason h = ground arith

  stop_process-Stopped :
      (reason : StopReason) (s : Run) → Post (Stopped reason) Any (stop_process to_vec a reason s)
  unfolding stop_process graceful_stop
  stop_process-Stopped reason s =
      let P = Explains (some reason) in
      elim (Bool-cases (is_force_killed reason)) [
        | inl e ↦
            let killed_now = is_force_killed-eq reason e in
            rw (e, stop_process)
              (chain (Killed reason none) (Stopped reason) _ _
                (force_stop_process-Killed reason false none s)
                λ x s1 h1. (h1.0, rw killed_now (at_once h1.1)))
        | inr e ↦
            rw (e, stop_process)
              (chain (Leaves P) (Stopped reason) _ _
                (publish-Leaves P a.stopping_write _ s (_, refl, refl))
                λ _ s1 h1.
                  chain (Leaves P) (Stopped reason) _ _
                    (check-Leaves P a.graceful_sent no_signal s1 h1)
                    λ _ s2 h2.
                      chain (Leaves P) (Stopped reason) _ _
                        (add_to_instant-Leaves P a.last_instant a.stopping_at a.graceful_seconds s2
                          h2)
                        λ _ s3 h3.
                          await_worker-Stopped reason a.worker s3 (λ k. cc (rw k at e)) refl h3)
      ]

  -- What the main loop has found.
  abbrev Found : ExitStatus × Option StopReason → Type 0
  Found (e, none) = a.first ≡ Wait.exited e
  Found (e, some reason) = Course a (some reason) e

  abbrev Waited : ExitStatus × Option StopReason → Run → Type 0
  Waited p s = Explains p.1 s.task.state × Found p

  abbrev Settled : ExitStatus → Option StopReason → Run → Type 0
  Settled e o s = Explains o s.task.state × Course a o e

  stopped-Waited :
      (reason : StopReason) (s : Run) → Asked a reason → Post Waited Any (stopped to_vec a reason s)
  stopped-Waited reason s asked =
      chain (Stopped reason) Waited _ _ (stop_process-Stopped reason s)
        λ _ s1 h1. (h1.0, stopped_early asked h1.1)

  await_end-Waited :
      (w : Wait) (s : Run)
      → a.first ≡ w
      → Explains none s.task.state
      → Post Waited Any (await_end to_vec a w s)
  unfolding await_end
  await_end-Waited (Wait.exited e) s first h = (h, first)
  await_end-Waited Wait.wait_failed s first h = tt
  await_end-Waited Wait.deadline s first h = stopped-Waited timeout s (at_deadline first)
  await_end-Waited (Wait.stop_requested reason) s first h =
      stopped-Waited reason s (by_request first)

  end_descendants-Settled :
      (ended : Bool) (e : ExitStatus) (s : Run)
      → a.descendants_ended ≡ ended
      → a.first ≡ Wait.exited e
      → Explains none s.task.state
      → Post (Settled e) Any (end_descendants to_vec a ended s)
  unfolding forced_stop
  end_descendants-Settled true e s ended first h = (h, by_itself first ended)
  end_descendants-Settled false e s ended first h =
      let P = Explains (some timeout) in
      chain (Leaves (Explains none)) (Settled e) _ _
        (check-Leaves (Explains none) a.force_sent no_signal s h)
        λ _ s1 h1.
          chain (Leaves P) (Settled e) _ _ (publish-Leaves P a.overrun_write _ s1 (_, refl, refl))
            λ _ s2 h2.
              chain (Leaves P) (Settled e) _ _ (lift-Leaves P a.stopped_empty s2 h2)
                λ _ s3 h3. (h3, children_overran first ended)

  settle-Settled :
      (e : ExitStatus) (o : Option StopReason) (s : Run)
      → Found (e, o)
      → Explains o s.task.state
      → Post (Settled e) Any (settle to_vec a o s)
  unfolding settle
  settle-Settled e none s found h = end_descendants-Settled a.descendants_ended e s refl found h
  settle-Settled e (some reason) s found h =
      let P = Explains (some reason) in
      chain (Leaves P) (Settled e) _ _ (lift-Leaves P a.stopped_empty s h) λ _ s1 h1. (h1, found)

  Explains-finish :
      (o : Option StopReason) (e : ExitStatus) (s : TaskSnapshot) (b : Bool)
      → Explains o s
      → Explains o (record (finish a.finished_at o e s) { output_truncated = b })
  unfolding finish
  Explains-finish none e s b h = h
  Explains-finish (some reason) e s b h = h

  abbrev Ended : Unit {0} → Run → Type 0
  Ended _ s = IsOutcome a s.task.state

  run_task-Ended : (s : Run) → Explains none s.task.state → Post Ended Any (run_task to_vec a s)
  unfolding run_task drop_permits finish
  run_task-Ended s h =
      let P = Explains none in
      chain (Leaves P) Ended _ _ (lift-Leaves P a.setup s h) λ _ s1 h1.
        chain (Leaves P) Ended _ _ (publish-Leaves P a.running_write _ s1 h1) λ _ s2 h2.
          chain (Leaves P) Ended _ _
            (add_to_instant-Leaves P a.last_instant a.running_at a.execution_seconds s2 h2)
            λ _ s2' h2'. chain Waited Ended _ _ (await_end-Waited a.first s2' refl h2') λ p s3 h3.
              chain (Settled p.0) Ended _ _ (settle-Settled p.0 p.1 s3 h3.1 h3.0) λ o s4 h4.
                chain (Leaves (Explains o)) Ended _ _ (lift-Leaves (Explains o) a.outputs s4 h4.0)
                  λ _ s5 h5. publish-Leaves (IsOutcome a) a.final_write _ _ (record {
                    reason = o;
                    exit = p.0;
                    course = h4.1;
                    status = final_status-Deserves o p.0;
                    exit_code = refl;
                    explained = Explains-finish o p.0 s5.task.state s5.task.output_truncated h5;
                    time = refl;
                  })

  -- An executor that succeeds, on a task that nobody has stopped before, leaves a snapshot that says
  -- how the task ended, in one of these courses: the script ended by itself, and its descendants in
  -- time or not; or its deadline passed or somebody asked it to stop, and it was killed at once if it
  -- was asked for that, and else ended in its grace period, or was killed as that elapsed, or as
  -- somebody asked for that meanwhile. The exit code is that of the worker in this course, the status
  -- is the one that the course calls for, `termination` gives the reason for which the task was
  -- stopped at last, and is absent if there is none.
  pub run_task-IsOutcome :
      (s t : Run)
      → s.task.state.termination ≡ none
      → run_task to_vec a s ≡ (ok tt, t)
      → IsOutcome a t.task.state
  run_task-IsOutcome s t h e = subst (λ r. Post Ended Any r) e (run_task-Ended s h)
