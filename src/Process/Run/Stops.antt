-- ===== src/Process/Run/Stops.antt =====
-- src/process/mod.rs, `stop_process`: a task that is stopped shows `stopping`.
use command_api.Prelude.{
  Text, Bool, true, false, ◌≡◌, refl, inl, inr, Option, none, some, Bool-cases,
}
use command_api.Model.{
  TaskStatus, running, stopping, StopReason, force_killed, no_signal, TaskSnapshot,
}
use command_api.Process.Run.{
  ExitStatus, Answers, Run, graceful_stop, forced_stop, force_stop_process, await_tree,
  await_worker, stop_process, status_or_wait, forced_end, is_force_killed, TreeWait, WorkerWait,
}
use command_api.Process.Run.Trace.{
  can_follow, IsAt, Post, IsOpen, Showing, steps, publish-IsOpen, lift-IsOpen, check-IsOpen,
  add_to_instant-IsOpen, IsRepresentable,
}

module _ (to_vec : TaskSnapshot → Text) (a : Answers) (room : IsRepresentable a) where
  force_stop_process-IsAt :
      (t : TaskStatus) (reason : StopReason) (graceful : Bool) (worker : Option ExitStatus)
      (s : Run)
      → can_follow t stopping ≡ true
      → IsAt t true s
      → Post (λ _. IsAt stopping true) IsOpen (force_stop_process to_vec a reason graceful worker s)
  unfolding force_stop_process forced_stop
  force_stop_process-IsAt t reason graceful worker s f h =
      steps (Showing stopping) (Showing stopping) _ _
        (publish-IsOpen to_vec a t stopping a.forced_write _ s h f refl refl refl)
        λ _ s1 h1.
          steps (Showing stopping) (Showing stopping) _ _
            (check-IsOpen to_vec a stopping a.force_sent no_signal s1 refl refl h1)
            λ _ s2 h2.
              steps (Showing stopping) (Showing stopping) _ _ (waited worker s2 h2) λ e s3 h3.
                steps (Showing stopping) (Showing stopping) _ _
                  (lift-IsOpen to_vec a stopping a.forced_empty s3 refl refl h3) λ _ s4 h4. h4
    where
      waited :
          (o : Option ExitStatus) (s2 : Run)
          → IsAt stopping true s2
          → Post (λ _. IsAt stopping true) IsOpen (status_or_wait to_vec a o s2)
      waited none s2 h2 = lift-IsOpen to_vec a stopping a.forced_exit s2 refl refl h2
      waited (some e) s2 h2 = h2

  -- A stopped task shows `stopping`.
  forced_end-IsAt :
      (reason : StopReason) (worker : Option ExitStatus) (s : Run)
      → IsAt stopping true s
      → Post (Showing stopping) IsOpen (forced_end to_vec a reason worker s)
  forced_end-IsAt reason worker s h =
      steps (Showing stopping) (Showing stopping) _ _
        (force_stop_process-IsAt stopping reason true worker s refl h) λ _ s1 h1. h1

  await_tree-IsAt :
      (reason : StopReason) (e : ExitStatus) (t : TreeWait) (s : Run)
      → IsAt stopping true s
      → Post (Showing stopping) IsOpen (await_tree to_vec a reason e t s)
  unfolding await_tree
  await_tree-IsAt reason e TreeWait.emptied s h = h
  await_tree-IsAt reason e TreeWait.tree_failed s h = (stopping, refl, refl, h)
  await_tree-IsAt reason e TreeWait.elapsed s h = forced_end-IsAt reason (some e) s h
  await_tree-IsAt reason e TreeWait.force_asked s h = forced_end-IsAt force_killed (some e) s h

  await_worker-IsAt :
      (reason : StopReason) (w : WorkerWait) (s : Run)
      → IsAt stopping true s
      → Post (Showing stopping) IsOpen (await_worker to_vec a reason w s)
  unfolding await_worker
  await_worker-IsAt reason (WorkerWait.exited e) s h = await_tree-IsAt reason e a.tree s h
  await_worker-IsAt reason WorkerWait.wait_failed s h = (stopping, refl, refl, h)
  await_worker-IsAt reason WorkerWait.elapsed s h = forced_end-IsAt reason none s h
  await_worker-IsAt reason WorkerWait.force_asked s h = forced_end-IsAt force_killed none s h

  pub stop_process-IsAt :
      (reason : StopReason) (s : Run)
      → IsAt running true s
      → Post (Showing stopping) IsOpen (stop_process to_vec a reason s)
  unfolding stop_process graceful_stop
  stop_process-IsAt reason s h = elim (Bool-cases (is_force_killed reason)) [
    | inl e ↦
        rw (e, stop_process)
          (steps (Showing stopping) (Showing stopping) _ _
            (force_stop_process-IsAt running reason false none s refl h) λ _ s1 h1. h1)
    | inr e ↦
        rw (e, stop_process)
          (steps (Showing stopping) (Showing stopping) _ _
            (publish-IsOpen to_vec a running stopping a.stopping_write _ s h refl refl refl refl)
            λ _ s1 h1.
              steps (Showing stopping) (Showing stopping) _ _
                (check-IsOpen to_vec a stopping a.graceful_sent no_signal s1 refl refl h1)
                λ _ s2 h2.
                  steps (Showing stopping) (Showing stopping) _ _
                    (add_to_instant-IsOpen to_vec a stopping a.last_instant a.stopping_at
                      a.graceful_seconds s2 room.1 h2)
                    λ _ s3 h3. await_worker-IsAt reason a.worker s3 h3)
  ]
