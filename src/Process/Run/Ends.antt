-- ===== src/Process/Run/Ends.antt =====
-- src/process/mod.rs, `run_task` and `start_task`: how the execution of a task ends.
use command_api.Prelude.{
  Text, Bool, true, false, ◌≡◌, refl, ap, ◌∙◌, ◌⊎◌, inl, inr, Option, none, some, Result, ok, err,
  arith,
}
use command_api.Model.{
  TaskStatus, starting, running, stopping, failed, is_finished, StopReason, timeout, Fault,
  no_signal, TaskSnapshot,
}
use command_api.Process.Run.{
  ExitStatus, Answers, Run, M, and_then, final_status, finish, give_up, publish, drop_permits,
  forced_stop, await_end, settle, stopped, end_descendants, run_task, start_task, recover_fault,
  Wait, Failure, fault, panicked, panics, is_panic,
}
use command_api.Process.Run.Trace.{
  can_follow, IsAt, Post, Fails, IsOpen, IsEnded, Showing, steps, publish-IsAt, publish-IsOpen,
  lift-IsOpen, check-IsOpen, add_to_instant-IsOpen, IsRepresentable,
}
use command_api.Process.Run.Stops.{stop_process-IsAt}

-- The status that goes with a reason to stop, before the end.
abbrev status_with : Option StopReason → TaskStatus
status_with none = running
status_with (some reason) = stopping

final_status-follows :
    (o : Option StopReason) (e : ExitStatus)
    → (can_follow (status_with o) (final_status o e) ≡ true)
      × (is_finished (final_status o e) ≡ true)
unfolding final_status
final_status-follows none e = ground arith
final_status-follows (some timeout) e = (refl, refl)
final_status-follows (some reason) e = (refl, refl)

status_with-open :
    (o : Option StopReason)
    → (is_finished (status_with o) ≡ false) × (can_follow (status_with o) failed ≡ true)
status_with-open none = (refl, refl)
status_with-open (some reason) = (refl, refl)

can_follow_self : (t : TaskStatus) → is_finished t ≡ true → can_follow t t ≡ true
can_follow_self t h = ground arith

-- The last steps, where an action may have ended the task.
abbrev IsDone : Failure → Run → Type 0
IsDone panicked s = ⊥
IsDone (fault e) s = IsOpen (fault e) s ⊎ IsEnded s

last_steps {ℓ κ} :
    {A : Type ℓ} {B : Type κ} (Q : A → Run → Type 0) (R : B → Run → Type 0) (f : A → M B)
    (r : Result Failure A × Run)
    → Post Q IsOpen r
    → ((a : A) (s : Run) → Q a s → Post R IsDone (f a s))
    → Post R IsDone (and_then f r)
last_steps Q R f (ok a, s) h k = k a s h
last_steps Q R f (err panicked, s) h k = h
last_steps Q R f (err (fault e), s) h k = inl h

module _ (to_vec : TaskSnapshot → Text) (a : Answers) (room : IsRepresentable a) where
  abbrev Settled : Option StopReason → Run → Type 0
  Settled o = IsAt (status_with o) true

  abbrev Waited : ExitStatus × Option StopReason → Run → Type 0
  Waited p = IsAt (status_with p.1) true

  stopped-Waited :
      (reason : StopReason) (s : Run)
      → IsAt running true s
      → Post Waited IsOpen (stopped to_vec a reason s)
  stopped-Waited reason s h =
      steps (Showing stopping) Waited _ _ (stop_process-IsAt to_vec a room reason s h) λ _ s1 h1. h1

  await_end-Waited :
      (w : Wait) (s : Run) → IsAt running true s → Post Waited IsOpen (await_end to_vec a w s)
  unfolding await_end
  await_end-Waited (Wait.exited e) s h = h
  await_end-Waited Wait.wait_failed s h = (running, refl, refl, h)
  await_end-Waited Wait.deadline s h = stopped-Waited timeout s h
  await_end-Waited (Wait.stop_requested reason) s h = stopped-Waited reason s h

  end_descendants-Settled :
      (ended : Bool) (s : Run)
      → IsAt running true s
      → Post Settled IsOpen (end_descendants to_vec a ended s)
  unfolding forced_stop
  end_descendants-Settled true s h = h
  end_descendants-Settled false s h =
      steps (Showing running) Settled _ _
        (check-IsOpen to_vec a running a.force_sent no_signal s refl refl h)
        λ _ s1 h1.
          steps (Showing stopping) Settled _ _
            (publish-IsOpen to_vec a running stopping a.overrun_write _ s1 h1 refl refl refl refl)
            λ _ s2 h2.
              steps (Showing stopping) Settled _ _
                (lift-IsOpen to_vec a stopping a.stopped_empty s2 refl refl h2) λ _ s3 h3. h3

  settle-Settled :
      (o : Option StopReason) (s : Run)
      → IsAt (status_with o) true s
      → Post Settled IsOpen (settle to_vec a o s)
  unfolding settle
  settle-Settled none s h = end_descendants-Settled a.descendants_ended s h
  settle-Settled (some reason) s h =
      steps (Showing stopping) Settled _ _
        (lift-IsOpen to_vec a stopping a.stopped_empty s refl refl h) λ _ s1 h1. h1

  abbrev Ended : Unit {0} → Run → Type 0
  Ended _ = IsEnded

  finish-Ended :
      (o : Option StopReason) (e : ExitStatus) (s : Run)
      → IsAt (status_with o) true s
      → Post Ended IsDone
          (publish to_vec a a.final_write (finish a.finished_at o e) (record s { permits = false }))
  unfolding finish
  finish-Ended o e s h =
      let (follows, finished) = final_status-follows o e in
      ended (final_status o e) finished _ (
        publish-IsAt to_vec a (status_with o) (final_status o e) false a.final_write
          (finish a.finished_at o e) (record s { permits = false })
          (record {
            status = h.status;
            permits = refl;
            legal = h.legal;
            shown = h.shown;
            released = h.released;
          })
          follows (ground arith) refl)
    where
      ended :
          (u : TaskStatus)
          → is_finished u ≡ true
          → (r : Result Failure (Unit {0}) × Run)
          → Post (λ _. IsAt u false) (Fails (IsAt u false)) r
          → Post Ended IsDone r
      ended u q (ok x, s') p = (u, q, p)
      ended u q (err panicked, s') p = absurd p
      ended u q (err (fault x), s') p = inr (u, q, p)

  run_task-Ended : (s : Run) → IsAt starting true s → Post Ended IsDone (run_task to_vec a s)
  unfolding run_task drop_permits
  run_task-Ended s h =
      last_steps (Showing starting) Ended _ _ (lift-IsOpen to_vec a starting a.setup s refl refl h)
        λ _ s1 h1.
          last_steps (Showing running) Ended _ _
            (publish-IsOpen to_vec a starting running a.running_write _ s1 h1 refl refl refl refl)
            λ _ s2 h2.
              last_steps (Showing running) Ended _ _
                (add_to_instant-IsOpen to_vec a running a.last_instant a.running_at
                  a.execution_seconds s2 room.0 h2)
                λ _ s2' h2'.
                  last_steps Waited Ended _ _ (await_end-Waited a.first s2' h2') λ p s3 h3.
                    last_steps Settled Ended _ _ (settle-Settled p.1 s3 h3) λ o s4 h4.
                      let (unfinished, fails) = status_with-open o in
                      last_steps (Showing (status_with o)) Ended _ _
                        (lift-IsOpen to_vec a (status_with o) a.outputs s4 unfinished fails h4)
                        λ _ s5 h5. finish-Ended o p.0 s5 h5

  give_up-open :
      (e : Fault) (s : TaskSnapshot)
      → is_finished s.status ≡ false
      → (give_up a.finished_at e s).status ≡ failed
  unfolding give_up
  give_up-open e s h = ground arith

  give_up-finished :
      (e : Fault) (s : TaskSnapshot) (u : TaskStatus)
      → s.status ≡ u
      → is_finished u ≡ true
      → (give_up a.finished_at e s).status ≡ u
  unfolding give_up
  give_up-finished e s u h f = ground arith

  shown-either :
      (u : TaskStatus) (r : Result Failure (Unit {0}) × Run)
      → Post (λ _. IsAt u false) (Fails (IsAt u false)) r
      → IsAt u false r.1
  shown-either u (ok x, s) h = h
  shown-either u (err panicked, s) h = absurd h
  shown-either u (err (fault e), s) h = h

  recover_fault-IsEnded :
      (r : Result Failure (Unit {0}) × Run)
      → Post Ended IsDone r
      → IsEnded (recover_fault to_vec a r)
  recover_fault-IsEnded (ok x, s) h = h
  recover_fault-IsEnded (err panicked, s) h = absurd h
  recover_fault-IsEnded (err (fault e), s) (inl (t, open_, fails, h)) = (
    failed,
    refl,
    shown-either failed _ (
        publish-IsAt to_vec a t failed false a.failed_write (give_up a.finished_at e)
          (record s { permits = false })
          (record {
            status = h.status;
            permits = refl;
            legal = h.legal;
            shown = h.shown;
            released = h.released;
          })
          fails refl (give_up-open e s.task.state (ap is_finished h.status ∙ open_))),
  )
  recover_fault-IsEnded (err (fault e), s) (inr (t, finished, h)) = (
    t,
    finished,
    shown-either t _ (
        publish-IsAt to_vec a t t false a.failed_write (give_up a.finished_at e)
          (record s { permits = false })
          (record {
            status = h.status;
            permits = refl;
            legal = h.legal;
            shown = h.shown;
            released = h.released;
          })
          (can_follow_self t finished) (ground arith)
          (give_up-finished e s.task.state t h.status finished)),
  )

  -- With deadlines that the system can represent, the executor of a new task does not panic.
  pub panics-false : (s : Run) → IsAt starting true s → panics to_vec a s ≡ false
  unfolding panics
  panics-false s h = calm (run_task to_vec a s) (run_task-Ended s h)
    where
      calm :
          (r : Result Failure (Unit {0}) × Run)
          → Post Ended IsDone r
          → is_panic to_vec a r.0 ≡ false
      calm (ok x, s') p = refl
      calm (err panicked, s') p = absurd p
      calm (err (fault x), s') p = refl

  -- Where the deadlines of the task and of its grace period are instants that the system can
  -- represent, and whatever else the operating system, the clock, the disk and the clients answer, the
  -- executor leaves a new task whose permits are held with a final status and the permits released. The statuses that
  -- were seen follow one another in the order of `can_follow`, the last of them is the task's status,
  -- and no final status was seen while the permits were held.
  pub start_task-IsEnded : (s : Run) → IsAt starting true s → IsEnded (start_task to_vec a s)
  unfolding start_task
  start_task-IsEnded s h = recover_fault-IsEnded (run_task to_vec a s) (run_task-Ended s h)
