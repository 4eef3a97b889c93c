-- ===== src/Store/Idle.antt =====
-- src/store.rs, `wait_until_idle` and `mark_finished`: the runtime waits in one thread while executors
-- finish in others. No task starts then, since the runtime waits once its servers have ended.
-- The ticks of the cleanup, which leave the count as it is, are left out.
pub mod Laws
use command_api.Prelude.{ℕ, suc, Bool, true, false, some, ◌≡◌}
use command_api.Store.{TaskRecord, TaskStore, get, put, mark_finished, is_idle}

-- Where the wait stands: before its test of the count, between that test and `notified()`, at the
-- `await`, or back, with what it returns.
pub data Waiter : Type 0 where
  testing before_notified asleep : Waiter
  returned : Bool → Waiter

-- `notify_waiters` reaches a wait whose `notified()` has been called, and no other.
unfoldable pub wake : Waiter → Waiter
wake asleep = testing
wake w = w

-- `finishers` executors are between their `fetch_sub` and their `notify_waiters`.
pub record Wait : Type 0 where
  pub store : TaskStore
  pub finishers : ℕ
  pub waiter : Waiter

-- Only a task that is counted changes its record, in `work`, and calls `mark_finished`.
-- The test and the call of `notified()` are two steps of the thread that waits; its timeout is looked
-- at only at the `await`.
pub data Step : Wait → Wait → Type 0 where
  test_idle :
      {store : TaskStore} {finishers : ℕ}
      → is_idle store ≡ true
      → Step
          (record { store = store; finishers = finishers; waiter = testing })
          (record { store = store; finishers = finishers; waiter = returned true })
  test_active :
      {store : TaskStore} {finishers : ℕ}
      → is_idle store ≡ false
      → Step
          (record { store = store; finishers = finishers; waiter = testing })
          (record { store = store; finishers = finishers; waiter = before_notified })
  call_notified :
      {store : TaskStore} {finishers : ℕ}
      → Step
          (record { store = store; finishers = finishers; waiter = before_notified })
          (record { store = store; finishers = finishers; waiter = asleep })
  timed_out :
      {store : TaskStore} {finishers : ℕ}
      → Step
          (record { store = store; finishers = finishers; waiter = asleep })
          (record { store = store; finishers = finishers; waiter = returned false })
  fetch_sub :
      {store : TaskStore} {finishers : ℕ} {waiter : Waiter}
      → is_idle store ≡ false
      → Step
          (record { store = store; finishers = finishers; waiter = waiter })
          (record { store = mark_finished store; finishers = suc finishers; waiter = waiter })
  work :
      {store : TaskStore} {finishers : ℕ} {waiter : Waiter} {old : TaskRecord} (r : TaskRecord)
      → is_idle store ≡ false
      → get store r.id ≡ some old
      → Step
          (record { store = store; finishers = finishers; waiter = waiter })
          (record { store = put store r; finishers = finishers; waiter = waiter })
  notify_waiters :
      {store : TaskStore} {finishers : ℕ} {waiter : Waiter}
      → Step
          (record { store = store; finishers = suc finishers; waiter = waiter })
          (record { store = store; finishers = finishers; waiter = wake waiter })

-- From the call of `wait_until_idle`.
pub data Reachable (s : TaskStore) : Wait → Type 0 where
  start : Reachable s (record { store = s; finishers = 0; waiter = testing })
  step : {a b : Wait} → Reachable s a → Step a b → Reachable s b
