-- ===== src/Runtime/Lock.antt =====
-- src/runtime.rs, the end of a round, and src/process/mod.rs, the end of `start_task`: who holds the
-- store, and with it the lock of the directory of logs, when a restart opens that directory again.
-- No other process takes the lock. The lock goes with the last `Arc` of the store; besides the runtime
-- an executor of each task has one.
pub mod Laws
pub mod Race
use command_api.Prelude.{
  ℕ, zero, suc, ◌^◌, ◌<◌, Bool, true, false, ◌&&◌, ◌+◌, ◌≡◌, List, [], ◌∷◌, ◌++◌,
}
use command_api.Store.{TaskStore, mark_finished, is_idle}

-- An executor that has an `Arc` of the store, before and after its call of `mark_finished`.
pub data Executor : Type 0 where
  working finished : Executor

-- Where `run` stands: it waits for the end of the tasks, it has been told that the store is idle, it
-- has dropped its `Arc`, and it has tried to take the lock for the next round.
pub data Phase : Type 0 where
  waiting saw_idle let_go : Phase
  opened : (locked : Bool) → Phase

pub record Holders : Type 0 where
  pub store : TaskStore
  pub executors : List Executor
  pub phase : Phase

abbrev pub none_left : List Executor → Bool
none_left [] = true
none_left (e ∷ rest) = false

-- The executors that still work.
unfoldable pub at_work : List Executor → ℕ
at_work [] = 0
at_work (working ∷ rest) = at_work rest + 1
at_work (finished ∷ rest) = at_work rest

-- Whether `run` has dropped its own `Arc` of the old store.
abbrev pub has_let_go : Phase → Bool
has_let_go waiting = false
has_let_go saw_idle = false
has_let_go _ = true

-- The lock is free once nobody has the old store.
unfoldable pub is_free : Phase → List Executor → Bool
is_free phase executors = has_let_go phase && none_left executors

pub data Step : Holders → Holders → Type 0 where
  mark :
      {store : TaskStore} {phase : Phase} (before after : List Executor)
      → Step
          (record { store = store; executors = before ++ working ∷ after; phase = phase })
          (record {
            store = mark_finished store;
            executors = before ++ finished ∷ after;
            phase = phase;
          })
  drop_arc :
      {store : TaskStore} {phase : Phase} (before after : List Executor)
      → Step
          (record { store = store; executors = before ++ finished ∷ after; phase = phase })
          (record { store = store; executors = before ++ after; phase = phase })
  see_idle :
      {store : TaskStore} {executors : List Executor}
      → is_idle store ≡ true
      → Step
          (record { store = store; executors = executors; phase = waiting })
          (record { store = store; executors = executors; phase = saw_idle })
  drop_store :
      {store : TaskStore} {executors : List Executor}
      → Step
          (record { store = store; executors = executors; phase = saw_idle })
          (record { store = store; executors = executors; phase = let_go })
  open_again :
      {store : TaskStore} {executors : List Executor}
      → Step
          (record { store = store; executors = executors; phase = let_go })
          (record {
            store = store;
            executors = executors;
            phase = opened (is_free let_go executors);
          })

unfoldable pub all_working : ℕ → List Executor
all_working zero = []
all_working (suc n) = working ∷ all_working n

-- From the end of the servers, with the executors of the tasks that the store counts, and any that
-- have called `mark_finished` before and still have their `Arc`.
pub data Reachable (s : TaskStore) : Holders → Type 0 where
  start :
      (executors : List Executor)
      → s.active_count < 2 ^ 64
      → at_work executors ≡ s.active_count
      → Reachable s (record { store = s; executors = executors; phase = waiting })
  step : {a b : Holders} → Reachable s a → Step a b → Reachable s b
