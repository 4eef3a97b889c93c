-- ===== src/App/Execute/Permits.antt =====
-- src/app.rs, `execute`, with src/process/mod.rs, `start_task`: all requests and executors together,
-- and the permits that they hold.
use command_api.Prelude.{
  ℕ, ◌+◌, ◌%◌, ◌^◌, Text, text_eq, text_keys, true, ◌≡◌, some, List, [], ◌∷◌, ◌++◌, ok, lookup,
  if◌then◌else◌, arith,
}
use command_api.Config.{ResolvedRoute}
use command_api.Model.{TaskSnapshot}
use command_api.Store.{TaskStore, TaskRecord, Write, mark_finished}
use command_api.App.Execute.{RouteRuntime, AppState, build, admit, give_back, create_task}

-- A request that is admitted and waits for `create`, a task whose executor runs, or an executor that
-- has dropped the permits and has not called `mark_finished` yet.
pub data Phase : Type 0 where
  creating running released : Phase

pub record Job : Type 0 where
  pub path : Text
  pub phase : Phase

pub record System : Type 0 where
  pub app : AppState
  pub jobs : List Job

abbrev pub job : Text → Phase → Job
job path phase = record { path = path; phase = phase }

-- The permits of each semaphore that a job holds.
abbrev pub holds : Phase → ℕ
holds released = 0
holds _ = 1

abbrev pub is_started : Phase → ℕ
is_started creating = 0
is_started _ = 1

abbrev pub on : Text → Job → ℕ
on path j = if text_eq j.path path then holds j.phase else 0

abbrev pub held : List Job → ℕ
held [] = 0
held (j ∷ rest) = holds j.phase + held rest

abbrev pub held_on : Text → List Job → ℕ
held_on path [] = 0
held_on path (j ∷ rest) = on path j + held_on path rest

abbrev pub started : List Job → ℕ
started [] = 0
started (j ∷ rest) = is_started j.phase + started rest

pub held-append : (a b : List Job) → held (a ++ b) ≡ held a + held b
held-append [] b = omega arith
held-append (j ∷ a) b = omega (arith, held-append a b)

pub held_on-append : (p : Text) (a b : List Job) → held_on p (a ++ b) ≡ held_on p a + held_on p b
held_on-append p [] b = omega arith
held_on-append p (j ∷ a) b = omega (arith, held_on-append p a b)

pub started-append : (a b : List Job) → started (a ++ b) ≡ started a + started b
started-append [] b = omega arith
started-append (j ∷ a) b = omega (arith, started-append a b)

module _ (to_vec : TaskSnapshot → Text) where
  -- One step of the program; jobs are taken from any place.
  pub data Step : System → System → Type 0 where
    admitted :
        (s : System) (path : Text) (args : List Text) (app : AppState)
        → admit s.app path args ≡ ok app
        → Step s (record { app = app; jobs = job path creating ∷ s.jobs })
    create_failed :
        (app : AppState) (before after : List Job) (path : Text)
        → Step
            (record { app = app; jobs = before ++ job path creating ∷ after })
            (record { app = give_back path app; jobs = before ++ after })
    created :
        (app left : AppState) (before after : List Job) (path : Text) (id : ℕ) (now : Text)
        (w : Write) (r : TaskRecord)
        → create_task to_vec app path id now true w ≡ ok (r, left)
        → Step
            (record { app = app; jobs = before ++ job path creating ∷ after })
            (record { app = left; jobs = before ++ job path running ∷ after })
    permits_dropped :
        (app : AppState) (before after : List Job) (path : Text)
        → Step
            (record { app = app; jobs = before ++ job path running ∷ after })
            (record { app = give_back path app; jobs = before ++ job path released ∷ after })
    finished :
        (app : AppState) (before after : List Job) (path : Text)
        → Step
            (record { app = app; jobs = before ++ job path released ∷ after })
            (record {
              app = record app { store = mark_finished app.store };
              jobs = before ++ after;
            })
    -- Any other operation on the table of tasks.
    tasks_changed :
        (s : System) (store : TaskStore)
        → store.active_count ≡ s.app.store.active_count
        → Step s (record s { app = record (s.app) { store = store } })

  -- The states after a start with a configuration, an idle store and no requests.
  pub data Reachable (max_total : ℕ) (routes : List ResolvedRoute) : System → Type 0 where
    start :
        (store : TaskStore)
        → store.active_count ≡ 0
        → Reachable max_total routes (record { app = build max_total routes store; jobs = [] })
    step : {s t : System} → Reachable max_total routes s → Step s t → Reachable max_total routes t

-- Free and held permits make up the limits, and the count of active tasks is right.
pub record IsBalanced (max_total : ℕ) (s : System) : Type 0 where
  pub global : s.app.global_limit + held s.jobs ≡ max_total
  pub each :
      (path : Text) (route : RouteRuntime)
      → lookup path s.app.routes ≡ some route
      → route.limit + held_on path s.jobs ≡ route.config.max_concurrency
  pub active : s.app.store.active_count ≡ started s.jobs % 2 ^ 64
