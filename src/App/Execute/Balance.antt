-- ===== src/App/Execute/Balance.antt =====
-- src/app.rs, `execute`: no permit is lost or used twice.
use command_api.Prelude.{
  ℕ, ◌+◌, ◌%◌, ◌^◌, ◌<◌, ◌↔◌, Text, text_eq, text_eq_iff, text_keys, true, false, ◌≡◌, refl, sym,
  ap, ◌∙◌, List, [], ◌∷◌, ◌++◌, lookup, arith,
}
use command_api.Config.{ResolvedRoute}
use command_api.Model.{TaskSnapshot}
use command_api.Store.{mark_finished, is_idle}
use command_api.App.Execute.{AppState, build, give_back}
use command_api.App.Execute.Permits.{
  Phase, creating, running, released, Job, admitted, create_failed, created, permits_dropped,
  finished, tasks_changed, start, step, job, System, holds, is_started, on, held, held_on, started,
  held-append, held_on-append, started-append, Step, Reachable, IsBalanced,
}
use command_api.App.Execute.Acquire.{
  insert-IsEach, give_route-IsEach, admit-Admitted, collect_routes-IsEach, create_task-active,
  give_back-same,
}

on-same : (p : Text) (x : Phase) → on p (job p x) ≡ holds x
on-same p x = rw ((text_eq_iff p p).1 refl) refl

on-none : (q p : Text) → on q (job p released) ≡ 0
on-none q p = ground arith

on-other : (p q : Text) (x : Phase) → text_eq p q ≡ false → on q (job p x) ≡ 0
on-other p q x h = rw h refl

-- What one job adds to the counts.
held-middle :
    (before after : List Job) (j : Job)
    → held (before ++ j ∷ after) ≡ held (before ++ after) + holds j.phase
held-middle before after j = omega (arith, held-append before (j ∷ after), held-append before after)

held_on-middle :
    (q : Text) (before after : List Job) (j : Job)
    → held_on q (before ++ j ∷ after) ≡ held_on q (before ++ after) + on q j
held_on-middle q before after j =
    omega (arith, held_on-append q before (j ∷ after), held_on-append q before after)

started-middle :
    (before after : List Job) (j : Job)
    → started (before ++ j ∷ after) ≡ started (before ++ after) + is_started j.phase
started-middle before after j =
    omega (arith, started-append before (j ∷ after), started-append before after)

-- A job in the middle gives back its permits.
give_back-IsBalanced :
    (max_total : ℕ) (app : AppState) (jobs rest : List Job) (path : Text)
    → IsBalanced max_total (record { app = app; jobs = jobs })
    → held jobs ≡ held rest + 1
    → held_on path jobs ≡ held_on path rest + 1
    → ((q : Text) → text_eq path q ≡ false → held_on q rest ≡ held_on q jobs)
    → started rest ≡ started jobs
    → IsBalanced max_total (record { app = give_back path app; jobs = rest })
give_back-IsBalanced max_total app jobs rest path b all on_path away same =
    let (limit, store) = give_back-same path app in
    record {
      global = omega (arith, limit, b.global);
      each =
          give_route-IsEach (λ q. held_on q jobs) (λ q. held_on q rest) path app b.each on_path
            away;
      active = ap (λ t. t.active_count) store ∙ b.active ∙ ap (λ n. n % 2 ^ 64) (sym same);
    }

module _ (to_vec : TaskSnapshot → Text) (max_total : ℕ) where
  Step-IsBalanced :
      (s t : System) → Step to_vec s t → IsBalanced max_total s → IsBalanced max_total t
  unfolding mark_finished
  Step-IsBalanced s t (admitted _ path args app e) b =
      let a = admit-Admitted s.app app path args e in
      rw a.same (record {
        global = omega (arith, b.global, a.free);
        each =
            insert-IsEach s.app.routes (λ q. held_on q s.jobs)
              (λ q. held_on q (job path creating ∷ s.jobs)) path _ b.each
              (omega (arith, b.each path a.route a.found, a.route_free, on-same path creating))
              (λ q other. omega (arith, on-other path q creating other));
        active = b.active ∙ ap (λ n. n % 2 ^ 64) (omega arith);
      })
  Step-IsBalanced s t (create_failed app before after path) b =
      let j = job path creating in
      give_back-IsBalanced max_total app (before ++ j ∷ after) (before ++ after) path b
        (held-middle before after j)
        (omega (arith, held_on-middle path before after j, on-same path creating))
        (λ q other. omega (arith, held_on-middle q before after j, on-other path q creating other))
        (omega (arith, started-middle before after j))
  Step-IsBalanced s t (created app left before after path id now w r e) b =
      let (limit, routes, count) = create_task-active to_vec app left path id now w r e in
      let x = job path creating in
      let y = job path running in
      record {
        global =
            omega (arith, b.global, limit, held-middle before after x, held-middle before after y);
        each = λ q route found. omega (
          arith,
          b.each q route (ap (λ m. lookup q m) (sym routes) ∙ found),
          held_on-middle q before after x,
          held_on-middle q before after y,
        );
        active =
            omega (
              arith,
              count,
              b.active,
              started-middle before after x,
              started-middle before after y,
            );
      }
  Step-IsBalanced s t (permits_dropped app before after path) b =
      let x = job path running in
      let y = job path released in
      give_back-IsBalanced max_total app (before ++ x ∷ after) (before ++ y ∷ after) path b
        (omega (arith, held-middle before after x, held-middle before after y))
        (omega (
          arith,
          held_on-middle path before after x,
          held_on-middle path before after y,
          on-same path running,
          on-same path released,
        ))
        (λ q other. omega (
          arith,
          held_on-middle q before after x,
          held_on-middle q before after y,
          on-other path q running other,
          on-other path q released other,
        ))
        (omega (arith, started-middle before after x, started-middle before after y))
  Step-IsBalanced s t (finished app before after path) b =
      let j = job path released in
      record {
        global = omega (arith, b.global, held-middle before after j);
        each = λ q route found.
            omega (arith, b.each q route found, held_on-middle q before after j, on-none q path);
        active = omega (arith, b.active, started-middle before after j);
      }
  Step-IsBalanced s t (tasks_changed _ store e) b = record {
    global = b.global;
    each = b.each;
    active = e ∙ b.active;
  }

  module _ (routes : List ResolvedRoute) where
    -- In every reachable state, whatever requests came and in whatever order they and the executors
    -- took their steps: free and held permits make up the limits of the service and of each route,
    -- and `active_count` is, modulo 2^64, the number of tasks that have not called `mark_finished`.
    pub Reachable-IsBalanced :
        (s : System) → Reachable to_vec max_total routes s → IsBalanced max_total s
    unfolding build lookup
    Reachable-IsBalanced s (start store e) = record {
      global = omega arith;
      each = λ q route f. collect_routes-IsEach routes [] (λ q' route' f'. cc) q route f;
      active = e;
    }
    Reachable-IsBalanced s (step {s = r} reached one) =
        Step-IsBalanced r s one (Reachable-IsBalanced r reached)

    -- In every reachable state with fewer than 2^64 requests and tasks at work, the store is idle
    -- exactly if every task that was started has called `mark_finished`.
    pub is_idle_iff :
        (s : System)
        → Reachable to_vec max_total routes s
        → started s.jobs < 2 ^ 64
        → (is_idle s.app.store ≡ true) ↔ (started s.jobs ≡ 0)
    unfolding is_idle
    is_idle_iff s reached few =
        let b = Reachable-IsBalanced s reached in
        (λ e. ground (arith, b.active), λ e. ground (arith, b.active))
