-- ===== src/Runtime/Lock/Race.antt =====
-- src/runtime.rs and src/process/mod.rs: a restart that comes before the end of an executor.
use command_api.Prelude.{
  ℕ, zero, suc, ◌+◌, ◌^◌, ◌<◌, Text, text_eq, Bool, true, false, ◌≡◌, refl, ap, subst, Option, some,
  List, [], ◌∷◌, ◌++◌, err, arith,
}
use command_api.Config.Resolve.{ResolvedConfig}
use command_api.Model.{TaskSnapshot, Parse}
use command_api.Store.{TaskStore, mark_finished, is_idle}
use command_api.Store.Open.{already_locked, open_store}
use command_api.Runtime.{not_opened, Round, Ended, run_round, run_rounds}
use command_api.Runtime.Tls.{Pem}
use command_api.Runtime.Lock.{
  Executor, working, finished, waiting, opened, Holders, none_left, mark, see_idle, drop_store,
  open_again, all_working, at_work, is_free, let_go, Reachable, start, step,
}
use command_api.Runtime.Lock.Laws.{at_work-working, at_work-all_working, Reachable-IsExclusive}

find_working :
    (l : List Executor) (n : ℕ)
    → at_work l ≡ n + 1
    → (a : List Executor) × (b : List Executor) × (l ≡ a ++ working ∷ b)
unfolding at_work
find_working [] n h = let absurd : ⊥ = omega arith in elim absurd [ ]
find_working (working ∷ l) n h = ([], l, refl)
find_working (finished ∷ l) n h =
    let (a, b, e) = find_working l n h in (finished ∷ a, b, ap (λ x. finished ∷ x) e)

some_left : (a b : List Executor) (e : Executor) → none_left (a ++ e ∷ b) ≡ false
some_left [] b e = refl
some_left (x ∷ a) b e = refl

module _ (s : TaskStore) where
  -- All executors call `mark_finished`, and none drops its `Arc`.
  mark_all :
      (n : ℕ) (t : TaskStore) (l : List Executor)
      → at_work l ≡ n
      → none_left l ≡ false
      → Reachable s (record { store = t; executors = l; phase = waiting })
      → (u : TaskStore) × (k : List Executor) × (at_work k ≡ 0)
        × (none_left k ≡ false)
        × Reachable s (record { store = u; executors = k; phase = waiting })
  mark_all zero t l h some_here r = (t, l, h, some_here, r)
  mark_all (suc n) t l h some_here r =
      let (a, b, e) = find_working l n (omega (arith, h)) in
      mark_all n (mark_finished t) (a ++ finished ∷ b)
        (let w : at_work (a ++ working ∷ b) ≡ n + 1 =
            subst (λ x. at_work x ≡ n + 1) e (omega (arith, h)) in
          omega (arith, at_work-working a b))
        (some_left a b finished)
        (step (subst (λ x. Reachable s (record { store = t; executors = x; phase = waiting })) e r)
          (mark a b))

  some_working : (n : ℕ) → 0 < n → none_left (all_working n) ≡ false
  unfolding all_working
  some_working zero h = let absurd : ⊥ = omega arith in elim absurd [ ]
  some_working (suc n) h = refl

  lock_missed :
      0 < s.active_count
      → s.active_count < 2 ^ 64
      → (h : Holders) × Reachable s h × (h.phase ≡ opened false) × (at_work h.executors ≡ 0)
  unfolding is_idle is_free
  lock_missed positive small =
      let (u, k, idle, held, r) =
        mark_all s.active_count s (all_working s.active_count) (at_work-all_working s.active_count)
          (some_working s.active_count positive)
          (start (all_working s.active_count) small (at_work-all_working s.active_count)) in
      let count = (Reachable-IsExclusive s _ r).counted in
      (
        record { store = u; executors = k; phase = opened (is_free let_go k) },
        step (step (step r (see_idle (ground (arith, count)))) drop_store) open_again,
        rw held refl,
        idle,
      )

-- The round of a restart, with the answer to its try at the lock.
abbrev pub with_lock : Bool → Round → Round
with_lock b r = record r { opening = record (r.opening) { locked = b } }

module _ {Cert Key : Type 0} (to_vec : TaskSnapshot → Text) (from_str : Text → Option TaskSnapshot)
    (parse : Parse) (p : Pem Cert Key) where
  locked_out :
      (logging_directory : Text) (config : ResolvedConfig) (so_far : List Ended) (r : Round)
      (rest : List Round)
      → text_eq config.logging.directory logging_directory ≡ true
      → r.opening.made ≡ true
      → r.opening.lock_file ≡ true
      → r.opening.locked ≡ false
      → run_rounds to_vec from_str parse p logging_directory config so_far (r ∷ rest)
        ≡ some (err (not_opened already_locked))
  unfolding run_rounds run_round open_store
  locked_out logging_directory config so_far r rest same made file locked =
      rw (run_rounds, run_round, same, open_store, made, file, locked) refl

  -- Whenever tasks are at work as the servers end, there is a course of events in which all of them
  -- finish, no executor is at work any more, and yet the try at the lock for the next round, whose
  -- directory and lock file are fine, is refused; the service then ends with the error that another
  -- instance uses the directory.
  pub restart_locked_out :
      (s : TaskStore) (logging_directory : Text) (config : ResolvedConfig) (so_far : List Ended)
      (r : Round) (rest : List Round)
      → 0 < s.active_count
      → s.active_count < 2 ^ 64
      → text_eq config.logging.directory logging_directory ≡ true
      → r.opening.made ≡ true
      → r.opening.lock_file ≡ true
      → (h : Holders) × (locked : Bool) × Reachable s h
        × (h.phase ≡ opened locked)
        × (at_work h.executors ≡ 0)
        × (run_rounds to_vec from_str parse p logging_directory config so_far
              (with_lock locked r ∷ rest)
            ≡ some (err (not_opened already_locked)))
  restart_locked_out s logging_directory config so_far r rest positive small same made file =
      let (h, reached, phase, idle) = lock_missed s positive small in
      (
        h,
        false,
        reached,
        phase,
        idle,
        locked_out logging_directory config so_far (with_lock false r) rest same made file refl,
      )
