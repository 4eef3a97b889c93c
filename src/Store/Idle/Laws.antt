-- ===== src/Store/Idle/Laws.antt =====
-- src/store.rs, `wait_until_idle`: what its answer says, and when it sleeps too long.
use command_api.Prelude.{ℕ, zero, suc, ◌^◌, ◌<◌, true, false, ◌≡◌, refl, ap, arith}
use command_api.Store.{TaskStore, mark_finished, is_idle}
use command_api.Store.Idle.{
  Waiter, testing, before_notified, asleep, returned, wake, Wait, Step, test_idle, test_active,
  call_notified, timed_out, fetch_sub, work, notify_waiters, Reachable, start, step,
}

-- What a wait that has returned promises.
abbrev IsSound : Waiter → TaskStore → Type 0
IsSound (returned true) s = is_idle s ≡ true
IsSound _ s = Unit {0}

wake-IsSound : (w : Waiter) (s : TaskStore) → IsSound w s → IsSound (wake w) s
unfolding wake
wake-IsSound asleep s h = tt
wake-IsSound testing s h = h
wake-IsSound before_notified s h = h
wake-IsSound (returned b) s h = h

active-IsSound : (w : Waiter) (s t : TaskStore) → is_idle s ≡ false → IsSound w s → IsSound w t
active-IsSound (returned true) s t e h = cc
active-IsSound (returned false) s t e h = tt
active-IsSound asleep s t e h = tt
active-IsSound testing s t e h = tt
active-IsSound before_notified s t e h = tt

Step-IsSound : (a b : Wait) → Step a b → IsSound a.waiter a.store → IsSound b.waiter b.store
Step-IsSound _ _ (test_idle e) h = e
Step-IsSound _ _ (test_active e) h = tt
Step-IsSound _ _ call_notified h = tt
Step-IsSound _ _ timed_out h = tt
Step-IsSound a b (fetch_sub e) h = active-IsSound a.waiter a.store b.store e h
Step-IsSound a b (work r e f) h = active-IsSound a.waiter a.store b.store e h
Step-IsSound a _ notify_waiters h = wake-IsSound a.waiter a.store h

Reachable-IsSound : (s : TaskStore) (a : Wait) → Reachable s a → IsSound a.waiter a.store
Reachable-IsSound s _ start = tt
Reachable-IsSound s b (step {a = a} r one) = Step-IsSound a b one (Reachable-IsSound s a r)

-- When `wait_until_idle` returns `true` the store is idle, however its thread and the executors take
-- their steps.
pub wait_until_idle_true :
    (s : TaskStore) (a : Wait) → Reachable s a → a.waiter ≡ returned true → is_idle a.store ≡ true
wait_until_idle_true s a r e = let sound = Reachable-IsSound s a r in rw e at sound

-- One executor finishes between the test and the call of `notified()`.
finish_one :
    (s t : TaskStore)
    → is_idle t ≡ false
    → Reachable s (record { store = t; finishers = 0; waiter = before_notified })
    → Reachable s (record { store = mark_finished t; finishers = 0; waiter = before_notified })
unfolding wake
finish_one s t e r = step (step r (fetch_sub e)) notify_waiters

finish_all :
    (n : ℕ) (s t : TaskStore)
    → t.active_count ≡ n
    → n < 2 ^ 64
    → Reachable s (record { store = t; finishers = 0; waiter = before_notified })
    → (u : TaskStore) × (is_idle u ≡ true)
      × Reachable s (record { store = u; finishers = 0; waiter = before_notified })
unfolding is_idle mark_finished
finish_all zero s t e h r = (t, rw e refl, r)
finish_all (suc n) s t e h r =
    finish_all n s (mark_finished t) (rw e (omega arith)) (omega arith)
      (finish_one s t (rw e (ground arith)) r)

only_timeout :
    (a b : Wait)
    → Step a b
    → a.finishers ≡ 0
    → a.waiter ≡ asleep
    → is_idle a.store ≡ true
    → b ≡ record { store = a.store; finishers = 0; waiter = returned false }
only_timeout _ _ (test_idle h) f w e = cc
only_timeout _ _ (test_active h) f w e = cc
only_timeout _ _ call_notified f w e = cc
only_timeout _ _ (timed_out {store = t}) f w e =
    ap (λ n. record { store = t; finishers = n; waiter = returned false }) f
only_timeout a _ (fetch_sub h) f w e = cc
only_timeout a _ (work r h g) f w e = cc
only_timeout _ _ notify_waiters f w e = cc

-- A wait can sleep through the end of the last task. From any store that is not idle, with fewer than
-- 2^64 tasks, there is a course of events after which the store is idle and every executor has
-- notified, while the wait sleeps; the only step that is left is its timeout, and it returns `false`.
pub wait_until_idle_overslept :
    (s : TaskStore)
    → is_idle s ≡ false
    → s.active_count < 2 ^ 64
    → (t : TaskStore) × (is_idle t ≡ true)
      × Reachable s (record { store = t; finishers = 0; waiter = asleep })
      × ((b : Wait)
          → Step (record { store = t; finishers = 0; waiter = asleep }) b
          → b ≡ record { store = t; finishers = 0; waiter = returned false })
wait_until_idle_overslept s busy h =
    let (t, e, r) = finish_all s.active_count s s refl h (step start (test_active busy)) in
    (t, e, step r call_notified, λ b one. only_timeout _ b one refl refl e)
