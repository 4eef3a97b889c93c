-- ===== src/Service/Laws.antt =====
-- src/service.rs: what the SCM is told.
use command_api.Prelude.{
  ℕ, suc, ◌+◌, arith, Bool, true, false, ◌≡◌, refl, List, [], ◌∷◌, All, ◌∙◌, ap, subst, ◌⊎◌, inl,
  inr,
}
use command_api.Service.{
  ServiceState, start_pending, running, stop_pending, stopped, ServiceStatus, status,
  ServiceControl, stop, interrogate, other_control, handle_control, MainThread, registered,
  told_start_pending, told_running, serving, failed, returned, told_stopped, StopThread,
  not_spawned, waiting, told, passed_on, ServiceRun, Step, control, tell_start_pending,
  tell_running, spawn, start_fails, build_fails, stop_fails, receive, tell_stop_pending,
  stop_pending_refused, pass_on, run_returns, tell_stopped, Reachable, start, step,
}

-- The states that were told, the last one first, in two parts: those of the main thread, and how
-- often `stop_pending` was.
abbrev pub of_main : List ServiceStatus → List ServiceState
of_main [] = []
of_main (r ∷ rs) = elim r.current_state [
  | stop_pending ↦ of_main rs
  | start_pending ↦ start_pending ∷ of_main rs
  | running ↦ running ∷ of_main rs
  | stopped ↦ stopped ∷ of_main rs
]

abbrev pub of_stopper : List ServiceStatus → ℕ
of_stopper [] = 0
of_stopper (r ∷ rs) = elim r.current_state [
  | stop_pending ↦ suc (of_stopper rs)
  | _ ↦ of_stopper rs
]

-- What the main thread has told at each of its points.
abbrev pub ToldBy : MainThread → List ServiceState → Type 0
ToldBy registered l = l ≡ []
ToldBy told_start_pending l = l ≡ start_pending ∷ []
ToldBy told_running l = l ≡ running ∷ start_pending ∷ []
ToldBy serving l = l ≡ running ∷ start_pending ∷ []
ToldBy (returned b) l = l ≡ running ∷ start_pending ∷ []
ToldBy (told_stopped b) l = l ≡ stopped ∷ running ∷ start_pending ∷ []
ToldBy failed l = (l ≡ []) ⊎ ((l ≡ start_pending ∷ []) ⊎ (l ≡ running ∷ start_pending ∷ []))

abbrev pub told_by_stopper : StopThread → ℕ
told_by_stopper (told true) = 1
told_by_stopper (passed_on true) = 1
told_by_stopper _ = 0

-- The events to stop that the thread has received.
abbrev pub taken : StopThread → ℕ
taken not_spawned = 0
taken waiting = 0
taken _ = 1

-- How often the SCM has asked for a stop.
abbrev pub stops : List ServiceControl → ℕ
stops [] = 0
stops (stop ∷ rest) = suc (stops rest)
stops (interrogate ∷ rest) = stops rest
stops (other_control ∷ rest) = stops rest

abbrev pub has_passed_on : StopThread → Bool
has_passed_on (passed_on b) = true
has_passed_on _ = false

abbrev pub is_early : MainThread → Bool
is_early registered = true
is_early told_start_pending = true
is_early told_running = true
is_early _ = false

-- What was told and done, and that it was in order.
pub record IsTold (s : ServiceRun) : Type 0 where
  pub main : ToldBy s.main (of_main s.reports)
  pub stopper : of_stopper s.reports ≡ told_by_stopper s.stopper
  pub unspawned : is_early s.main ≡ true → s.stopper ≡ not_spawned
  pub exit_codes : All (λ r. r.exit_code ≡ 0) s.reports
  pub shutdown : s.shutdown ≡ has_passed_on s.stopper
  pub received : stops s.controls ≡ s.events + taken s.stopper

same_told : (b : Bool) → told_by_stopper (told b) ≡ told_by_stopper (passed_on b)
same_told true = refl
same_told false = refl

stops-handled :
    (c : ServiceControl) (cs : List ServiceControl) (events n : ℕ)
    → stops cs ≡ events + n
    → stops (c ∷ cs) ≡ (handle_control c events).1 + n
unfolding handle_control
stops-handled stop cs events n h = omega (arith, h)
stops-handled interrogate cs events n h = h
stops-handled other_control cs events n h = h

Step-IsTold : (a b : ServiceRun) → Step a b → IsTold a → IsTold b
unfolding status handle_control
Step-IsTold a _ (control c) h = record {
  main = h.main;
  stopper = h.stopper;
  unspawned = h.unspawned;
  exit_codes = h.exit_codes;
  shutdown = h.shutdown;
  received = stops-handled c a.controls a.events (taken a.stopper) h.received;
}
Step-IsTold a _ (tell_start_pending e) h = record {
  main = ap (◌∷◌ start_pending) (subst (λ m. ToldBy m (of_main a.reports)) e h.main);
  stopper = h.stopper;
  unspawned = λ t. h.unspawned (ap is_early e);
  exit_codes = (refl, h.exit_codes);
  shutdown = h.shutdown;
  received = h.received;
}
Step-IsTold a _ (tell_running e) h = record {
  main = ap (◌∷◌ running) (subst (λ m. ToldBy m (of_main a.reports)) e h.main);
  stopper = h.stopper;
  unspawned = λ t. h.unspawned (ap is_early e);
  exit_codes = (refl, h.exit_codes);
  shutdown = h.shutdown;
  received = h.received;
}
Step-IsTold a _ (spawn e) h = record {
  main = subst (λ m. ToldBy m (of_main a.reports)) e h.main;
  stopper = h.stopper ∙ ap told_by_stopper (h.unspawned (ap is_early e));
  unspawned = λ t. cc;
  exit_codes = h.exit_codes;
  shutdown = h.shutdown ∙ ap has_passed_on (h.unspawned (ap is_early e));
  received = h.received ∙ ap (λ w. a.events + taken w) (h.unspawned (ap is_early e));
}
Step-IsTold a _ (start_fails e) h = record {
  main = inl (subst (λ m. ToldBy m (of_main a.reports)) e h.main);
  stopper = h.stopper;
  unspawned = λ t. cc;
  exit_codes = h.exit_codes;
  shutdown = h.shutdown;
  received = h.received;
}
Step-IsTold a _ (build_fails e) h = record {
  main = inr (inl (subst (λ m. ToldBy m (of_main a.reports)) e h.main));
  stopper = h.stopper;
  unspawned = λ t. cc;
  exit_codes = h.exit_codes;
  shutdown = h.shutdown;
  received = h.received;
}
Step-IsTold a _ (stop_fails b e) h = record {
  main = inr (inr (subst (λ m. ToldBy m (of_main a.reports)) e h.main));
  stopper = h.stopper;
  unspawned = λ t. cc;
  exit_codes = h.exit_codes;
  shutdown = h.shutdown;
  received = h.received;
}
Step-IsTold a _ (receive n e f) h = record {
  main = h.main;
  stopper = h.stopper ∙ ap told_by_stopper e;
  unspawned = λ t. cc (h.unspawned t);
  exit_codes = h.exit_codes;
  shutdown = h.shutdown ∙ ap has_passed_on e;
  received = omega (arith, h.received ∙ ap (λ w. a.events + taken w) e, f);
}
Step-IsTold a _ (tell_stop_pending e) h = record {
  main = h.main;
  stopper = ap suc (h.stopper ∙ ap told_by_stopper e);
  unspawned = λ t. cc (h.unspawned t);
  exit_codes = (refl, h.exit_codes);
  shutdown = h.shutdown ∙ ap has_passed_on e;
  received = h.received ∙ ap (λ w. a.events + taken w) e;
}
Step-IsTold a _ (stop_pending_refused e) h = record {
  main = h.main;
  stopper = h.stopper ∙ ap told_by_stopper e;
  unspawned = λ t. cc (h.unspawned t);
  exit_codes = h.exit_codes;
  shutdown = h.shutdown ∙ ap has_passed_on e;
  received = h.received ∙ ap (λ w. a.events + taken w) e;
}
Step-IsTold a _ (pass_on b e) h = record {
  main = h.main;
  stopper = h.stopper ∙ ap told_by_stopper e ∙ same_told b;
  unspawned = λ t. cc (h.unspawned t);
  exit_codes = h.exit_codes;
  shutdown = refl;
  received = h.received ∙ ap (λ w. a.events + taken w) e;
}
Step-IsTold a _ (run_returns b e) h = record {
  main = subst (λ m. ToldBy m (of_main a.reports)) e h.main;
  stopper = h.stopper;
  unspawned = λ t. cc;
  exit_codes = h.exit_codes;
  shutdown = h.shutdown;
  received = h.received;
}
Step-IsTold a _ (tell_stopped b e) h = record {
  main = ap (◌∷◌ stopped) (subst (λ m. ToldBy m (of_main a.reports)) e h.main);
  stopper = h.stopper;
  unspawned = λ t. cc;
  exit_codes = (refl, h.exit_codes);
  shutdown = h.shutdown;
  received = h.received;
}

-- Whatever controls come and however the two threads take their steps: the main thread tells the SCM
-- that the start is pending, that the service runs and that it has stopped, in this order and each
-- once at its point. Of the events to stop that the SCM has sent, those that are not in the channel
-- were received, one at most; the stop is told to be pending only after one was, once, unless the SCM
-- refuses the report, and the runtime is asked to shut down exactly if the thread has got beyond its
-- report. Every report has the exit code 0, also the last one of a service whose runtime failed.
pub Reachable-IsTold : (s : ServiceRun) → Reachable s → IsTold s
Reachable-IsTold _ start = record {
  main = refl;
  stopper = refl;
  unspawned = λ t. refl;
  exit_codes = tt;
  shutdown = refl;
  received = refl;
}
Reachable-IsTold b (step {a = a} r one) = Step-IsTold a b one (Reachable-IsTold a r)
