-- ===== src/Process/Run/Trace.antt =====
-- src/process/mod.rs: the statuses that clients see of one task, from its start to its end.
use command_api.Prelude.{
  ℕ, ◌+◌, ◌≤◌, leb, arith, Text, Bool, true, false, ◌&&◌, ◌≡◌, refl, ap, ◌∙◌, List, [], ◌∷◌, ◌++◌,
  Result, ok, err,
}
use command_api.Model.{
  TaskStatus, starting, running, stopping, succeeded, failed, timed_out, cancelled, killed,
  interrupted, is_finished, Fault, TaskSnapshot,
}
use command_api.Store.{TaskRecord, Write, whole, torn}
use command_api.Process.Run.{
  Answers, Run, Failure, fault, panicked, M, and_then, check, lift, add_to_instant, publish,
}

-- Which status may be seen after which.
abbrev pub can_follow : TaskStatus → TaskStatus → Bool
can_follow starting running = true
can_follow starting failed = true
can_follow running stopping = true
can_follow running succeeded = true
can_follow running failed = true
can_follow stopping stopping = true
can_follow stopping failed = true
can_follow stopping timed_out = true
can_follow stopping cancelled = true
can_follow stopping killed = true
can_follow stopping interrupted = true
can_follow succeeded succeeded = true
can_follow failed failed = true
can_follow timed_out timed_out = true
can_follow cancelled cancelled = true
can_follow killed killed = true
can_follow interrupted interrupted = true
can_follow _ _ = false

-- Each status may follow the one before it.
abbrev pub Legal : TaskStatus → List (TaskStatus × Bool) → Type 0
Legal t [] = Unit {0}
Legal t ((u, held) ∷ rest) = (can_follow t u ≡ true) × Legal u rest

abbrev pub last : TaskStatus → List (TaskStatus × Bool) → TaskStatus
last t [] = t
last t ((u, held) ∷ rest) = last u rest

-- No final status is seen while permits are held.
abbrev pub Released : List (TaskStatus × Bool) → Type 0
Released [] = Unit {0}
Released ((u, held) ∷ rest) = ((is_finished u && held) ≡ false) × Released rest

Legal-snoc :
    (t u : TaskStatus) (held : Bool) (l : List (TaskStatus × Bool))
    → Legal t l
    → can_follow (last t l) u ≡ true
    → Legal t (l ++ (u, held) ∷ [])
Legal-snoc t u held [] h f = (f, tt)
Legal-snoc t u held ((v, b) ∷ l) (f, h) g = (f, Legal-snoc v u held l h g)

last-snoc :
    (t u : TaskStatus) (held : Bool) (l : List (TaskStatus × Bool))
    → last t (l ++ (u, held) ∷ []) ≡ u
last-snoc t u held [] = refl
last-snoc t u held ((v, b) ∷ l) = last-snoc v u held l

Released-snoc :
    (u : TaskStatus) (held : Bool) (l : List (TaskStatus × Bool))
    → Released l
    → (is_finished u && held) ≡ false
    → Released (l ++ (u, held) ∷ [])
Released-snoc u held [] r h = (h, tt)
Released-snoc u held ((v, b) ∷ l) (q, r) h = (q, Released-snoc u held l r h)

-- The task shows status `t`, and what has been seen of it is in order.
pub record IsAt (t : TaskStatus) (held : Bool) (s : Run) : Type 0 where
  pub status : s.task.state.status ≡ t
  pub permits : s.permits ≡ held
  pub legal : Legal starting s.published
  pub shown : last starting s.published ≡ t
  pub released : Released s.published

-- A condition on the two ways in which an action ends.
abbrev pub Post {ℓ κ} :
    {A : Type ℓ} → (A → Run → Type κ) → (Failure → Run → Type κ) → Result Failure A × Run → Type κ
Post Q E (ok a, s) = Q a s
Post Q E (err e, s) = E e s

pub and_then-Post {ℓ κ μ} :
    {A : Type ℓ} {B : Type κ} (Q : A → Run → Type μ) (R : B → Run → Type μ)
    (E : Failure → Run → Type μ) (f : A → M B) (r : Result Failure A × Run)
    → Post Q E r
    → ((a : A) (s : Run) → Q a s → Post R E (f a s))
    → Post R E (and_then f r)
and_then-Post Q R E f (ok a, s) h k = k a s h
and_then-Post Q R E f (err e, s) h k = h

-- An error, and no panic.
abbrev pub Fails : (Run → Type 0) → Failure → Run → Type 0
Fails P panicked s = ⊥
Fails P (fault e) s = P s

-- An error, on a task that is unfinished, with the permits held.
abbrev pub IsOpen : Failure → Run → Type 0
IsOpen panicked s = ⊥
IsOpen (fault e) s =
    (t : TaskStatus) × (is_finished t ≡ false) × (can_follow t failed ≡ true) × IsAt t true s

abbrev pub IsEnded : Run → Type 0
IsEnded s = (t : TaskStatus) × (is_finished t ≡ true) × IsAt t false s

pub IsAt-shown :
    (t u : TaskStatus) (held : Bool) (s : Run) (r : TaskRecord)
    → IsAt t held s
    → can_follow t u ≡ true
    → (is_finished u && held) ≡ false
    → r.state.status ≡ u
    → IsAt u held
        (record s { task = r; published = s.published ++ (r.state.status, s.permits) ∷ [] })
IsAt-shown t u held s r h f q e = record {
  status = e;
  permits = h.permits;
  legal =
      rw (e, h.permits)
        (Legal-snoc starting u held s.published h.legal (ap (λ v. can_follow v u) h.shown ∙ f));
  shown = last-snoc starting r.state.status s.permits s.published ∙ e;
  released = rw (e, h.permits) (Released-snoc u held s.published h.released q);
}

-- The task shows `t` and has its permits, whatever an action returns.
abbrev pub Showing {ℓ} : {A : Type ℓ} → TaskStatus → A → Run → Type 0
Showing t _ = IsAt t true

-- Steps of the executor before the permits are dropped.
pub steps {ℓ κ} :
    {A : Type ℓ} {B : Type κ} (Q : A → Run → Type 0) (R : B → Run → Type 0) (f : A → M B)
    (r : Result Failure A × Run)
    → Post Q IsOpen r
    → ((a : A) (s : Run) → Q a s → Post R IsOpen (f a s))
    → Post R IsOpen (and_then f r)
steps Q R f r = and_then-Post Q R IsOpen f r

module _ (to_vec : TaskSnapshot → Text) (a : Answers) where
  -- Publishing a status that may follow.
  pub publish-IsAt :
      (t u : TaskStatus) (held : Bool) (w : Write) (update : TaskSnapshot → TaskSnapshot) (s : Run)
      → IsAt t held s
      → can_follow t u ≡ true
      → (is_finished u && held) ≡ false
      → (update s.task.state).status ≡ u
      → Post (λ _. IsAt u held) (Fails (IsAt u held)) (publish to_vec a w update s)
  unfolding publish
  publish-IsAt t u held whole update s h f q e = IsAt-shown t u held s _ h f q e
  publish-IsAt t u held (torn k) update s h f q e = IsAt-shown t u held s _ h f q e

  pub publish-IsOpen :
      (t u : TaskStatus) (w : Write) (update : TaskSnapshot → TaskSnapshot) (s : Run)
      → IsAt t true s
      → can_follow t u ≡ true
      → is_finished u ≡ false
      → can_follow u failed ≡ true
      → (update s.task.state).status ≡ u
      → Post (λ _. IsAt u true) IsOpen (publish to_vec a w update s)
  unfolding publish
  publish-IsOpen t u whole update s h f q g e =
      IsAt-shown t u true s _ h f (ap (λ b. b && true) q) e
  publish-IsOpen t u (torn k) update s h f q g e =
      (u, q, g, IsAt-shown t u true s _ h f (ap (λ b. b && true) q) e)

  -- Steps that change nothing, where a task shows `stopping`.
  pub lift-IsOpen {ℓ} :
      {A : Type ℓ} (t : TaskStatus) (r : Result Fault A) (s : Run)
      → is_finished t ≡ false
      → can_follow t failed ≡ true
      → IsAt t true s
      → Post (λ _. IsAt t true) IsOpen (lift r s)
  lift-IsOpen t (ok x) s q f h = h
  lift-IsOpen t (err e) s q f h = (t, q, f, h)

  pub check-IsOpen :
      (t : TaskStatus) (b : Bool) (e : Fault) (s : Run)
      → is_finished t ≡ false
      → can_follow t failed ≡ true
      → IsAt t true s
      → Post (λ _. IsAt t true) IsOpen (check b e s)
  check-IsOpen t true e s q f h = h
  check-IsOpen t false e s q f h = (t, q, f, h)

  -- The sum of an instant and a time that the system can represent.
  pub add_to_instant-IsOpen :
      (t : TaskStatus) (last now seconds : ℕ) (s : Run)
      → now + seconds ≤ last
      → IsAt t true s
      → Post (λ _. IsAt t true) IsOpen (add_to_instant last now seconds s)
  unfolding add_to_instant
  add_to_instant-IsOpen t last now seconds s fits h =
      let e : leb (now + seconds) last ≡ true = ground arith in rw (add_to_instant, e) h

-- The deadline of the task and that of its grace period are instants that the system has.
abbrev pub IsRepresentable : Answers → Type 0
IsRepresentable a =
    (a.running_at + a.execution_seconds ≤ a.last_instant)
    × (a.stopping_at + a.graceful_seconds ≤ a.last_instant)
