-- ===== src/Process/Worker/Ends.antt =====
-- src/process/mod.rs, `run_worker`: its main loop ends once it is asked to.
use command_api.Prelude.{
  ℕ, ◌+◌, ◌≤◌, Bool, true, false, ◌≡◌, ◌≢◌, refl, Option, none, some, List, [], ◌∷◌, ◌++◌, Result,
  ok, err, leb, any, All, arith, if◌then◌else◌, inl, inr, Bool-cases, ◌&&◌, ◌∙◌,
}
use command_api.Process.Run.{ExitStatus}
use command_api.Process.Worker.{
  ControlRead, line, end_of_input, read_failed, stop_requested, Poll, LoopEnd, waiting, failed,
  poll_loop, from_secs, after_wait, no_signal, sleeping, wait_failed, WorkerFault,
  worker_force_after_parent_loss,
}

-- Some round reads its clock at or after an instant.
abbrev pub has_late : (deadline : ℕ) → List Poll → Bool
has_late deadline polls = any (λ p. leb deadline p.now) polls

has_late-append : (d : ℕ) (a b : List Poll) → has_late d b ≡ true → has_late d (a ++ b) ≡ true
has_late-append d [] b h = h
has_late-append d (p ∷ a) b h = ground (arith, has_late-append d a b h)

has_late-le :
    (c d : ℕ) (polls : List Poll) → c ≤ d → has_late d polls ≡ true → has_late c polls ≡ true
has_late-le c d [] l h = h
has_late-le c d (p ∷ polls) l h = ground (arith, has_late-le c d polls l)

-- The loop is over: it does not go on, and sleeps only on Windows.
abbrev pub IsOver : (windows : Bool) → LoopEnd → Type 0
IsOver windows e = (e ≢ waiting) × (e ≡ sleeping → windows ≡ true)

IsOver-failed : (windows : Bool) (f : WorkerFault) → IsOver windows (failed f)
IsOver-failed windows f = ((λ e. cc), λ e. cc)

-- A round that does not wait on.
after_wait_ends :
    (windows : Bool) (w : Result (Unit {0}) (Option ExitStatus)) (next : LoopEnd)
    → IsOver windows next
    → IsOver windows (after_wait windows w false next)
after_wait_ends windows (err u) next h = IsOver-failed windows wait_failed
after_wait_ends windows (ok (some x)) next h = ((λ e. cc), λ e. cc)
after_wait_ends windows (ok none) next h = h

overdue_ends :
    (windows : Bool) (w : Result (Unit {0}) (Option ExitStatus)) (next : LoopEnd)
    → IsOver windows (after_wait windows w true next)
unfolding worker_force_after_parent_loss
overdue_ends windows (err u) next = IsOver-failed windows wait_failed
overdue_ends windows (ok (some x)) next = ((λ e. cc), λ e. cc)
overdue_ends true (ok none) next = ((λ e. cc), λ e. refl)
overdue_ends false (ok none) next = ((λ e. cc), λ e. cc)

stop_requested_first :
    (c : ControlRead) (later : List ControlRead)
    → stop_requested (c ∷ []) ≡ true
    → stop_requested (c ∷ later) ≡ true
unfolding stop_requested
stop_requested_first end_of_input later h = refl
stop_requested_first read_failed later h = refl
stop_requested_first (line l) later h = ground arith

-- The flag is never taken back.
stop_requested_once :
    (c : ControlRead) (earlier later : List ControlRead)
    → stop_requested (c ∷ []) ≡ true
    → stop_requested (earlier ++ c ∷ later) ≡ true
unfolding stop_requested
stop_requested_once c [] later h = stop_requested_first c later h
stop_requested_once c (end_of_input ∷ earlier) later h = refl
stop_requested_once c (read_failed ∷ earlier) later h = refl
stop_requested_once c (line l ∷ earlier) later h =
    ground (arith, stop_requested_once c earlier later h)

and_false : (b : Bool) → (b && false) ≡ false
and_false true = refl
and_false false = refl

-- A round with a deadline, given that the rounds after it end.
round_ends :
    (windows : Bool) (deadline : ℕ) (p : Poll) (rest : List Poll) (next : LoopEnd)
    → has_late deadline (p ∷ rest) ≡ true
    → (has_late deadline rest ≡ true → IsOver windows next)
    → IsOver windows (after_wait windows p.waited (leb deadline p.now) next)
round_ends windows deadline p rest next h later = elim (Bool-cases (leb deadline p.now)) [
  | inl late ↦ rw late (overdue_ends windows p.waited next)
  | inr early ↦ rw early (after_wait_ends windows p.waited next (later (rw early at h)))
]

module _ (windows : Bool) (grace : ℕ) where
  -- Once the script has been asked to end, the loop ends at the first late round.
  sent_ends :
      (sent : ℕ) (polls : List Poll)
      → has_late (sent + from_secs grace) polls ≡ true
      → IsOver windows (poll_loop windows grace (some sent) polls)
  unfolding poll_loop
  sent_ends sent [] h = cc
  sent_ends sent (p ∷ rest) h =
      rw (and_false p.stop)
        (round_ends windows (sent + from_secs grace) p rest _ h (sent_ends sent rest))

  -- The round in which the loop sees the request.
  asked_ends :
      (p : Poll) (rest : List Poll)
      → p.stop ≡ true
      → has_late (p.sent_at + from_secs grace) (p ∷ rest) ≡ true
      → IsOver windows (poll_loop windows grace none (p ∷ rest))
  unfolding poll_loop
  asked_ends p rest s h = rw s (by_signal p.signalled)
    where
      by_signal :
          (good : Bool)
          → IsOver windows (
              if good
              then after_wait windows p.waited
                  (leb (p.sent_at + from_secs grace) p.now)
                  (poll_loop windows grace (some p.sent_at) rest)
              else failed no_signal)
      by_signal true =
          round_ends windows (p.sent_at + from_secs grace) p rest _ h (sent_ends p.sent_at rest)
      by_signal false = IsOver-failed windows no_signal

  poll_loop_ends :
      (before : List Poll) (p : Poll) (after : List Poll)
      → p.stop ≡ true
      → All (λ b. b.sent_at ≤ p.sent_at) before
      → has_late (p.sent_at + from_secs grace) (p ∷ after) ≡ true
      → IsOver windows (poll_loop windows grace none (before ++ p ∷ after))
  unfolding poll_loop
  poll_loop_ends [] p after s order h = asked_ends p after s h
  poll_loop_ends (b ∷ before) p after s (first, order) h = elim (Bool-cases b.stop) [
    | inl asked ↦ asked_ends b (before ++ p ∷ after) asked (
        has_late-le (b.sent_at + from_secs grace) (p.sent_at + from_secs grace)
          ((b ∷ before) ++ p ∷ after) (omega arith)
          (has_late-append (p.sent_at + from_secs grace) (b ∷ before) (p ∷ after) h))
    | inr quiet ↦
        rw quiet (after_wait_ends windows b.waited _ (poll_loop_ends before p after s order h))
  ]

  -- The worker's main loop does not go on once it is asked to end: whatever its rounds meet, if the
  -- control pipe has given the line `terminate`, its end or an error, if a later round sees the flag,
  -- and if that round or one after it reads the clock at least the grace period later, the loop has
  -- ended with the script's status, with an error, or, on Unix, by killing its process group; on
  -- Windows it may sleep instead until the service ends its job. No earlier round may have asked the
  -- script to end at a later time.
  pub asked_worker_ends :
      (earlier later : List ControlRead) (asked : ControlRead) (before : List Poll) (p : Poll)
      (after : List Poll)
      → stop_requested (asked ∷ []) ≡ true
      → p.stop ≡ stop_requested (earlier ++ asked ∷ later)
      → All (λ b. b.sent_at ≤ p.sent_at) before
      → has_late (p.sent_at + from_secs grace) (p ∷ after) ≡ true
      → IsOver windows (poll_loop windows grace none (before ++ p ∷ after))
  asked_worker_ends earlier later asked before p after a seen order h =
      poll_loop_ends before p after (seen ∙ stop_requested_once asked earlier later a) order h
