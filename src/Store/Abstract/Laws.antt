-- ===== src/Store/Abstract/Laws.antt =====
-- src/store.rs: the table of tasks keeps what it is to its users.
use command_api.Prelude.{ℕ, Text, Bool, true, false, ◌≡◌, refl, ap, ◌∙◌, List, [], ◌∷◌, nat_eq}
use command_api.Config.{OutputEncoding}
use command_api.Model.{OutputMode, StopReason, TaskSnapshot, starting, is_finished, Parse}
use command_api.Model
use command_api.Store.{
  TaskStore, Write, whole, torn, get, put, create, persist, new_record, snapshot, cancel_all,
  mark_finished, is_idle,
}
use command_api.Store.Laws.{cancel_all-IsKeyed}
use command_api.Store.Cleanup.{cleanup_expired}
use command_api.Store.Cleanup.Laws.{cleanup_expired_lem, cleanup_expired-same}
use command_api.Store.Abstract.{
  tasks_of, Call, created, changed, stop_requested, all_cancelled, expired_cleaned, marked_finished,
  looked_up, idle_asked, call, run, abstract_call, abstract_run,
}
use command_api.Store.Abstract.Steps.{
  IsStore, Agrees, retasked, put-Agrees, told_at, stop-Agrees, cancel_all-told, cancel_all-same,
}

module _ (to_vec : TaskSnapshot → Text) (parse : Parse) where
  created-Agrees :
      (s : TaskStore) (id : ℕ) (now : Text) (made : Bool) (w : Write) (route : Text)
      (mode : OutputMode) (encoding : OutputEncoding)
      → IsStore s
      → Agrees
          (call to_vec parse (created id now made w route mode encoding) s)
          (abstract_call to_vec parse (created id now made w route mode encoding) (tasks_of s))
  unfolding call abstract_call create persist new_record snapshot
  created-Agrees s id now false w route mode encoding h = (refl, h)
  created-Agrees s id now true (torn k) route mode encoding h = (refl, h)
  created-Agrees s id now true whole route Model.separate encoding h = put-Agrees s _ _ h
  created-Agrees s id now true whole route Model.combined encoding h = put-Agrees s _ _ h

  call-Agrees :
      (c : Call) (s : TaskStore)
      → IsStore s
      → Agrees (call to_vec parse c s) (abstract_call to_vec parse c (tasks_of s))
  unfolding call abstract_call told_at put mark_finished is_idle get
  call-Agrees (created id now made w route mode encoding) s h =
      created-Agrees s id now made w route mode encoding h
  call-Agrees (changed r) s h = put-Agrees s r s.active_count h
  call-Agrees (stop_requested id reason) s h = stop-Agrees s id reason h
  call-Agrees (all_cancelled reason) s h =
      retasked s (cancel_all s reason) true true _ h refl (cancel_all-told s reason)
        (cancel_all-same s reason).0 (cancel_all-same s reason).1
        (cancel_all-IsKeyed reason s h.keyed)
  call-Agrees (expired_cleaned now) s h =
      let (count, retention, keyed) = cleanup_expired-same parse now s h.keyed in
      retasked s (cleanup_expired parse now s) true true _ h refl
        (λ j. cleanup_expired_lem parse now s j h.keyed h.positive h.small) count retention keyed
  call-Agrees marked_finished s h =
      (refl, record { keyed = h.keyed; positive = h.positive; small = h.small })
  call-Agrees (looked_up id) s h = (refl, h)
  call-Agrees idle_asked s h = (refl, h)

  -- From a store with one entry for each task and a retention of 1 to 2^63 - 1 seconds, any sequence of
  -- calls (new tasks, those that fail among them, changes, requests to stop, cancellations, cleanups,
  -- finished tasks and reads) gives the answers that the same calls give on the tasks as a function of
  -- the id, and leaves a store of those tasks, with one entry for each.
  pub run-abstract_run :
      (calls : List Call) (s : TaskStore)
      → IsStore s
      → (((run to_vec parse calls s).0, tasks_of (run to_vec parse calls s).1)
          ≡ abstract_run to_vec parse calls (tasks_of s))
        × IsStore (run to_vec parse calls s).1
  unfolding run abstract_run
  run-abstract_run [] s h = (refl, h)
  run-abstract_run (c ∷ rest) s h =
      let (here, kept) = call-Agrees c s h in
      let t = (call to_vec parse c s).1 in
      let (later, left) = run-abstract_run rest t kept in
      (
        ap (λ r. ((call to_vec parse c s).0 ∷ r.0, r.1)) later
            ∙ ap (λ x. let r = abstract_run to_vec parse rest x.1 in (x.0 ∷ r.0, r.1)) here,
        left,
      )
