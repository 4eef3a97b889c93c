-- ===== src/Lifecycle.antt =====
-- src/app.rs, src/process/mod.rs and src/store.rs: a task from the request for it to its end. The
-- executor runs here from its start to its end without a request in between.
use command_api.Prelude.{
  ℕ, Text, bytes, text_eq, Bool, true, false, ◌≡◌, refl, sym, ap, ◌∙◌, Option, none, some, [], ◌++◌,
  err, subst, nat_eq, arith,
}
use command_api.Model.{TaskStatus, starting, is_finished, StopReason}
use command_api.Store.{TaskStore, TaskRecord, get, put, mark_finished, request_stop, snapshot}
use command_api.Store.Laws.{get-put}
use command_api.App.Auth.Laws.{IsAuthorized}
use command_api.App.Execute.{give_back}
use command_api.App.Execute.Acquire.{give_back-same}
use command_api.App.Handlers.{stop_task, task_finished}
use command_api.App.Router.{get as by_get, is_literal}
use command_api.App.Http.{
  HttpRequest, AcceptedTask, accepted, Service, Moment, Setup, serve, body_limit,
}
use command_api.App.Http.Promise.{IsEntry, IsNew, IsPromised, serve-IsPromised}
use command_api.App.Http.Links.{IsViewOf, serve-IsViewOf}
use command_api.Process.Run.{Answers, Run, panics, start_task}
use command_api.Process.Run.Trace.{IsAt, IsRepresentable}
use command_api.Process.Run.Ends.{start_task-IsEnded, panics-false}
use command_api.Process.Run.Frame.{start_task-IsOf}

-- The call of `start_task`: the executor has the record and the permits.
abbrev pub begin_run : TaskRecord → Run
begin_run r = record { task = r; permits = true; published = [] }

abbrev pub IsOver : TaskStatus → Type 0
IsOver status = is_finished status ≡ true

module _ (u : Setup) (a : Answers) where
  abbrev pub ended : TaskRecord → TaskRecord
  ended r = (start_task u.to_vec a (begin_run r)).task

  -- Where the executor did not panic it has called `mark_finished`.
  abbrev pub counted : (panicked : Bool) → TaskStore → TaskStore
  counted true s = s
  counted false s = mark_finished s

  abbrev pub end_of : (path : Text) → Service → Option TaskRecord → Service
  end_of path s none = s
  end_of path s (some r) = record s {
    app = give_back path (record (s.app) {
      store = counted (panics u.to_vec a (begin_run r)) (put s.app.store (ended r));
    });
  }

  -- The service after the executor of a task has run and dropped what it held.
  unfoldable pub after_executor : (path : Text) → (id : ℕ) → Service → Service
  unfolding start_task panics put mark_finished give_back get
  after_executor path id s = end_of path s (get s.app.store id)

  module _ (room : IsRepresentable a) (r : TaskRecord) (new : r.state.status ≡ starting) where
    begin_run-IsAt : IsAt starting true (begin_run r)
    begin_run-IsAt = record {
      status = new;
      permits = refl;
      legal = tt;
      shown = refl;
      released = tt;
    }

    ended-IsEnded : IsOver (ended r).state.status
    ended-IsEnded =
        let (t, over, at) = start_task-IsEnded u.to_vec a room (begin_run r) begin_run-IsAt in
        ap is_finished at.status ∙ over

  -- The record of a task whose executor has ended stands in the table in its place.
  after_executor-IsEntry :
      (path : Text) (id : ℕ) (s : Service)
      → IsRepresentable a
      → IsNew id s.app.store
      → IsEntry IsOver id (after_executor path id s).app.store
  unfolding after_executor mark_finished get
  after_executor-IsEntry path id s room new =
      let r = new.entry in
      let is =
        start_task-IsOf u.to_vec a id (begin_run r)
          (record { keyed = new.keyed; named = new.named }) in
      let left = record (s.app) { store = mark_finished (put s.app.store (ended r)) } in
      subst (λ o. IsEntry IsOver id (end_of path s o).app.store) (sym new.entry_found)
        (subst
          (λ b.
            IsEntry IsOver id
              (give_back path
                (record (s.app) { store = counted b (put s.app.store (ended r)) })).store)
          (sym (panics-false u.to_vec a room (begin_run r) (begin_run-IsAt room r new.status)))
          (subst (IsEntry IsOver id) (sym (give_back-same path left).1) (record {
            entry = ended r;
            entry_found = get-put s.app.store (ended r) id ∙ ground (arith, is.keyed);
            named = is.named;
            keyed = is.keyed;
            status = ended-IsEnded room r new.status;
          })))

  -- A task that is over is not told to stop.
  stop_task-over :
      (reason : StopReason) (s : TaskStore) (id : ℕ)
      → IsEntry IsOver id s
      → stop_task reason s id ≡ err task_finished
  unfolding stop_task request_stop snapshot
  stop_task-over reason s id is =
      rw (stop_task, is.entry_found, request_stop, snapshot, is.status) refl

  after_executor-gate :
      (path : Text) (id : ℕ) (s : Service) → (after_executor path id s).gate ≡ s.gate
  unfolding after_executor
  after_executor-gate path id s = kept (get s.app.store id)
    where
      kept : (o : Option TaskRecord) → (end_of path s o).gate ≡ s.gate
      kept none = refl
      kept (some r) = refl

  module _ (literal : (p x : Text) → is_literal p ≡ true → u.matches p x ≡ text_eq p x)
      (capture : (id : ℕ)
        → u.matches (bytes "/tasks/{task_id}") (bytes "/tasks/" ++ u.show_id id) ≡ true) where
    -- A task from its request to its end, whatever its executor meets, if its deadlines are instants
    -- that the system can represent, and if nothing but its executor runs between the answer to the
    -- request and the requests that follow here: with a router that matches a
    -- literal pattern by equality, and the pattern of a task's status with the path of each id, when a
    -- request has been answered with an accepted task and the executor has run from its start to its
    -- end, an authorised GET of the link of that answer, with no body over the limit and read with the
    -- id of the answer, is answered with the view of that task, whose status is final, and a request
    -- to stop it is refused as the task has finished.
    pub accepted_task_ends :
        (s s' : Service) (req status_req : HttpRequest) (m m' : Moment) (t : AcceptedTask)
        (path : Text) (reason : StopReason)
        → IsRepresentable a
        → serve u s req m ≡ (accepted t, s')
        → IsAuthorized u.digest u.phc_accepts u.access m'.now m'.later s'.gate status_req.auth
        → status_req.method ≡ by_get
        → status_req.path ≡ t.status_url
        → status_req.task_id ≡ some t.task_id
        → status_req.exceeds body_limit ≡ false
        → IsViewOf u IsOver t (serve u (after_executor path t.task_id s') status_req m').0
          × (stop_task reason (after_executor path t.task_id s').app.store t.task_id
              ≡ err task_finished)
    accepted_task_ends s s' req status_req m m' t path reason room e auth method at id within =
        let (new, url) = subst (IsPromised u) e (serve-IsPromised u s req m) in
        let is = after_executor-IsEntry path t.task_id s' room new in
        let left = after_executor path t.task_id s' in
        (
          serve-IsViewOf u literal capture IsOver left status_req m' t is url
              (subst
                (λ g.
                  IsAuthorized u.digest u.phc_accepts u.access m'.now m'.later g status_req.auth)
                (sym (after_executor-gate path t.task_id s')) auth)
              method at id within,
          stop_task-over reason left.app.store t.task_id is,
        )
