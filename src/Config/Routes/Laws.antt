-- ===== src/Config/Routes/Laws.antt =====
-- src/config.rs, `validate_route`: what holds of a route that is accepted.
use command_api.Prelude.{
  ℕ, ◌<◌, Text, bytes, some, text_eq, text_eq_iff, contains, starts_with, ends_with, split,
  push_head, true, false, ◌&&◌, ◌≡◌, ◌≢◌, refl, sym, ap, ◌∙◌, List, [], ◌∷◌, ◌++◌, ok, ◌==◌, ==_iff,
  any, Bool-cases, All, arith, ◌⊎◌, inl, inr,
}
use command_api.Config.{RouteConfig, cmd}
use command_api.Config.Routes.{
  slash, has_parent_segment, is_reserved, ascii_lowercase, file_name, extension, runs_batch,
  validate_args, validate_route,
}

-- The inverse of `split`.
abbrev pub join : ℕ → List Text → Text
join c [] = []
join c (s ∷ []) = s
join c (s ∷ t ∷ ss) = s ++ c ∷ join c (t ∷ ss)

join-push_head :
    (c x : ℕ) (s : Text) (ss : List Text) → join c (push_head x (s ∷ ss)) ≡ x ∷ join c (s ∷ ss)
join-push_head c x s [] = refl
join-push_head c x s (t ∷ ss) = refl

-- Splitting always leaves a first piece.
pub split-cons : (c : ℕ) (t : Text) → (s : Text) × (ss : List Text) × (split c t ≡ s ∷ ss)
unfolding split
split-cons c [] = ([], [], refl)
split-cons c (x ∷ xs) = elim (Bool-cases (x == c)) [
  | inl e ↦ ([], split c xs, rw e)
  | inr e ↦ let (s, ss, h) = split-cons c xs in (x ∷ s, ss, rw (e, h))
]

pub join-split : (c : ℕ) (t : Text) → join c (split c t) ≡ t
unfolding split
join-split c [] = refl
join-split c (x ∷ xs) =
    let (s, ss, h) = split-cons c xs in
    let rest : join c (s ∷ ss) ≡ xs = ap (join c) (sym h) ∙ join-split c xs in
    elim (Bool-cases (x == c)) [
      | inl e ↦ rw (e, h) (rw rest (ap (λ y. y ∷ xs) (sym ((==_iff x c).0 e))))
      | inr e ↦ rw (e, h) (join-push_head c x s ss ∙ ap (◌∷◌ x) rest)
    ]

-- The segments of a path that no endpoint of the service has: `/`, `/healthz`, `/tasks`, all below
-- `/tasks/`, `/system` and all below `/system/` are the service's.
pub record IsOwn (segments : List Text) : Type 0 where
  pub head : Text
  pub tail : List Text
  pub rooted : segments ≡ [] ∷ head ∷ tail
  pub not_tasks : head ≢ bytes "tasks"
  pub not_system : head ≢ bytes "system"
  pub not_index : head ∷ tail ≢ [] ∷ []
  pub not_healthz : head ∷ tail ≢ bytes "healthz" ∷ []
  pub no_parent : All (λ s. s ≢ bytes "..") segments

starts_with-nil : (s : Text) → starts_with [] s ≡ true
starts_with-nil s = refl

not_reserved :
    (path : Text)
    → is_reserved path ≡ false
    → (path ≢ bytes "/")
      × (path ≢ bytes "/healthz")
      × (path ≢ bytes "/tasks")
      × (starts_with (bytes "/tasks/") path ≡ false)
      × (path ≢ bytes "/system")
      × (starts_with (bytes "/system/") path ≡ false)
unfolding is_reserved
not_reserved path h = ground (
  arith,
  text_eq_iff path (bytes "/"),
  text_eq_iff path (bytes "/healthz"),
  text_eq_iff path (bytes "/tasks"),
  text_eq_iff path (bytes "/system"),
)

rooted_split :
    (path : Text)
    → starts_with (bytes "/") path ≡ true
    → (s : Text) × (ss : List Text) × (split slash path ≡ [] ∷ s ∷ ss)
unfolding split
rooted_split [] h = cc
rooted_split (x ∷ xs) h =
    let (s, ss, e) = split-cons slash xs in
    let here : (x == slash) ≡ true = ground arith in (s, ss, rw (here, e))

no_parent_segments :
    (segments : List Text)
    → any (text_eq (bytes "..")) segments ≡ false
    → All (λ s. s ≢ bytes "..") segments
no_parent_segments [] h = tt
no_parent_segments (s ∷ ss) h =
    ((λ e. ground (arith, text_eq_iff (bytes "..") s)), no_parent_segments ss (ground arith))

-- A path whose second segment is `name` is `/name`, or lies below `/name/`.
below :
    (path name : Text) (ss : List Text)
    → split slash path ≡ [] ∷ name ∷ ss
    → (path ≡ slash ∷ name) ⊎ ((rest : Text) × (path ≡ slash ∷ (name ++ slash ∷ rest)))
below path name [] e = inl (sym (join-split slash path) ∙ ap (join slash) e)
below path name (t ∷ ss) e =
    inr (join slash (t ∷ ss), sym (join-split slash path) ∙ ap (join slash) e)

not_second :
    (path name : Text) (ss : List Text)
    → path ≢ slash ∷ name
    → ((rest : Text) → path ≢ slash ∷ (name ++ slash ∷ rest))
    → split slash path ≢ [] ∷ name ∷ ss
not_second path name ss h k e = elim (below path name ss e) [
  | inl p ↦ h p
  | inr (rest, p) ↦ k rest p
]

pub IsOwn-path :
    (path : Text)
    → starts_with (bytes "/") path ≡ true
    → is_reserved path ≡ false
    → has_parent_segment path ≡ false
    → IsOwn (split slash path)
unfolding has_parent_segment
IsOwn-path path rooted free up =
    let (s, ss, e) = rooted_split path rooted in
    let (not_root, not_health, not_tasks, not_under_tasks, not_system, not_under_system) =
      not_reserved path free in
    record {
      head = s;
      tail = ss;
      rooted = e;
      not_tasks = λ q.
          not_second path (bytes "tasks") ss not_tasks (λ rest p. cc (rw p at not_under_tasks))
            (e ∙ ap (λ t. [] ∷ t ∷ ss) q);
      not_system = λ q.
          not_second path (bytes "system") ss not_system (λ rest p. cc (rw p at not_under_system))
            (e ∙ ap (λ t. [] ∷ t ∷ ss) q);
      not_index = λ q. not_root (sym (join-split slash path) ∙ ap (join slash) (e ∙ ap (◌∷◌ []) q));
      not_healthz =
          λ q. not_health (sym (join-split slash path) ∙ ap (join slash) (e ∙ ap (◌∷◌ []) q));
      no_parent = no_parent_segments (split slash path) up;
    }

-- What an accepted route satisfies.
pub record IsValidRoute (route : RouteConfig) : Type 0 where
  pub path : IsOwn (split slash route.path)
  pub unreserved : is_reserved route.path ≡ false
  pub no_query : contains b'?' route.path ≡ false
  pub no_fragment : contains b'#' route.path ≡ false
  pub no_slash_at_end : ends_with slash route.path ≡ false
  pub concurrency : 0 < route.max_concurrency
  pub execution_time : 0 < route.max_execution_seconds
  pub grace_period : 0 < route.graceful_shutdown_seconds
  pub no_cmd : route.request_args.enabled ≡ true → route.executor ≢ cmd
  pub no_batch_script :
      route.request_args.enabled ≡ true
      → (e : Text) → extension route.script ≡ some e
      → (ascii_lowercase e ≢ bytes "bat") × (ascii_lowercase e ≢ bytes "cmd")
  pub no_cmd_program :
      route.request_args.enabled ≡ true
      → (p n : Text) → route.program ≡ some p
      → file_name p ≡ some n
      → (ascii_lowercase n ≢ bytes "cmd") × (ascii_lowercase n ≢ bytes "cmd.exe")
  pub fixed_args : any (contains 0) route.fixed_args ≡ false

validate_route-tests :
    (route : RouteConfig)
    → validate_route route ≡ ok tt
    → (starts_with (bytes "/") route.path ≡ true)
      × (ends_with slash route.path ≡ false)
      × (contains b'?' route.path ≡ false)
      × (contains b'#' route.path ≡ false)
      × (has_parent_segment route.path ≡ false)
      × (is_reserved route.path ≡ false)
      × (0 < route.max_concurrency)
      × (0 < route.max_execution_seconds)
      × (0 < route.graceful_shutdown_seconds)
      × ((route.request_args.enabled && runs_batch route) ≡ false)
      × (any (contains 0) route.fixed_args ≡ false)
unfolding validate_route validate_args
validate_route-tests route e = (
  ground arith,
  ground arith,
  ground arith,
  ground arith,
  ground arith,
  ground arith,
  ground arith,
  ground arith,
  ground arith,
  ground arith,
  ground arith,
)

not_cmd : (route : RouteConfig) → runs_batch route ≡ false → route.executor ≢ cmd
unfolding runs_batch
not_cmd route h same = cc (rw same at h)

not_batch_script :
    (route : RouteConfig) (x : Text)
    → runs_batch route ≡ false
    → extension route.script ≡ some x
    → (ascii_lowercase x ≢ bytes "bat") × (ascii_lowercase x ≢ bytes "cmd")
unfolding runs_batch
not_batch_script route x h found =
    let h' = rw found at h in
    ground (
      arith,
      text_eq_iff (ascii_lowercase x) (bytes "bat"),
      text_eq_iff (ascii_lowercase x) (bytes "cmd"),
    )

not_cmd_program :
    (route : RouteConfig) (p n : Text)
    → runs_batch route ≡ false
    → route.program ≡ some p
    → file_name p ≡ some n
    → (ascii_lowercase n ≢ bytes "cmd") × (ascii_lowercase n ≢ bytes "cmd.exe")
unfolding runs_batch
not_cmd_program route p n h given found =
    let h' = rw (given, found) at h in
    ground (
      arith,
      text_eq_iff (ascii_lowercase n) (bytes "cmd"),
      text_eq_iff (ascii_lowercase n) (bytes "cmd.exe"),
    )

-- A route that is accepted has positive limits, arguments without NUL, and a path that starts with a slash, does not end with one, has no `?`, no `#` and no
-- segment `..`, and that no endpoint of the service has. If it takes arguments from requests, its
-- executor is not `cmd`, the extension of its script is not `bat` or `cmd` and the file name of its
-- program is not `cmd` or `cmd.exe`, in any case of letters.
pub validate_route-IsValidRoute :
    (route : RouteConfig) → validate_route route ≡ ok tt → IsValidRoute route
validate_route-IsValidRoute route e =
    let (rooted, last, query, fragment, up, free, jobs, time, grace, batch, nul) =
      validate_route-tests route e in
    let off : route.request_args.enabled ≡ true → runs_batch route ≡ false = λ on. ground arith in
    record {
      path = IsOwn-path route.path rooted free up;
      unreserved = free;
      no_query = query;
      no_fragment = fragment;
      no_slash_at_end = last;
      concurrency = jobs;
      execution_time = time;
      grace_period = grace;
      no_cmd = λ on same. not_cmd route (off on) same;
      no_batch_script = λ on x found. not_batch_script route x (off on) found;
      no_cmd_program = λ on p n given found. not_cmd_program route p n (off on) given found;
      fixed_args = nul;
    }
