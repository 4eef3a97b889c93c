-- ===== src/App/Router/Laws.antt =====
-- src/app.rs, the router of `build`: requests for the configured routes.
use command_api.Prelude.{
  Text, bytes, text_eq, text_eq_iff, text_keys, starts_with, Bool, true, false, ◌≡◌, refl, ap, ◌∙◌,
  some, List, [], ◌∷◌, map, All, lookup, Bool-cases, inl, inr, arith,
}
use command_api.Config.Routes.{is_reserved}
use command_api.App.Execute.{RouteRuntime}
use command_api.App.Router.{
  post, execute, execute_entry, router, found, dispatch, is_literal, literal_prefix,
}

-- What a path that is not reserved is not.
record IsFree (path : Text) : Type 0 where
  pub root : text_eq (bytes "/") path ≡ false
  pub healthz : text_eq (bytes "/healthz") path ≡ false
  pub tasks : starts_with (bytes "/tasks/") path ≡ false
  pub stop : text_eq (bytes "/system/stop") path ≡ false
  pub restart : text_eq (bytes "/system/restart") path ≡ false

text_eq_comm : (s t : Text) → text_eq s t ≡ false → text_eq t s ≡ false
text_eq_comm s t h = ground (arith, text_eq_iff s t, text_eq_iff t s)

not_below :
    (prefix s t : Text)
    → starts_with prefix t ≡ false
    → starts_with prefix s ≡ true
    → text_eq s t ≡ false
not_below prefix s t h e = elim (Bool-cases (text_eq s t)) [
  | inl same ↦ cc ((text_eq_iff s t).0 same)
  | inr other ↦ other
]

is_reserved-IsFree : (path : Text) → is_reserved path ≡ false → IsFree path
unfolding is_reserved
is_reserved-IsFree path h = record {
  root = text_eq_comm path (bytes "/") (ground arith);
  healthz = text_eq_comm path (bytes "/healthz") (ground arith);
  tasks = ground arith;
  stop = not_below (bytes "/system/") (bytes "/system/stop") path (ground arith) refl;
  restart = not_below (bytes "/system/") (bytes "/system/restart") path (ground arith) refl;
}

module _ (matches : (pattern_text path : Text) → Bool)
    (literal : (p x : Text) → is_literal p ≡ true → matches p x ≡ text_eq p x)
    (prefix : (p x : Text) → matches p x ≡ true → starts_with (literal_prefix p) x ≡ true) where
  dispatch_routes :
      (routes : List (Text × RouteRuntime)) (path : Text) (route : RouteRuntime)
      → All (λ r. is_literal r.0 ≡ true) routes
      → lookup path routes ≡ some route
      → dispatch matches (map execute_entry routes) post path ≡ found (execute path)
  unfolding dispatch lookup
  dispatch_routes [] path route l h = cc
  dispatch_routes ((key, r) ∷ rest) path route (here, l) h = elim (Bool-cases (text_eq key path)) [
    | inl same ↦
        rw (literal key path here, same)
          (ap (λ p. found (execute p)) ((text_eq_iff key path).0 same))
    | inr other ↦
        rw (literal key path here, other) (dispatch_routes rest path route l (rw other at h))
  ]

  not_literal_match : (p x : Text) → is_literal p ≡ true → text_eq p x ≡ false → matches p x ≡ false
  not_literal_match p x l h = literal p x l ∙ h

  not_prefix_match : (p x : Text) → starts_with (literal_prefix p) x ≡ false → matches p x ≡ false
  not_prefix_match p x h = elim (Bool-cases (matches p x)) [
    | inl hit ↦ cc (prefix p x hit)
    | inr miss ↦ miss
  ]

  pub dispatch-router :
      (routes : List (Text × RouteRuntime)) (path : Text) (route : RouteRuntime)
      → All (λ r. is_literal r.0 ≡ true) routes
      → is_reserved path ≡ false
      → lookup path routes ≡ some route
      → dispatch matches (router routes) post path ≡ found (execute path)
  unfolding router dispatch literal_prefix text_eq
  dispatch-router routes path route l free h =
      let is = is_reserved-IsFree path free in
      rw
        (
          not_literal_match (bytes "/") path refl is.root,
          not_literal_match (bytes "/healthz") path refl is.healthz,
          not_prefix_match (bytes "/tasks/{task_id}") path is.tasks,
          not_prefix_match (bytes "/tasks/{task_id}/output") path is.tasks,
          not_prefix_match (bytes "/tasks/{task_id}/cancel") path is.tasks,
          not_prefix_match (bytes "/tasks/{task_id}/kill") path is.tasks,
          not_literal_match (bytes "/system/stop") path refl is.stop,
          not_literal_match (bytes "/system/restart") path refl is.restart,
        )
        (dispatch_routes routes path route l h)
