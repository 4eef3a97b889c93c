-- ===== src/App/Execute/Acquire.antt =====
-- src/app.rs, `execute`: what its parts take of the permits, and give back.
use command_api.Prelude.{
  ℕ, zero, suc, ◌+◌, ◌%◌, ◌^◌, Text, text_eq, text_eq_iff, text_keys, true, false, Bool-cases, ◌≡◌,
  refl, inl, inr, none, some, Option-cases, List, [], ◌∷◌, ok, >>=-eq-ok, ok_or, ok_or-eq-ok,
  map_err, lookup, insert, lookup-insert, arith,
}
use command_api.Config.{ResolvedRoute}
use command_api.Config.Arguments.{validate_request_args}
use command_api.Model.{TaskSnapshot}
use command_api.Store.{TaskRecord, Write, whole, torn, create, persist, put}
use command_api.App.Execute.{
  RouteRuntime, AppState, collect_routes, admit, give_back, create_task, try_acquire, not_found,
  invalid_arguments, global_concurrency_limit, route_concurrency_limit,
}

-- The part of `IsBalanced` on the routes, for the permits `h` that are held of each.
abbrev pub IsEach : List (Text × RouteRuntime) → (Text → ℕ) → Type 0
IsEach routes h =
    (path : Text) (route : RouteRuntime)
    → lookup path routes ≡ some route
    → route.limit + h path ≡ route.config.max_concurrency

pub insert-IsEach :
    (routes : List (Text × RouteRuntime)) (h h' : Text → ℕ) (p : Text) (new : RouteRuntime)
    → IsEach routes h
    → new.limit + h' p ≡ new.config.max_concurrency
    → ((q : Text) → text_eq p q ≡ false → h' q ≡ h q)
    → IsEach (insert p new routes) h'
insert-IsEach routes h h' p new each here away q route e = elim (Bool-cases (text_eq p q)) [
  | inl t ↦
      let same : p ≡ q = (text_eq_iff p q).0 t in
      let found : some new ≡ some route = rw (lookup-insert p q new routes, t) at e in
      cc (here, found, same)
  | inr f ↦
      let found : lookup q routes ≡ some route = rw (lookup-insert p q new routes, f) at e in
      omega (arith, each q route found, away q f)
]

-- A record of the right limit is put in for a route that has just been read.
pub give_route-IsEach :
    (h h' : Text → ℕ) (p : Text) (s : AppState)
    → IsEach s.routes h
    → h p ≡ h' p + 1
    → ((q : Text) → text_eq p q ≡ false → h' q ≡ h q)
    → IsEach (give_back p s).routes h'
unfolding give_back
give_route-IsEach h h' p s each less away = elim (Option-cases (lookup p s.routes)) [
  | inl e ↦ rw e (missing e)
  | inr (route, e) ↦ rw e (
      insert-IsEach s.routes h h' p (record { config = route.config; limit = route.limit + 1 }) each
        (omega (arith, each p route e)) away)
]
  where
    missing : lookup p s.routes ≡ none → IsEach s.routes h'
    missing e q route f = elim (Bool-cases (text_eq p q)) [
      | inl t ↦ let same = (text_eq_iff p q).0 t in cc
      | inr other ↦ omega (arith, each q route f, away q other)
    ]

-- What an admitted request has taken.
pub record Admitted (s a : AppState) (path : Text) : Type 0 where
  pub route : RouteRuntime
  pub global : ℕ
  pub limit : ℕ
  pub found : lookup path s.routes ≡ some route
  pub free : s.global_limit ≡ suc global
  pub route_free : route.limit ≡ suc limit
  pub same : a ≡ record s {
    global_limit = global;
    routes = insert path (record { config = route.config; limit = limit }) s.routes;
  }

try_acquire-some : (n : ℕ) {m : ℕ} → try_acquire n ≡ some m → n ≡ suc m
try_acquire-some zero e = cc
try_acquire-some (suc n) e = cc

pub admit-Admitted :
    (s a : AppState) (path : Text) (args : List Text) → admit s path args ≡ ok a → Admitted s a path
unfolding admit
admit-Admitted s a path args e =
    let (route, e1, r1) = >>=-eq-ok (ok_or (lookup path s.routes) not_found) _ e in
    let (u, e2, r2) =
      >>=-eq-ok (map_err (λ x. invalid_arguments) (validate_request_args route.config args)) _ r1 in
    let (global, e3, r3) =
      >>=-eq-ok (ok_or (try_acquire s.global_limit) global_concurrency_limit) _ r2 in
    let (limit, e4, r4) =
      >>=-eq-ok (ok_or (try_acquire route.limit) route_concurrency_limit) _ r3 in
    record {
      route = route;
      global = global;
      limit = limit;
      found = ok_or-eq-ok (lookup path s.routes) not_found e1;
      free =
          try_acquire-some s.global_limit
            (ok_or-eq-ok (try_acquire s.global_limit) global_concurrency_limit e3);
      route_free =
          try_acquire-some route.limit
            (ok_or-eq-ok (try_acquire route.limit) route_concurrency_limit e4);
      same = cc;
    }

pub collect_routes-IsEach :
    (routes : List ResolvedRoute) (table : List (Text × RouteRuntime))
    → IsEach table (λ q. 0)
    → IsEach (collect_routes table routes) (λ q. 0)
unfolding collect_routes
collect_routes-IsEach [] table h = h
collect_routes-IsEach (route ∷ rest) table h =
    collect_routes-IsEach rest _
      (insert-IsEach table (λ q. 0) (λ q. 0) route.path _ h (omega arith) (λ q f. refl))

-- A task that could be created has counted up.
pub create_task-active :
    (to_vec : TaskSnapshot → Text) (app left : AppState) (path : Text) (id : ℕ) (now : Text)
    (w : Write) (r : TaskRecord)
    → create_task to_vec app path id now true w ≡ ok (r, left)
    → (left.global_limit ≡ app.global_limit)
      × (left.routes ≡ app.routes)
      × (left.store.active_count ≡ (app.store.active_count + 1) % 2 ^ 64)
unfolding create_task create persist put
create_task-active to_vec app left path id now whole r e =
    elim (Option-cases (lookup path app.routes)) [
      | inl n ↦ cc (rw n at e)
      | inr (route, f) ↦ let g = rw f at e in (cc, cc, cc)
    ]
create_task-active to_vec app left path id now (torn k) r e =
    elim (Option-cases (lookup path app.routes)) [
      | inl n ↦ cc (rw n at e)
      | inr (route, f) ↦ cc (rw f at e)
    ]

pub give_back-same :
    (p : Text) (s : AppState)
    → ((give_back p s).global_limit ≡ s.global_limit + 1) × ((give_back p s).store ≡ s.store)
unfolding give_back
give_back-same p s = elim (Option-cases (lookup p s.routes)) [
  | inl e ↦ rw e (refl, refl)
  | inr (route, e) ↦ rw e (refl, refl)
]
