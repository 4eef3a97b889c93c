-- ===== src/Tests/Http.antt =====
-- src/app.rs, a request from its arrival to its answer, at concrete inputs.
use command_api.Prelude.{
  false, ◌≡◌, refl, Text, bytes, text_eq, text_eq_iff, starts_with, Bool, true, false, List, arith,
  ◌≤◌, ◌+◌, if◌then◌else◌, some, none, [], ◌∷◌, ◌++◌, Bool-cases, inl, inr, lookup, insert, remove,
}
use command_api.Config.{v4}
use command_api.Config.Addresses.{normalize_ip}
use command_api.Config.Arguments.{validate_request_args, check_args}
use command_api.Store.{whole, put, create, new_record, persist, snapshot}
use command_api.Secret.{sha256, verify, is_plausible}
use command_api.App.Auth.{Request, authenticate, from_ip, cooldown_remaining}
use command_api.App.Auth.Laws.{IsAuthorized, authenticate-passes_iff}
use command_api.App.Execute.{admit, create_task, execute}
use command_api.App.Router.{get as by_get, post, router, dispatch, is_literal}
use command_api.App.Http.{
  HttpRequest, accepted, accepted_task, Service, Moment, Setup, handle, respond, serve, serve_all,
}
use command_api.App.Http.Laws.{IsServed, serve-IsServed}
use command_api.App.Http.Sound.{IsSound}
use command_api.App.Http.Trace.{acceptances, serve_all-acceptances}
use command_api.App.Handlers.{request_management_action, get_task}
use command_api.Store.Output.{view, view_record}
use command_api.App.Http.Links.{IsFirstView, serve-status_url}
use command_api.Tests.App.{same, accepts_token, token, access}
use command_api.Tests.Execute.{to_vec, free, left}
use command_api.Tests.Samples.{parse_time, no_decoding, no_base64}

abbrev status_pattern : Text
status_pattern = bytes "/tasks/{task_id}"

abbrev pub by_text : (pattern_text path : Text) → Bool
by_text pattern_text path =
    if text_eq pattern_text status_pattern
    then starts_with (bytes "/tasks/") path
    else text_eq pattern_text path

pub by_text-literal : (p x : Text) → is_literal p ≡ true → by_text p x ≡ text_eq p x
unfolding text_eq
by_text-literal p x h = elim (Bool-cases (text_eq p status_pattern)) [
  | inl e ↦ let there = (text_eq_iff p status_pattern).0 e in cc (rw there at h)
  | inr e ↦ rw e refl
]

abbrev pub setup : Setup
setup = record {
  matches = by_text;
  digest = same;
  phc_accepts = accepts_token;
  access = access;
  logging_directory = bytes "/logs";
  to_vec = to_vec;
  parse = parse_time;
  show_id = λ id. id ∷ [];
  decode = no_decoding;
  base64 = no_base64;
}

abbrev pub service : Service
service = record {
  gate = record { token = sha256 token; auth_failures = [] };
  app = free;
  lifecycle_state = 0;
  actions = [];
}

abbrev pub after : Service
after = record service { app = left }

abbrev asked : Request
asked = record { peer = some (v4 1); authorization = some (bytes "Bearer " ++ token) }

abbrev pub run_request : HttpRequest
run_request = record {
  auth = asked;
  method = post;
  path = bytes "/run";
  task_id = none;
  query = none;
  body = some (record { args = [] });
  exceeds = λ limit. false;
}

abbrev pub status_request : HttpRequest
status_request = record {
  auth = asked;
  method = by_get;
  path = bytes "/tasks/" ++ 7 ∷ [];
  task_id = some 7;
  query = none;
  body = none;
  exceeds = λ limit. false;
}

abbrev pub moment : Moment
moment = record {
  now = 20;
  later = 21;
  wall_clock = 30;
  id = 7;
  now_text = bytes "1";
  made = true;
  write = whole;
  sent = true;
  loaded = none;
}

serving : Unit {0}
unfolding serve respond handle dispatch router authenticate from_ip cooldown_remaining verify
    normalize_ip admit create_task execute validate_request_args check_args lookup insert remove
    create new_record persist put snapshot text_eq accepted_task is_plausible
serving = tt

pub run_served : serve setup service run_request moment ≡ (accepted (accepted_task setup 7), after)
unfolding serving
run_served = refl

serve-IsServed_example :
    IsServed setup run_request moment service (serve setup service run_request moment)
serve-IsServed_example = serve-IsServed setup run_request moment service

pub status-IsAuthorized : IsAuthorized same accepts_token access 20 21 service.gate asked
unfolding serving
status-IsAuthorized =
    (authenticate-passes_iff same accepts_token access 20 21 service.gate asked).0 refl

task_url : (accepted_task setup 7).status_url ≡ bytes "/tasks/" ++ 7 ∷ []
unfolding accepted_task
task_url = refl

serve-status_url_example :
    IsFirstView setup (accepted_task setup 7) (serve setup after status_request moment).0
unfolding accepted_task text_eq
serve-status_url_example =
    serve-status_url setup by_text-literal (λ id. refl) service after run_request status_request
      moment moment (accepted_task setup 7) run_served status-IsAuthorized refl refl refl refl

service-IsSound : IsSound setup service
service-IsSound = record {
  keyed = tt;
  one_action = omega arith;
  free = λ h. refl;
  bounded = omega arith;
}

abbrev stop_request : HttpRequest
stop_request = record run_request { path = bytes "/system/stop"; body = none }

abbrev requests : List (HttpRequest × Moment)
requests =
    (run_request, moment)
    ∷ (stop_request, moment)
    ∷ (stop_request, moment)
    ∷ (status_request, moment)
    ∷ []

one_stop : acceptances (serve_all setup requests service).0 ≡ 1
unfolding serving serve_all acceptances request_management_action get_task view view_record
one_stop = refl

serve_all-acceptances_example :
    IsSound setup (serve_all setup requests service).1
    × (acceptances (serve_all setup requests service).0 + 0 ≤ 1)
serve_all-acceptances_example =
    serve_all-acceptances setup requests service (omega arith) service-IsSound
