-- ===== src/Tests/Worker.antt =====
-- src/process/mod.rs, the worker process, and src/main.rs at concrete inputs.
use command_api.Prelude.{
  ℕ, ◌*◌, remove, sym, arith, pos, negsuc, ◌≡◌, refl, Text, bytes, text_eq, trim, trim_start,
  trim_end, trim_end_matches, Bool, true, false, none, some, List, [], ◌∷◌, ok, err, if◌then◌else◌,
  lookup, insert,
}
use command_api.Model.{succeeded, failed}
use command_api.Process.Run.{ExitStatus, final_status}
use command_api.Process.Worker.{
  line, stop_requested, Poll, exited, killed, waiting, poll_loop, worker_force_after_parent_loss,
  worker_exit,
}
use command_api.Process.Worker.Ends.{IsOver, asked_worker_ends}
use command_api.Process.Worker.Codes.{ends_negative, worker_exit-final_status}
use command_api.Secret.{control_character, has_control, validate_token}
use command_api.Secret.Dpapi.{
  machine, CryptFlag, ui_forbidden, flags_of, blob, protect, unprotect, stored_token_recovered,
}
use command_api.Prelude.{
  List, Option, Text, none, true, ltb, length, ◌^◌, ◌<◌, Bool-cases, inl, inr, subst,
}
use command_api.Secret.Storage.{invalid_token, bad_utf8, protect_to_file, unprotect_from_file}
use command_api.Store.Events.{is_utf8}
use command_api.Cli.{piped, read_token}

-- A round in which the script still runs.
abbrev running : (stop : Bool) → (sent_at now : ℕ) → Poll
running stop sent_at now = record {
  stop = stop;
  signalled = true;
  sent_at = sent_at;
  waited = ok none;
  now = now;
}

abbrev second : ℕ
second = 1000000000

-- The flag is seen in the second round, at one second, and the grace of five seconds is over at six.
abbrev stubborn : List Poll
stubborn =
    running false 0 0
    ∷ running true second second
    ∷ running true (2 * second) (2 * second)
    ∷ running true (6 * second) (6 * second)
    ∷ []

looping : Unit {0}
unfolding poll_loop worker_force_after_parent_loss stop_requested trim trim_start trim_end
    trim_end_matches text_eq
looping = tt

stubborn_forced : poll_loop false 5 none stubborn ≡ killed
unfolding looping
stubborn_forced = refl

impatient_waits : poll_loop false 6 none stubborn ≡ waiting
unfolding looping
impatient_waits = refl

polite_exits :
    poll_loop false 5 none (
      running true 0 0
      ∷ record (running true 1 1) { waited = ok (some (record { code = some (pos 3) })) }
      ∷ [])
    ≡ exited (record { code = some (pos 3) })
unfolding looping
polite_exits = refl

terminate_asks : stop_requested (line (bytes " terminate\n") ∷ []) ≡ true
unfolding looping
terminate_asks = refl

other_line : stop_requested (line (bytes "stop\n") ∷ []) ≡ false
unfolding looping
other_line = refl

asked_worker_ends_example : IsOver false (poll_loop false 5 none stubborn)
asked_worker_ends_example =
    asked_worker_ends false 5 [] [] (line (bytes " terminate\n")) (running false 0 0 ∷ [])
      (running true second second)
      (running true (2 * second) (2 * second) ∷ running true (6 * second) (6 * second) ∷ [])
      terminate_asks (sym terminate_asks) (omega arith, tt) refl

abbrev crash : ExitStatus
crash = record { code = some (negsuc 1073741818) }

worker_exit-final_status_example :
    final_status none (worker_exit crash)
    ≡ (if ends_negative none crash.code then succeeded else final_status none crash)
worker_exit-final_status_example = worker_exit-final_status none crash

crash_succeeds : final_status none (worker_exit crash) ≡ succeeded
unfolding worker_exit final_status
crash_succeeds = refl

crash_fails : final_status none crash ≡ failed
unfolding final_status
crash_fails = refl

-- A token with a line feed, as `printf '...\n...' | command-api secret protect --stdin` stores it.
abbrev two_lines : Text
two_lines = bytes "0123456789abcdef\n0123456789abcdef"

storing : Unit {0}
unfolding protect_to_file unprotect_from_file validate_token is_utf8 lookup insert remove text_eq
    read_token trim_end_matches protect unprotect flags_of blob
storing = tt

-- A stand-in for DPAPI, which hides nothing.
abbrev crypt_data : List CryptFlag → Text → Option Text
crypt_data flags t = if ltb (length t) (2 ^ 32) then some t else none

crypt_data-sealed :
    (flags : List CryptFlag) (t p : Text)
    → crypt_data flags t ≡ some p
    → (crypt_data (ui_forbidden ∷ []) p ≡ some t) × (length p < 2 ^ 32)
crypt_data-sealed flags t p h = elim (Bool-cases (ltb (length t) (2 ^ 32))) [
  | inl small ↦
      let same : some t ≡ some p = rw small at h in
      subst
        (λ o. elim o as (λ x. Type 0) [
          | none ↦ Unit {0}
          | some q ↦ (crypt_data (ui_forbidden ∷ []) q ≡ some t) × (length q < 2 ^ 32)
        ])
        same (rw small refl, ground (arith, small))
  | inr large ↦ cc (rw large at h)
]

two_lines_stored :
    protect_to_file
      (protect true crypt_data machine)
      (unprotect true crypt_data)
      two_lines
      (bytes "/t")
      true
      true
      []
    ≡ ok ((bytes "/t", two_lines) ∷ [])
unfolding storing
two_lines_stored = refl

stored_token_recovered_example :
    (true ≡ true)
    × (unprotect_from_file
          (protect true crypt_data machine)
          (unprotect true crypt_data)
          (bytes "/t")
          ((bytes "/t", two_lines) ∷ [])
        ≡ (if is_utf8 two_lines
            then (if has_control two_lines
                then err (invalid_token control_character)
                else ok two_lines)
            else err bad_utf8))
stored_token_recovered_example =
    stored_token_recovered crypt_data crypt_data crypt_data-sealed true machine two_lines
      (bytes "/t") true true [] ((bytes "/t", two_lines) ∷ []) two_lines_stored

two_lines_refused :
    unprotect_from_file (λ t. some t) (λ t. some t) (bytes "/t") ((bytes "/t", two_lines) ∷ [])
    ≡ err (invalid_token control_character)
unfolding storing
two_lines_refused = refl

line_break_trimmed : read_token (piped (bytes "token\r\n")) ≡ ok (bytes "token")
unfolding storing
line_break_trimmed = refl
