-- ===== src/Cli.antt =====
-- src/main.rs: the command line, after `clap` has parsed it.
pub mod Commands
use command_api.Prelude.{
  ℕ, ℤ, ◌≡◌, refl, ap, ◌∙◌, Text, bytes, text_eq, trim_end_matches, cons_end, Bool, true, false,
  ◌||◌, Bool-cases, inl, inr, Option, none, some, List, [], ◌∷◌, ◌++◌, All, Result, ok, err, ◌>>=◌,
  map_err, if◌then◌else◌, ◌==◌,
}
use command_api.Secret.{SecretError, generate_pbkdf2_sha256}
use command_api.Secret.Storage.{StorageError, protect_to_file, generate_and_protect}
use command_api.Process.Worker.{exit_byte}

-- Whether the process is a worker.
unfoldable pub is_worker : (first_argument : Option Text) → Bool
unfolding text_eq
is_worker none = false
is_worker (some argument) = text_eq argument (bytes "__worker")

-- The exit code of the process, with what `worker_main` returns and whether `run` succeeds.
unfoldable pub main_code : (first_argument : Option Text) → (worker : ℤ) → (ran : Bool) → ℕ
unfolding is_worker exit_byte
main_code first_argument worker ran =
    if is_worker first_argument then exit_byte worker else if ran then 0 else 1

-- Where a token comes from: standard input to its end, or two hidden prompts.
pub data TokenInput : Type 0 where
  piped : Text → TokenInput
  prompted : (first second : Text) → TokenInput

pub data CliError : Type 0 where
  not_the_same : CliError
  secret : SecretError → CliError
  storage : StorageError → CliError

abbrev pub is_newline : ℕ → Bool
is_newline c = c == 13 || c == 10

unfoldable pub read_token : TokenInput → Result CliError Text
unfolding trim_end_matches text_eq
read_token (piped value) = ok (trim_end_matches is_newline value)
read_token (prompted first second) = if text_eq first second then ok first else err not_the_same

-- `secret generate`: the token that is printed, and the files. The token is two UUIDs.
unfoldable pub secret_generate :
    (protect unprotect : Text → Option Text)
    → (first second output : Text) → (made written : Bool) → List (Text × Text)
    → Result CliError (Text × List (Text × Text))
unfolding generate_and_protect
secret_generate protect unprotect first second output made written files =
    map_err storage (generate_and_protect protect unprotect first second output made written files)

-- `secret protect`
unfoldable pub secret_protect :
    (protect unprotect : Text → Option Text)
    → TokenInput
    → (output : Text) → (made written : Bool) → List (Text × Text)
    → Result CliError (List (Text × Text))
unfolding read_token protect_to_file
secret_protect protect unprotect input output made written files = do
  token ← read_token input
  map_err storage (protect_to_file protect unprotect token output made written files)

-- `secret hash`: the hash that is printed.
unfoldable pub secret_hash :
    (min_rounds : ℕ)
    → (hash_password : (rounds : ℕ) → Text → Option Text) → TokenInput
    → (rounds : ℕ) → Result CliError Text
unfolding read_token generate_pbkdf2_sha256
secret_hash min_rounds hash_password input rounds = do
  token ← read_token input
  map_err secret (generate_pbkdf2_sha256 min_rounds hash_password token rounds)

-- The last character is kept.
abbrev pub IsTrimmed : (ℕ → Bool) → Text → Type 0
IsTrimmed drop [] = Unit {0}
IsTrimmed drop (c ∷ []) = drop c ≡ false
IsTrimmed drop (c ∷ d ∷ s) = IsTrimmed drop (d ∷ s)

cons_end_lem :
    (drop : ℕ → Bool) (c : ℕ) (t rest : Text)
    → IsTrimmed drop t
    → All (λ d. drop d ≡ true) rest
    → (more : Text) × (c ∷ (t ++ rest) ≡ cons_end drop c t ++ more)
      × IsTrimmed drop (cons_end drop c t)
      × All (λ d. drop d ≡ true) more
cons_end_lem drop c [] rest h a = elim (Bool-cases (drop c)) [
  | inl gone ↦ rw gone (c ∷ rest, refl, tt, (gone, a))
  | inr kept ↦ rw kept (rest, refl, kept, a)
]
cons_end_lem drop c (d ∷ t) rest h a = (rest, refl, h, a)

trim_end_matches_lem :
    (drop : ℕ → Bool) (s : Text)
    → (rest : Text) × (s ≡ trim_end_matches drop s ++ rest)
      × IsTrimmed drop (trim_end_matches drop s)
      × All (λ d. drop d ≡ true) rest
unfolding trim_end_matches
trim_end_matches_lem drop [] = ([], refl, tt, tt)
trim_end_matches_lem drop (c ∷ s) =
    let (rest, e, h, a) = trim_end_matches_lem drop s in
    let (more, f, k, b) = cons_end_lem drop c (trim_end_matches drop s) rest h a in
    (more, ap (◌∷◌ c) e ∙ f, k, b)

-- A token from standard input is the input without the line breaks at its end: what is cut off are
-- line feeds and carriage returns only, and the token does not end with one.
pub read_token_piped :
    (value : Text)
    → (token : Text) × (rest : Text) × (read_token (piped value) ≡ ok token)
      × (value ≡ token ++ rest)
      × IsTrimmed is_newline token
      × All (λ c. is_newline c ≡ true) rest
unfolding read_token
read_token_piped value =
    let (rest, e, h, a) = trim_end_matches_lem is_newline value in
    (trim_end_matches is_newline value, rest, refl, e, h, a)
