-- ===== src/Secret/Storage.antt =====
-- src/secret.rs, `protect_to_file`, `unprotect_from_file` and `generate_and_protect`: tokens in files
-- that Windows DPAPI protects. A directory of files is an association list by path.
use command_api.Prelude.{
  ◌≡◌, refl, sym, ap, ◌∙◌, ◌≤◌, false, Text, text_keys, text_eq_iff, Bool, Option, some, List, ◌++◌,
  Result, ok, err, ◌>>=◌, ◌>>◌, >>=-eq-ok, bail_if, bail_if-eq-ok, ok_or, ok_or-eq-ok, map_err, not,
  ltb, length, lookup, insert, lookup-insert, if◌then◌else◌, arith,
}
use command_api.Secret.{SecretError, control_character, has_control, validate_token}
use command_api.Store.Events.{is_utf8}

pub data StorageError : Type 0 where
  short long not_protected no_directory not_written no_file not_unprotected bad_utf8 : StorageError
  invalid_token : SecretError → StorageError

module _ (protect unprotect : Text → Option Text) where
  -- `made` and `written` say whether the directory could be made and the file written.
  unfoldable pub protect_to_file :
      (plaintext output : Text)
      → (made written : Bool) → List (Text × Text)
      → Result StorageError (List (Text × Text))
  protect_to_file plaintext output made written files = do
    bail_if (ltb (length plaintext) 32) short
    bail_if (ltb 4096 (length plaintext)) long
    protected ← ok_or (protect plaintext) not_protected
    bail_if (not made) no_directory
    bail_if (not written) not_written
    ok (insert output protected files)

  -- Two UUIDs, printed as 32 hexadecimal digits each.
  unfoldable pub generate_and_protect :
      (first second output : Text)
      → (made written : Bool) → List (Text × Text)
      → Result StorageError (Text × List (Text × Text))
  unfolding protect_to_file
  generate_and_protect first second output made written files = do
    left ← protect_to_file (first ++ second) output made written files
    ok (first ++ second, left)

  unfoldable pub unprotect_from_file : (path : Text) → List (Text × Text) → Result StorageError Text
  unprotect_from_file path files = do
    protected ← ok_or (lookup path files) no_file
    plaintext ← ok_or (unprotect protected) not_unprotected
    bail_if (not (is_utf8 plaintext)) bad_utf8
    map_err invalid_token (validate_token plaintext)
    ok plaintext

  -- What a token that was stored was.
  pub protect_to_file-short :
      (plaintext output : Text) (made written : Bool) (files left : List (Text × Text))
      → protect_to_file plaintext output made written files ≡ ok left
      → (length plaintext ≤ 4096) × (p : Text) × (protect plaintext ≡ some p)
  unfolding protect_to_file
  protect_to_file-short plaintext output made written files left e =
      let (u, a, e1) = >>=-eq-ok (bail_if (ltb (length plaintext) 32) short) _ e in
      let (u, b, e2) = >>=-eq-ok (bail_if (ltb 4096 (length plaintext)) long) _ e1 in
      let (p, c, e3) = >>=-eq-ok (ok_or (protect plaintext) not_protected) _ e2 in
      let fits : ltb 4096 (length plaintext) ≡ false = bail_if-eq-ok _ _ b in
      (ground arith, p, ok_or-eq-ok (protect plaintext) not_protected c)

  -- A token that was stored is read back if it is UTF-8 and holds no line break and no NUL; with one
  -- of these it is stored all the same, and then refused whenever it is read, where unprotecting
  -- gives back what was protected.
  pub unprotect_from_file-protect_to_file :
      (plaintext output : Text) (made written : Bool) (files left : List (Text × Text))
      → ((p : Text) → protect plaintext ≡ some p → unprotect p ≡ some plaintext)
      → protect_to_file plaintext output made written files ≡ ok left
      → unprotect_from_file output left ≡ (
          if is_utf8 plaintext
          then (if has_control plaintext
              then err (invalid_token control_character)
              else ok plaintext)
          else err bad_utf8)
  unfolding protect_to_file unprotect_from_file validate_token
  unprotect_from_file-protect_to_file plaintext output made written files left inverse e =
      let (u, a, e1) = >>=-eq-ok (bail_if (ltb (length plaintext) 32) short) _ e in
      let (u, b, e2) = >>=-eq-ok (bail_if (ltb 4096 (length plaintext)) long) _ e1 in
      let (p, c, e3) = >>=-eq-ok (ok_or (protect plaintext) not_protected) _ e2 in
      let (u, d, e4) = >>=-eq-ok (bail_if (not made) no_directory) _ e3 in
      let (u, f, e5) = >>=-eq-ok (bail_if (not written) not_written) _ e4 in
      let same : insert output p files ≡ left = cc in
      let found : lookup output left ≡ some p =
        ap (lookup output) (sym same)
        ∙ lookup-insert output output p files
        ∙ rw ((text_eq_iff output output).1 refl) in
      rw
        (
          found,
          inverse p (ok_or-eq-ok (protect plaintext) not_protected c),
          bail_if-eq-ok _ _ a,
          bail_if-eq-ok _ _ b,
        )
        (ground arith)
