-- ===== src/Secret/Dpapi.antt =====
-- src/secret.rs, the module `dpapi`: Windows protects the bytes of a token. The calls of Windows are
-- arguments; a blob has the length of its bytes as a `u32`.
use command_api.Prelude.{
  ◌%◌, ◌^◌, ◌<◌, ◌≡◌, refl, ap, ◌∙◌, Text, Bool, true, false, Option, none, some, List, [], ◌∷◌,
  length, take, take-all, ok, err, if◌then◌else◌, arith,
}
use command_api.Secret.{control_character, has_control}
use command_api.Secret.Storage.{
  bad_utf8, invalid_token, protect_to_file, unprotect_from_file,
  unprotect_from_file-protect_to_file, protect_to_file-short,
}
use command_api.Store.Events.{is_utf8}

pub data DpapiScope : Type 0 where
  user machine : DpapiScope

-- `CRYPTPROTECT_UI_FORBIDDEN` and `CRYPTPROTECT_LOCAL_MACHINE`
pub data CryptFlag : Type 0 where
  ui_forbidden local_machine : CryptFlag

unfoldable pub flags_of : DpapiScope → List CryptFlag
flags_of user = ui_forbidden ∷ []
flags_of machine = ui_forbidden ∷ local_machine ∷ []

-- What Windows sees of some bytes.
unfoldable pub blob : Text → Text
blob t = take (length t % 2 ^ 32) t

unfoldable pub protect :
    (windows : Bool)
    → (crypt_protect_data : List CryptFlag → Text → Option Text) → DpapiScope
    → (plaintext : Text) → Option Text
unfolding flags_of blob
protect false crypt_protect_data scope plaintext = none
protect true crypt_protect_data scope plaintext =
    crypt_protect_data (flags_of scope) (blob plaintext)

unfoldable pub unprotect :
    (windows : Bool)
    → (crypt_unprotect_data : List CryptFlag → Text → Option Text) → (protected : Text)
    → Option Text
unfolding blob
unprotect false crypt_unprotect_data protected = none
unprotect true crypt_unprotect_data protected =
    crypt_unprotect_data (ui_forbidden ∷ []) (blob protected)

blob-short : (t : Text) → length t < 2 ^ 32 → blob t ≡ t
unfolding blob
blob-short t h =
    let whole : length t % 2 ^ 32 ≡ length t = omega (arith, h) in
    rw whole (take-all (length t) t (omega arith))

module _ (crypt_protect_data crypt_unprotect_data : List CryptFlag → Text → Option Text)
    (sealed : (flags : List CryptFlag) (t p : Text)
      → crypt_protect_data flags t ≡ some p
      → (crypt_unprotect_data (ui_forbidden ∷ []) p ≡ some t) × (length p < 2 ^ 32)) where
  unprotect-protect :
      (windows : Bool) (scope : DpapiScope) (plaintext p : Text)
      → length plaintext < 2 ^ 32
      → protect windows crypt_protect_data scope plaintext ≡ some p
      → unprotect windows crypt_unprotect_data p ≡ some plaintext
  unfolding protect unprotect
  unprotect-protect false scope plaintext p short h = cc
  unprotect-protect true scope plaintext p short h =
      let (opens, small) = sealed (flags_of scope) (blob plaintext) p h in
      ap (crypt_unprotect_data (ui_forbidden ∷ [])) (blob-short p small)
      ∙ opens
      ∙ ap some (blob-short plaintext short)

  -- A token is stored only on Windows. It is read back if it is UTF-8 and holds no line break and no
  -- NUL, whatever the scope; with one of these it is stored all the same, and then refused whenever
  -- it is read. Windows opens what it sealed, and seals to fewer than 2^32 bytes.
  pub stored_token_recovered :
      (windows : Bool) (scope : DpapiScope) (plaintext output : Text) (made written : Bool)
      (files left : List (Text × Text))
      → protect_to_file
          (protect windows crypt_protect_data scope)
          (unprotect windows crypt_unprotect_data)
          plaintext
          output
          made
          written
          files
        ≡ ok left
      → (windows ≡ true)
        × (unprotect_from_file
              (protect windows crypt_protect_data scope)
              (unprotect windows crypt_unprotect_data)
              output
              left
            ≡ (if is_utf8 plaintext
                then (if has_control plaintext
                    then err (invalid_token control_character)
                    else ok plaintext)
                else err bad_utf8))
  unfolding protect
  stored_token_recovered windows scope plaintext output made written files left e =
      let (short, p, found) =
        protect_to_file-short (protect windows crypt_protect_data scope)
          (unprotect windows crypt_unprotect_data) plaintext output made written files left e in
      (
        on_windows windows found,
        unprotect_from_file-protect_to_file (protect windows crypt_protect_data scope)
            (unprotect windows crypt_unprotect_data) plaintext output made written files left
            (λ q h. unprotect-protect windows scope plaintext q (omega (arith, short)) h) e,
      )
    where
      on_windows :
          (w : Bool) {q : Text} → protect w crypt_protect_data scope plaintext ≡ some q → w ≡ true
      on_windows true h = refl
      on_windows false h = cc
