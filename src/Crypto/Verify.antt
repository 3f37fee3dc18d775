-- ===== src/Crypto/Verify.antt =====
-- A hash is verified with its password: server/internal/crypto/password.go.
use Prim.Native.String.append
use Prim.Native.String.{◌++◌ as ◌<>◌}
use familycards.Prelude.{String, ◌≡◌, refl, ap, ◌∙◌, true, some, [], ◌∷◌, arith}
use familycards.Http.{Bytes}
use familycards.Crypto.{
  PasswordParams, default_password_params, no_dollar, params_text, Argon, bytes_beq, hash_with_salt,
  hash_password, verify_parts, verify_password,
}

no_dollar-append :
    (s t : String) → no_dollar s ≡ true → no_dollar t ≡ true → no_dollar (s <> t) ≡ true
unfolding no_dollar
no_dollar-append String.[] t h k = rw (append.nil t) k
no_dollar-append (String.◌∷◌ c s) t h k =
    ap no_dollar (append.cons c s t) ∙ ground (arith, h, no_dollar-append s t, k)

bytes_beq_refl : (b : Bytes) → bytes_beq b b ≡ true
unfolding bytes_beq
bytes_beq_refl [] = refl
bytes_beq_refl (x ∷ xs) = ground (arith, bytes_beq_refl xs)

no_dollar_m : no_dollar "m=" ≡ true
unfolding no_dollar
no_dollar_m = refl

no_dollar_t : no_dollar ",t=" ≡ true
unfolding no_dollar
no_dollar_t = refl

no_dollar_p : no_dollar ",p=" ≡ true
unfolding no_dollar
no_dollar_p = refl

no_dollar_name : no_dollar "argon2id" ≡ true
unfolding no_dollar
no_dollar_name = refl

no_dollar_version : no_dollar "v=19" ≡ true
unfolding no_dollar
no_dollar_version = refl

no_dollar_nothing : no_dollar "" ≡ true
unfolding no_dollar
no_dollar_nothing = refl

module _ (argon : Argon) where
  open argon use {
    id_key, id_key_length, encode, decode, decode-encode, encode_plain, decimal, decimal_plain,
    split, split_plain, split_first, scan_params, scan_default,
  }

  params_text-plain : (p : PasswordParams) → no_dollar (params_text decimal p) ≡ true
  params_text-plain p = no_dollar-append "m=" _ no_dollar_m (
      no_dollar-append (decimal p.memory) _ (decimal_plain p.memory) (
        no_dollar-append ",t=" _ no_dollar_t (
          no_dollar-append (decimal p.time) _ (decimal_plain p.time)
            (no_dollar-append ",p=" _ no_dollar_p (decimal_plain p.threads)))))

  -- The six parts.
  split-hash :
      (params salt hash : String)
      → no_dollar params ≡ true
      → no_dollar salt ≡ true
      → no_dollar hash ≡ true
      → split (
          ""
          <> ("$"
              <> ("argon2id"
                  <> ("$" <> ("v=19" <> ("$" <> (params <> ("$" <> (salt <> ("$" <> hash))))))))))
        ≡ "" ∷ "argon2id" ∷ "v=19" ∷ params ∷ salt ∷ hash ∷ []
  split-hash params salt hash p s h =
      split_first "" _ no_dollar_nothing
      ∙ ap (λ l. "" ∷ l)
          (split_first "argon2id" _ no_dollar_name
            ∙ ap (λ l. "argon2id" ∷ l)
                (split_first "v=19" _ no_dollar_version
                  ∙ ap (λ l. "v=19" ∷ l)
                      (split_first params _ p
                        ∙ ap (λ l. params ∷ l)
                            (split_first salt _ s ∙ ap (λ l. salt ∷ l) (split_plain hash h)))))

  verify_password-key :
      (password other : String) (salt : Bytes)
      → verify_password argon other (hash_password argon salt password)
        ≡ some (bytes_beq (id_key other salt 3 65536 1 32) (id_key password salt 3 65536 1 32))
  unfolding verify_password hash_password hash_with_salt
  verify_password-key password other salt =
      let hash = id_key password salt 3 65536 1 32 in
      ap (verify_parts argon other) (
        split-hash (params_text decimal default_password_params) (encode salt) (encode hash)
          (params_text-plain default_password_params) (encode_plain salt) (encode_plain hash))
      ∙ rw
          (
            scan_default,
            decode-encode salt,
            decode-encode hash,
            id_key_length password salt 3 65536 1 32,
          )
          refl

  -- Verifying a password against the hash of another, with the default parameters, is no error and
  -- tells whether the two have the same key for its salt; and so a password is accepted by its own hash.
  pub verify_password-hash :
      (password other : String) (salt : Bytes)
      → (verify_password argon other (hash_password argon salt password)
          ≡ some (bytes_beq (id_key other salt 3 65536 1 32) (id_key password salt 3 65536 1 32)))
        × (verify_password argon password (hash_password argon salt password) ≡ some true)
  verify_password-hash password other salt = (
    verify_password-key password other salt,
    verify_password-key password password salt ∙ ap some (bytes_beq_refl _),
  )
