-- ===== src/Crypto.antt =====
-- The password hashes: server/internal/crypto/password.go. Argon2, base64, and what the code calls of
-- strings and fmt are the parameter `Argon`; the random draw of the salt is an argument.
pub mod Verify
pub mod Filled
use Prim.Native.Char.{Char, code}
use Prim.Native.String.{◌++◌ as ◌<>◌}
use familycards.Prelude.{
  ℕ, nat_beq, String, ◌==◌, ◌≡◌, Bool, true, false, not, ◌&&◌, Option, none, some, List, [], ◌∷◌,
  length, if◌then◌else◌,
}
use familycards.Http.{Bytes}

pub record PasswordParams : Type 0 where
  pub memory : ℕ
  pub time : ℕ
  pub threads : ℕ

abbrev pub default_password_params : PasswordParams
default_password_params = record { memory = 65536; time = 3; threads = 1 }

abbrev pub key_len : ℕ
key_len = 32

-- No part of a hash has the separator in it.
unfoldable pub no_dollar : String → Bool
no_dollar String.[] = true
no_dollar (String.◌∷◌ c s) = let rest = no_dollar s in if nat_beq (code c) 36 then false else rest

-- "m=%d,t=%d,p=%d"
abbrev pub params_text : (ℕ → String) → PasswordParams → String
params_text decimal p =
    "m=" <> (decimal p.memory <> (",t=" <> (decimal p.time <> (",p=" <> decimal p.threads))))

pub record Argon : Type 0 where
  -- a password, a salt, the time, the memory, the threads and the length of the key
  pub id_key : String → Bytes → ℕ → ℕ → ℕ → ℕ → Bytes
  pub id_key_length :
      (pw : String) (salt : Bytes) (t m p n : ℕ) → length (id_key pw salt t m p n) ≡ n
  -- base64.RawStdEncoding, whose alphabet has no dollar
  pub encode : Bytes → String
  pub decode : String → Option Bytes
  pub decode-encode : (b : Bytes) → decode (encode b) ≡ some b
  pub encode_plain : (b : Bytes) → no_dollar (encode b) ≡ true
  -- %d
  pub decimal : ℕ → String
  pub decimal_plain : (n : ℕ) → no_dollar (decimal n) ≡ true
  -- strings.Split(s, "$")
  pub split : String → List String
  pub split_plain : (s : String) → no_dollar s ≡ true → split s ≡ s ∷ []
  pub split_first :
      (s rest : String) → no_dollar s ≡ true → split (s <> ("$" <> rest)) ≡ s ∷ split rest
  -- fmt.Sscanf: the memory, the time and the threads, as uint32, uint32 and uint8
  pub scan_params : String → Option PasswordParams
  pub scan_default :
      scan_params (params_text decimal default_password_params) ≡ some default_password_params

unfoldable pub bytes_beq : Bytes → Bytes → Bool
bytes_beq [] [] = true
bytes_beq [] (y ∷ ys) = false
bytes_beq (x ∷ xs) [] = false
bytes_beq (x ∷ xs) (y ∷ ys) = nat_beq x y && bytes_beq xs ys

module _ (argon : Argon) where
  open argon use {id_key, encode, decode, decimal, split, scan_params}

  unfoldable pub hash_with_salt : String → Bytes → PasswordParams → String
  hash_with_salt password salt p =
      let hash = id_key password salt p.time p.memory p.threads key_len in
      ""
      <> ("$"
          <> ("argon2id"
              <> ("$"
                  <> ("v=19"
                      <> ("$"
                          <> (params_text decimal p
                              <> ("$" <> (encode salt <> ("$" <> encode hash)))))))))

  -- `HashPassword`, with the salt that it draws.
  unfoldable pub hash_password : Bytes → String → String
  unfolding hash_with_salt
  hash_password salt password = hash_with_salt password salt default_password_params

  -- `none` is an error.
  abbrev pub compare_key :
      String → Option PasswordParams → Option Bytes → Option Bytes → Option Bool
  compare_key password (some p) (some salt) (some want) =
      some (bytes_beq (id_key password salt p.time p.memory p.threads (length want)) want)
  compare_key password _ _ _ = none

  abbrev pub verify_parts : String → List String → Option Bool
  verify_parts password (start ∷ name ∷ version ∷ params ∷ salt ∷ hash ∷ []) =
      if not (name == "argon2id")
      then none
      else compare_key password (scan_params params) (decode salt) (decode hash)
  verify_parts password _ = none

  unfoldable pub verify_password : String → String → Option Bool
  unfolding bytes_beq
  verify_password password encoded = verify_parts password (split encoded)
