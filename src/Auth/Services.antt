-- ===== src/Auth/Services.antt =====
-- What the account handlers call: the password hashing and the HMAC of server/internal/crypto, and
-- SHA-256 and the JWT library, which are not of this repository. The laws are what the callers need
-- of them. A random draw that fails is not modelled; the salt of a hash is an argument.
use familycards.Prelude.{ℕ, ltb, String, ◌≡◌, Bool, true, Option, none, some, length, if◌then◌else◌}
use familycards.Http.{Bytes, Base64}

-- auth.Claims: the caller's ids with the times of issue and of expiry.
pub record Claims : Type 0 where
  pub user_id : String
  pub vault_id : String
  pub device_id : String
  pub issued_at : ℕ
  pub expires_at : ℕ

pub record Services : Type 0 where
  pub b64 : Base64
  pub sha256_hex : String → String
  pub hmac_sha256 : String → String → Bytes
  pub hmac_length : (secret message : String) → length (hmac_sha256 secret message) ≡ 32
  -- a salt and a password
  pub hash_password : Bytes → String → String
  -- `none` is an error: the hash is malformed
  pub verify_password : String → String → Option Bool
  pub verify-hash :
      (salt : Bytes) (password : String)
      → verify_password password (hash_password salt password) ≡ some true
  pub sign : String → Claims → String
  -- a secret, the time and a token
  pub parse : String → ℕ → String → Option Claims
  pub parse-sign :
      (secret : String) (now : ℕ) (c : Claims)
      → parse secret now (sign secret c) ≡ (if ltb now c.expires_at then some c else none)
