-- ===== src/Auth/Tokens.antt =====
-- Access and refresh tokens: server/internal/auth/jwt.go.
use familycards.Prelude.{ℕ, ◌+◌, ◌*◌, String, Option}
use familycards.Auth.Services.{Claims, Services}

-- AccessTokenTTL and RefreshTokenTTL, in seconds.
abbrev pub access_token_ttl : ℕ
access_token_ttl = 15 * 60

abbrev pub refresh_token_ttl : ℕ
refresh_token_ttl = 30 * 24 * 60 * 60

module _ (services : Services) (secret : String) where
  abbrev pub claims_at : ℕ → String → String → String → Claims
  claims_at now user_id vault_id device_id = record {
    user_id = user_id;
    vault_id = vault_id;
    device_id = device_id;
    issued_at = now;
    expires_at = now + access_token_ttl;
  }

  unfoldable pub issue_access_token : ℕ → String → String → String → String
  issue_access_token now user_id vault_id device_id =
      services.sign secret (claims_at now user_id vault_id device_id)

  unfoldable pub parse_access_token : ℕ → String → Option Claims
  parse_access_token now token = services.parse secret now token

-- The hash of a raw refresh token, as it is stored.
unfoldable pub hash_refresh_token : Services → String → String
hash_refresh_token services raw = services.sha256_hex raw
