-- ===== src/Auth/Bootstrap.antt =====
-- POST /v1/auth/bootstrap: `Bootstrap` of server/internal/auth/handlers.go. The comparison of the
-- bootstrap tokens in constant time is equality.
pub mod Once
use familycards.Prelude.{ℕ, ltb, String, ◌==◌, Bool, true, false, not, ◌||◌, if◌then◌else◌}
use familycards.Http.{
  Bytes, Result, ok, err, Reply, json, Body, decode_json, decode_binary_field, write_error,
  bad_request, unauthorized, conflict,
}
use familycards.Http.{◌>>=◌ as ◌>>=?◌}
use familycards.Store.{DeviceInput, Db}
use familycards.Store.Tx.{Tx, ◌>>=◌, ◌>>◌, reads, fail_if, with_immediate_tx}
use familycards.Auth.Services.{Services}
use familycards.Auth.Repository.{Draw, RecoveryInput, BootstrapParams, count_users, bootstrap}
use familycards.Auth.Tokens.{issue_access_token, hash_refresh_token}

pub record RecoveryDto : Type 0 where
  pub wrapped_vault_key : String
  pub wrap_nonce : String
  pub kdf_salt : String
  pub kdf_params : String
  pub verifier : String

pub record BootstrapRequest : Type 0 where
  pub login : String
  pub display_name : String
  pub password : String
  pub kdf_salt : String
  pub kdf_params : String
  pub wrapped_vault_key : String
  pub wrap_nonce : String
  pub recovery : RecoveryDto
  pub device : DeviceInput

pub record BootstrapResponse : Type 0 where
  pub user_id : String
  pub vault_id : String
  pub device_id : String
  pub access_token : String
  pub refresh_token : String

-- The transaction of `Bootstrap`.
unfoldable pub bootstrap_tx : Draw → BootstrapParams → Tx (String × String × String)
unfolding count_users bootstrap
bootstrap_tx draw p = do
  users ← reads count_users
  fail_if (ltb 0 users) (conflict "server already bootstrapped")
  bootstrap draw p

module _ (services : Services) (secret : String) where
  -- The request with its binary fields decoded and its secrets hashed with the drawn salts.
  unfoldable pub params_of : Bytes → Bytes → String → BootstrapRequest → Result BootstrapParams
  params_of salt recovery_salt refresh_hash req =
      decode_binary_field services.b64 "kdf_salt" req.kdf_salt >>=? λ kdf_salt.
      decode_binary_field services.b64 "wrapped_vault_key" req.wrapped_vault_key >>=? λ wrapped_vk.
      decode_binary_field services.b64 "wrap_nonce" req.wrap_nonce >>=? λ wrap_nonce.
      decode_binary_field services.b64 "recovery.wrapped_vault_key" req.recovery.wrapped_vault_key
      >>=? λ rec_vk.
          decode_binary_field services.b64 "recovery.wrap_nonce" req.recovery.wrap_nonce
          >>=? λ rec_nonce.
              decode_binary_field services.b64 "recovery.kdf_salt" req.recovery.kdf_salt
              >>=? λ rec_salt. ok (record {
                login = req.login;
                display_name = req.display_name;
                password_hash = services.hash_password salt req.password;
                kdf_salt = kdf_salt;
                kdf_params = req.kdf_params;
                wrapped_vault_key = wrapped_vk;
                wrap_nonce = wrap_nonce;
                recovery = record {
                  wrapped_vault_key = rec_vk;
                  wrap_nonce = rec_nonce;
                  kdf_salt = rec_salt;
                  kdf_params = req.recovery.kdf_params;
                  verifier_hash = services.hash_password recovery_salt req.recovery.verifier;
                };
                device = record { id = ""; name = req.device.name; platform = req.device.platform };
                refresh_hash = refresh_hash;
              })

  -- The checks before the transaction; `expected` is the token of the configuration.
  unfoldable pub check_bootstrap :
      String → String → Bytes → Bytes → String → Body BootstrapRequest → Result BootstrapParams
  unfolding params_of
  check_bootstrap expected presented salt recovery_salt refresh_hash body =
      if expected == "" || not (expected == presented)
      then err (unauthorized "invalid bootstrap token")
      else (decode_json body >>=? λ req.
          if req.login == ""
            || req.password == ""
            || req.kdf_salt == ""
            || req.wrapped_vault_key == ""
            || req.wrap_nonce == ""
          then err (bad_request "missing required fields")
          else if req.recovery.wrapped_vault_key == ""
              || req.recovery.wrap_nonce == ""
              || req.recovery.kdf_salt == ""
              || req.recovery.verifier == ""
          then err (bad_request "missing recovery fields")
          else params_of salt recovery_salt refresh_hash req)

  abbrev pub bootstrap_reply :
      ℕ → String → Result (String × String × String) × Db → Reply BootstrapResponse × Db
  bootstrap_reply now refresh_raw (err e, db) = (write_error e, db)
  bootstrap_reply now refresh_raw (ok (vault_id, user_id, device_id), db) = (
    json 201 (record {
      user_id = user_id;
      vault_id = vault_id;
      device_id = device_id;
      access_token = issue_access_token services secret now user_id vault_id device_id;
      refresh_token = refresh_raw;
    }),
    db,
  )

  abbrev pub bootstrap_checked :
      Draw → String → Result BootstrapParams → Db → Reply BootstrapResponse × Db
  bootstrap_checked draw refresh_raw (err e) db = (write_error e, db)
  bootstrap_checked draw refresh_raw (ok p) db =
      bootstrap_reply draw.now refresh_raw (with_immediate_tx (bootstrap_tx draw p) db)

  unfoldable pub bootstrap_server :
      String
      → String
      → Draw
      → Bytes
      → Bytes
      → String
      → Body BootstrapRequest
      → Db
      → Reply BootstrapResponse × Db
  unfolding check_bootstrap bootstrap_tx issue_access_token hash_refresh_token with_immediate_tx
  bootstrap_server expected presented draw salt recovery_salt refresh_raw body db =
      bootstrap_checked draw refresh_raw
        (check_bootstrap expected presented salt recovery_salt
          (hash_refresh_token services refresh_raw) body)
        db
