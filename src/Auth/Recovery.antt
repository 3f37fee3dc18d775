-- ===== src/Auth/Recovery.antt =====
-- Recovery by the phrase: `RecoveryPrelogin` and `RecoveryRedeem` of
-- server/internal/auth/handlers.go.
pub mod Lockout
pub mod Count
use familycards.Prelude.{ℕ, String, ◌==◌, not, ◌||◌, Option, none, some, if◌then◌else◌}
use familycards.Http.{
  Bytes, Result, ok, err, Reply, json, json_with, Body, decode_json, decode_binary_field,
  write_error, bad_request, unauthorized,
}
use familycards.Http.{◌>>=◌ as ◌>>=?◌}
use familycards.Store.{User, RecoveryKey, DeviceInput, Db}
use familycards.Store.Tx.{Tx, ◌>>=◌, ◌>>◌, writes, with_immediate_tx}
use familycards.Auth.Services.{Services}
use familycards.Auth.Repository.{
  Draw, get_user_by_login, get_recovery_key, get_recovery_key_by_login,
  update_user_password_and_wrap, revoke_all_user_devices, create_device,
}
use familycards.Auth.Tokens.{issue_access_token, hash_refresh_token}
use familycards.Auth.Kdf.{
  default_kdf_params, fake_recovery_kdf_salt, fake_recovery_wrap_nonce,
  fake_recovery_wrapped_vault_key,
}
use familycards.Auth.Middleware.{or_unauthorized}
use familycards.Auth.Session.{verified}
use familycards.Auth.Account.{NewWrap, set_wrap}

pub record RecoveryPreloginRequest : Type 0 where
  pub login : String

pub record RecoveryPreloginResponse : Type 0 where
  pub kdf_salt : String
  pub kdf_params : String
  pub wrapped_vault_key : String
  pub wrap_nonce : String

pub record RecoveryRedeemRequest : Type 0 where
  pub login : String
  pub verifier : String
  pub new_password : String
  pub kdf_salt : String
  pub kdf_params : String
  pub wrapped_vault_key : String
  pub wrap_nonce : String
  pub device : DeviceInput

pub record RecoveryRedeemResponse : Type 0 where
  pub user_id : String
  pub vault_id : String
  pub device_id : String
  pub access_token : String
  pub refresh_token : String

-- What the checks of `RecoveryRedeem` hand to its transaction.
pub record Recovered : Type 0 where
  pub user : User
  pub wrap : NewWrap
  pub device : DeviceInput

-- The transaction of `RecoveryRedeem`: the device gets a new id.
unfoldable pub recover_tx : Draw → Recovered → String → Tx String
unfolding update_user_password_and_wrap revoke_all_user_devices create_device
recover_tx draw r refresh_hash = do
  writes (set_wrap r.wrap)
  writes (revoke_all_user_devices r.user.id)
  create_device draw r.user.id r.device refresh_hash

module _ (services : Services) (secret : String) where
  module _ (label_at : String → ℕ → String) where
    abbrev pub recovery_wrap_for : String → Option RecoveryKey → RecoveryPreloginResponse
    recovery_wrap_for login (some rk) = record {
      kdf_salt = services.b64.encode rk.kdf_salt;
      kdf_params = rk.kdf_params;
      wrapped_vault_key = services.b64.encode rk.wrapped_vault_key;
      wrap_nonce = services.b64.encode rk.wrap_nonce;
    }
    recovery_wrap_for login none = record {
      kdf_salt = services.b64.encode (fake_recovery_kdf_salt services secret login);
      kdf_params = default_kdf_params;
      wrapped_vault_key =
          services.b64.encode (fake_recovery_wrapped_vault_key services secret label_at login);
      wrap_nonce = services.b64.encode (fake_recovery_wrap_nonce services secret label_at login);
    }

    abbrev pub recovery_prelogin_with :
        Result RecoveryPreloginRequest → Db → Reply RecoveryPreloginResponse
    recovery_prelogin_with (err e) db = write_error e
    recovery_prelogin_with (ok req) db =
        if req.login == ""
        then write_error (bad_request "login is required")
        else (let r = recovery_wrap_for req.login (get_recovery_key_by_login req.login db) in
            json_with r.kdf_params 200 r)

    unfoldable pub recovery_prelogin :
        Body RecoveryPreloginRequest → Db → Reply RecoveryPreloginResponse
    unfolding get_recovery_key_by_login fake_recovery_kdf_salt fake_recovery_wrap_nonce
        fake_recovery_wrapped_vault_key
    recovery_prelogin body db = recovery_prelogin_with (decode_json body) db

  -- The user whose vault's recovery phrase it is, or an error.
  unfoldable pub check_phrase : String → String → Db → Result User
  unfolding get_user_by_login get_recovery_key
  check_phrase login verifier db =
      or_unauthorized "invalid login or recovery phrase" (get_user_by_login login db) >>=? λ user.
      or_unauthorized "invalid login or recovery phrase" (get_recovery_key user.vault_id db)
      >>=? λ rk.
          if not (verified (services.verify_password verifier rk.verifier_hash))
          then err (unauthorized "invalid login or recovery phrase")
          else ok user

  -- The checks of `RecoveryRedeem`; `salt` is the random draw of the new hash.
  unfoldable pub check_recovery : Bytes → Body RecoveryRedeemRequest → Db → Result Recovered
  unfolding check_phrase
  check_recovery salt body db = decode_json body >>=? λ req.
      if req.login == ""
        || req.verifier == ""
        || req.new_password == ""
        || req.kdf_salt == ""
        || req.wrapped_vault_key == ""
        || req.wrap_nonce == ""
      then err (bad_request "missing required fields")
      else (decode_binary_field services.b64 "kdf_salt" req.kdf_salt >>=? λ kdf_salt.
          decode_binary_field services.b64 "wrapped_vault_key" req.wrapped_vault_key
          >>=? λ wrapped_vk.
              decode_binary_field services.b64 "wrap_nonce" req.wrap_nonce >>=? λ wrap_nonce.
              check_phrase req.login req.verifier db >>=? λ user. ok (record {
                user = user;
                wrap = record {
                  user_id = user.id;
                  password_hash = services.hash_password salt req.new_password;
                  kdf_salt = kdf_salt;
                  kdf_params = req.kdf_params;
                  wrapped_vault_key = wrapped_vk;
                  wrap_nonce = wrap_nonce;
                };
                device = record { id = ""; name = req.device.name; platform = req.device.platform };
              }))

  abbrev pub recovery_reply :
      ℕ → String → User → Result String × Db → Reply RecoveryRedeemResponse × Db
  recovery_reply now refresh_raw user (err e, db) = (write_error e, db)
  recovery_reply now refresh_raw user (ok device_id, db) = (
    json 200 (record {
      user_id = user.id;
      vault_id = user.vault_id;
      device_id = device_id;
      access_token = issue_access_token services secret now user.id user.vault_id device_id;
      refresh_token = refresh_raw;
    }),
    db,
  )

  unfoldable pub recover_checked :
      Draw → String → Result Recovered → Db → Reply RecoveryRedeemResponse × Db
  unfolding recover_tx issue_access_token hash_refresh_token with_immediate_tx
  recover_checked draw refresh_raw (err e) db = (write_error e, db)
  recover_checked draw refresh_raw (ok r) db =
      recovery_reply draw.now refresh_raw r.user
        (with_immediate_tx (recover_tx draw r (hash_refresh_token services refresh_raw)) db)

  unfoldable pub recovery_redeem :
      Draw → Bytes → String → Body RecoveryRedeemRequest → Db → Reply RecoveryRedeemResponse × Db
  unfolding check_recovery recover_checked
  recovery_redeem draw salt refresh_raw body db =
      recover_checked draw refresh_raw (check_recovery salt body db) db
