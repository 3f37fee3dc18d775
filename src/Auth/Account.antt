-- ===== src/Auth/Account.antt =====
-- An account of one's own: `Prelogin`, `ChangePassword` and `Me` of
-- server/internal/auth/handlers.go. The reads before a transaction see the database that the
-- transaction starts from.
pub mod Password
use familycards.Prelude.{ℕ, String, ◌==◌, not, ◌||◌, Option, none, some, if◌then◌else◌}
use familycards.Http.{
  Bytes, Result, ok, err, Reply, json, json_with, Body, decode_json, decode_binary_field,
  write_error, bad_request, unauthorized, internal,
}
use familycards.Http.{◌>>=◌ as ◌>>=?◌}
use familycards.Store.{Vault, User, Db}
use familycards.Store.Tx.{Tx, writes, with_immediate_tx}
use familycards.Auth.Context.{Identity, Context, current_identity}
use familycards.Auth.Services.{Services}
use familycards.Auth.Repository.{
  get_user_by_login, get_user_by_id, get_vault, count_active_users, update_user_password_and_wrap,
}
use familycards.Auth.Kdf.{default_kdf_params, fake_kdf_salt}
use familycards.Auth.Middleware.{or_unauthorized}
use familycards.Auth.Session.{verified}

pub record PreloginRequest : Type 0 where
  pub login : String

pub record PreloginResponse : Type 0 where
  pub kdf_salt : String
  pub kdf_params : String

pub record PasswordChangeRequest : Type 0 where
  pub old_password : String
  pub new_password : String
  pub kdf_salt : String
  pub kdf_params : String
  pub wrapped_vault_key : String
  pub wrap_nonce : String

-- The request of a password change or a recovery with its binary fields decoded and its password
-- hashed.
pub record NewWrap : Type 0 where
  pub user_id : String
  pub password_hash : String
  pub kdf_salt : Bytes
  pub kdf_params : String
  pub wrapped_vault_key : Bytes
  pub wrap_nonce : Bytes

pub record MeUserDto : Type 0 where
  pub id : String
  pub login : String
  pub display_name : String

pub record MeVaultDto : Type 0 where
  pub id : String
  pub max_users : ℕ
  pub user_count : ℕ

pub record MeResponse : Type 0 where
  pub user : MeUserDto
  pub vault : MeVaultDto
  pub server_rev : ℕ

-- The call of `UpdateUserPasswordAndWrap`.
abbrev pub set_wrap : NewWrap → Db → Db
set_wrap w =
    update_user_password_and_wrap w.user_id w.password_hash w.kdf_salt w.kdf_params
      w.wrapped_vault_key w.wrap_nonce

module _ (services : Services) where
  -- What an unknown login gets has the shape of what a known one gets.
  abbrev pub salt_for : String → String → Option User → PreloginResponse
  salt_for secret login (some user) = record {
    kdf_salt = services.b64.encode user.kdf_salt;
    kdf_params = user.kdf_params;
  }
  salt_for secret login none = record {
    kdf_salt = services.b64.encode (fake_kdf_salt services secret login);
    kdf_params = default_kdf_params;
  }

  abbrev pub prelogin_with : String → Result PreloginRequest → Db → Reply PreloginResponse
  prelogin_with secret (err e) db = write_error e
  prelogin_with secret (ok req) db =
      if req.login == ""
      then write_error (bad_request "login is required")
      else (let r = salt_for secret req.login (get_user_by_login req.login db) in
          json_with r.kdf_params 200 r)

  unfoldable pub prelogin : String → Body PreloginRequest → Db → Reply PreloginResponse
  unfolding get_user_by_login fake_kdf_salt
  prelogin secret body db = prelogin_with secret (decode_json body) db

  -- `salt` is the random draw of the new hash.
  unfoldable pub new_wrap : Bytes → PasswordChangeRequest → User → Result NewWrap
  new_wrap salt req user = decode_binary_field services.b64 "kdf_salt" req.kdf_salt >>=? λ kdf_salt.
      decode_binary_field services.b64 "wrapped_vault_key" req.wrapped_vault_key >>=? λ wrapped_vk.
      decode_binary_field services.b64 "wrap_nonce" req.wrap_nonce >>=? λ wrap_nonce. ok (record {
        user_id = user.id;
        password_hash = services.hash_password salt req.new_password;
        kdf_salt = kdf_salt;
        kdf_params = req.kdf_params;
        wrapped_vault_key = wrapped_vk;
        wrap_nonce = wrap_nonce;
      })

  -- The checks of `ChangePassword` before its transaction.
  unfoldable pub check_change_password :
      Bytes → Option Identity → Body PasswordChangeRequest → Db → Result NewWrap
  unfolding get_user_by_id new_wrap
  check_change_password salt none body db = err (unauthorized "not authenticated")
  check_change_password salt (some id) body db = decode_json body >>=? λ req.
      if req.old_password == ""
        || req.new_password == ""
        || req.kdf_salt == ""
        || req.wrapped_vault_key == ""
        || req.wrap_nonce == ""
      then err (bad_request "missing required fields")
      else (or_unauthorized "account no longer available" (get_user_by_id id.user_id db)
          >>=? λ user.
              if not (verified (services.verify_password req.old_password user.password_hash))
              then err (unauthorized "invalid current password")
              else new_wrap salt req user)

  abbrev pub change_reply : Result (Unit {0}) × Db → Reply (Unit {0}) × Db
  change_reply (err e, db) = (write_error (internal "failed to update password"), db)
  change_reply (ok t, db) = (json 204 tt, db)

  unfoldable pub change_checked : Result NewWrap → Db → Reply (Unit {0}) × Db
  unfolding update_user_password_and_wrap with_immediate_tx
  change_checked (err e) db = (write_error e, db)
  change_checked (ok w) db = change_reply (with_immediate_tx (writes (set_wrap w)) db)

  unfoldable pub change_password :
      Bytes → Context → Body PasswordChangeRequest → Db → Reply (Unit {0}) × Db
  unfolding check_change_password change_checked current_identity
  change_password salt ctx body db =
      change_checked (check_change_password salt (current_identity ctx) body db) db

abbrev pub me_for : Option Identity → Db → Result MeResponse
me_for none db = err (unauthorized "not authenticated")
me_for (some id) db =
    or_unauthorized "account no longer available" (get_user_by_id id.user_id db) >>=? λ user.
    elim (get_vault id.vault_id db) [
      | none ↦ err (internal "failed to load vault")
      | some vault ↦ ok (record {
        user = record { id = user.id; login = user.login; display_name = user.display_name };
        vault = record {
          id = vault.id;
          max_users = vault.max_users;
          user_count = count_active_users id.vault_id db;
        };
        server_rev = vault.last_rev;
      })
    ]

abbrev pub me_reply : Result MeResponse → Reply MeResponse
me_reply (err e) = write_error e
me_reply (ok r) = json 200 r

unfoldable pub me : Context → Db → Reply MeResponse
unfolding current_identity get_user_by_id get_vault count_active_users
me ctx db = me_reply (me_for (current_identity ctx) db)
