-- ===== src/Membership/Redeem.antt =====
-- POST /v1/invites/{code_hash}/redeem: `RedeemInvite` of server/internal/membership/handlers.go.
pub mod Once
pub mod Atomic
use familycards.Prelude.{
  ℕ, ◌+◌, ltb, leb, String, ◌==◌, Bool, true, false, not, ◌&&◌, ◌||◌, Option, none, some, List,
  is_some, if◌then◌else◌,
}
use familycards.Http.{
  Bytes, Error, not_found, Result, ok, err, Reply, json, json_with, Body, decode_json,
  decode_binary_field, write_error, bad_request, missing, conflict, gone, internal,
}
use familycards.Http.{◌>>=◌ as ◌>>=?◌}
use familycards.Store.{Vault, User, Invite, DeviceInput, Db}
use familycards.Store.Tx.{Tx, ◌>>=◌, ◌>>◌, pure, throw, reads, fail_if, with_immediate_tx}
use familycards.Sync.Repository.{or_fail}
use familycards.Auth.Services.{Services}
use familycards.Auth.Repository.{
  Draw, get_vault, get_user_by_login, get_user_by_id, count_active_users, count_active_devices,
  create_user_in_vault, create_device,
}
use familycards.Auth.Tokens.{issue_access_token, hash_refresh_token}
use familycards.Membership.Repository.{is_open, get_invite_row, mark_invite_used}

abbrev pub max_active_devices_per_vault : ℕ
max_active_devices_per_vault = 10

pub record DeviceDto : Type 0 where
  pub id : String
  pub name : String
  pub platform : String

pub record RedeemInviteRequest : Type 0 where
  pub login : String
  pub display_name : String
  pub password : String
  pub kdf_salt : String
  pub kdf_params : String
  pub wrapped_vault_key : String
  pub wrap_nonce : String
  pub device : DeviceDto

pub record RedeemInviteResponse : Type 0 where
  pub user_id : String
  pub vault_id : String
  pub device_id : String
  pub access_token : String
  pub refresh_token : String
  pub wrapped_vault_key : String
  pub wrap_nonce : String
  pub kdf_salt : String
  pub kdf_params : String

-- The request with its binary fields decoded and its password hashed.
pub record NewMember : Type 0 where
  pub login : String
  pub display_name : String
  pub password_hash : String
  pub kdf_salt : Bytes
  pub kdf_params : String
  pub wrapped_vault_key : Bytes
  pub wrap_nonce : Bytes
  pub device : DeviceInput

-- The ids of the vault, the user and the device.
pub record NewIds : Type 0 where
  pub vault_id : String
  pub user_id : String
  pub device_id : String

-- The part of the transaction that only reads: the invite, if the member may join by it.
unfoldable pub admit : Draw → String → String → Tx Invite
unfolding get_invite_row get_vault count_active_users get_user_by_login count_active_devices
admit draw code_hash login = do
  row ← reads (get_invite_row code_hash)
  inv ← or_fail (missing "invite not found") row
  fail_if (not (is_open draw.now inv)) (gone "invite no longer valid")
  vault_row ← reads (get_vault inv.vault_id)
  vault ← or_fail not_found vault_row
  active_users ← reads (count_active_users inv.vault_id)
  fail_if (leb vault.max_users active_users) (conflict "member quota reached")
  same_login ← reads (get_user_by_login login)
  fail_if (is_some same_login) (conflict "login already taken")
  active_devices ← reads (count_active_devices inv.vault_id)
  fail_if (leb max_active_devices_per_vault active_devices)
      (conflict "device limit reached for this vault")
  pure inv

-- The transaction of `RedeemInvite`.
unfoldable pub redeem_tx : Draw → String → NewMember → String → Tx NewIds
unfolding admit mark_invite_used create_user_in_vault create_device
redeem_tx draw code_hash m refresh_hash = do
  inv ← admit draw code_hash m.login
  consumed ← mark_invite_used code_hash draw.now
  fail_if (not consumed) (gone "invite no longer valid")
  user_id ←
      create_user_in_vault draw inv.vault_id m.login m.display_name m.password_hash m.kdf_salt
        m.kdf_params m.wrapped_vault_key m.wrap_nonce
  device_id ← create_device draw user_id m.device refresh_hash
  pure (record { vault_id = inv.vault_id; user_id = user_id; device_id = device_id })

module _ (services : Services) (secret : String) where
  -- The device of the request keeps its name and platform, and gets a new id.
  unfoldable pub check_redeem : Bytes → Body RedeemInviteRequest → Result NewMember
  check_redeem salt body = decode_json body >>=? λ req.
      if req.login == ""
        || req.password == ""
        || req.kdf_salt == ""
        || req.wrapped_vault_key == ""
        || req.wrap_nonce == ""
      then err (bad_request "missing required fields")
      else (decode_binary_field services.b64 "kdf_salt" req.kdf_salt >>=? λ kdf_salt.
          decode_binary_field services.b64 "wrapped_vault_key" req.wrapped_vault_key
          >>=? λ wrapped_vk.
              decode_binary_field services.b64 "wrap_nonce" req.wrap_nonce >>=? λ wrap_nonce.
              ok (record {
                login = req.login;
                display_name = req.display_name;
                password_hash = services.hash_password salt req.password;
                kdf_salt = kdf_salt;
                kdf_params = req.kdf_params;
                wrapped_vault_key = wrapped_vk;
                wrap_nonce = wrap_nonce;
                device = record { id = ""; name = req.device.name; platform = req.device.platform };
              }))

  abbrev pub welcome : ℕ → String → NewIds → Option User → Reply RedeemInviteResponse
  welcome now refresh_raw ids none = write_error (internal "failed to load new account")
  welcome now refresh_raw ids (some user) = json_with user.kdf_params 200 (record {
    user_id = ids.user_id;
    vault_id = ids.vault_id;
    device_id = ids.device_id;
    access_token = issue_access_token services secret now ids.user_id ids.vault_id ids.device_id;
    refresh_token = refresh_raw;
    wrapped_vault_key = services.b64.encode user.wrapped_vault_key;
    wrap_nonce = services.b64.encode user.wrap_nonce;
    kdf_salt = services.b64.encode user.kdf_salt;
    kdf_params = user.kdf_params;
  })

  abbrev pub redeem_reply : ℕ → String → Result NewIds × Db → Reply RedeemInviteResponse × Db
  redeem_reply now refresh_raw (err e, db) = (write_error e, db)
  redeem_reply now refresh_raw (ok ids, db) =
      (welcome now refresh_raw ids (get_user_by_id ids.user_id db), db)

  abbrev pub redeem_checked :
      Draw → String → String → Result NewMember → Db → Reply RedeemInviteResponse × Db
  redeem_checked draw refresh_raw code_hash (err e) db = (write_error e, db)
  redeem_checked draw refresh_raw code_hash (ok m) db =
      redeem_reply draw.now refresh_raw (
        with_immediate_tx (redeem_tx draw code_hash m (hash_refresh_token services refresh_raw)) db)

  -- `salt` and `refresh_raw` are the random draws of the request.
  unfoldable pub redeem_invite :
      Draw
      → Bytes
      → String
      → String
      → Body RedeemInviteRequest
      → Db
      → Reply RedeemInviteResponse × Db
  unfolding check_redeem redeem_tx get_user_by_id issue_access_token hash_refresh_token
      with_immediate_tx
  redeem_invite draw salt refresh_raw code_hash body db =
      redeem_checked draw refresh_raw code_hash (check_redeem salt body) db
