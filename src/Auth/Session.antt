-- ===== src/Auth/Session.antt =====
-- Sessions: `Login`, `Refresh`, `handlePossibleReuse` and `Logout` of server/internal/auth/handlers.go.
-- The reads before a transaction see the database that the transaction starts from.
pub mod Reuse
pub mod Limit
use familycards.Prelude.{
  ℕ, leb, String, ◌==◌, Bool, true, false, not, ◌||◌, Option, none, some, List, [], if◌then◌else◌,
}
use familycards.Http.{
  Base64, Result, ok, err, Reply, json, json_with, Body, parsed, malformed, decode_json,
  write_error, bad_request, unauthorized, forbidden, conflict, internal,
}
use familycards.Http.{◌>>=◌ as ◌>>=?◌}
use familycards.Store.{User, Device, DeviceInput, Db}
use familycards.Store.Tx.{Tx, ◌>>=◌, ◌>>◌, pure, reads, writes, fail_if, with_immediate_tx}
use familycards.Auth.Services.{Services}
use familycards.Auth.Repository.{
  Draw, get_user_by_login, get_user_by_id, find_user_device, update_device_refresh_hash,
  count_active_devices, create_device, get_device_by_refresh_hash, retire_refresh_hash,
  retired_refresh_token_user, revoke_all_user_devices, revoke_device,
}
use familycards.Auth.Tokens.{issue_access_token, hash_refresh_token}
use familycards.Auth.Middleware.{or_unauthorized}

abbrev pub max_active_devices : ℕ
max_active_devices = 10

pub record LoginRequest : Type 0 where
  pub login : String
  pub password : String
  pub device : DeviceInput

pub record LoginResponse : Type 0 where
  pub user_id : String
  pub vault_id : String
  pub device_id : String
  pub access_token : String
  pub refresh_token : String
  pub wrapped_vault_key : String
  pub wrap_nonce : String
  pub kdf_salt : String
  pub kdf_params : String

pub record RefreshRequest : Type 0 where
  pub refresh_token : String

pub record RefreshResponse : Type 0 where
  pub access_token : String
  pub refresh_token : String

-- What a login does to the device that it names, if it is the user's, and else a new one.
abbrev pub sign_in : Draw → LoginRequest → User → String → Option Device → Tx String
sign_in draw req user refresh_hash (some existing) = do
  writes (update_device_refresh_hash draw.now existing.id refresh_hash)
  pure existing.id
sign_in draw req user refresh_hash none = do
  active_devices ← reads (count_active_devices user.vault_id)
  fail_if (leb max_active_devices active_devices) (conflict "device limit reached for this vault")
  create_device draw user.id req.device refresh_hash

abbrev pub named_device : LoginRequest → User → Db → Option Device
named_device req user db =
    if req.device.id == "" then none else find_user_device user.id req.device.id db

-- The transaction of `Login`.
unfoldable pub login_tx : Draw → LoginRequest → User → String → Tx String
unfolding update_device_refresh_hash count_active_devices create_device find_user_device
login_tx draw req user refresh_hash = do
  existing ← reads (named_device req user)
  sign_in draw req user refresh_hash existing

abbrev pub verified : Option Bool → Bool
verified (some true) = true
verified _ = false

-- The transaction of `Refresh`.
unfoldable pub rotate_tx : ℕ → Device → String → String → Tx (Unit {0})
unfolding retire_refresh_hash update_device_refresh_hash
rotate_tx now device hash new_hash = do
  writes (retire_refresh_hash now device.user_id hash)
  writes (update_device_refresh_hash now device.id new_hash)

module _ (services : Services) (secret : String) where
  -- The account whose password it is, or an error.
  unfoldable pub authenticate : LoginRequest → Db → Result User
  unfolding get_user_by_login
  authenticate req db =
      or_unauthorized "invalid login or password" (get_user_by_login req.login db) >>=? λ user.
      if not (verified (services.verify_password req.password user.password_hash))
      then err (unauthorized "invalid login or password")
      else if user.disabled
      then err (forbidden "account disabled")
      else ok user

  unfoldable pub check_login : Body LoginRequest → Db → Result (LoginRequest × User)
  unfolding authenticate
  check_login body db = decode_json body >>=? λ req.
      if req.login == "" || req.password == ""
      then err (bad_request "login and password are required")
      else (authenticate req db >>=? λ user. ok (req, user))

  abbrev pub login_reply : ℕ → String → User → Result String × Db → Reply LoginResponse × Db
  login_reply now refresh_raw user (err e, db) = (write_error e, db)
  login_reply now refresh_raw user (ok device_id, db) = (
    json_with user.kdf_params 200 (record {
      user_id = user.id;
      vault_id = user.vault_id;
      device_id = device_id;
      access_token = issue_access_token services secret now user.id user.vault_id device_id;
      refresh_token = refresh_raw;
      wrapped_vault_key = services.b64.encode user.wrapped_vault_key;
      wrap_nonce = services.b64.encode user.wrap_nonce;
      kdf_salt = services.b64.encode user.kdf_salt;
      kdf_params = user.kdf_params;
    }),
    db,
  )

  abbrev pub login_checked :
      Draw → String → Result (LoginRequest × User) → Db → Reply LoginResponse × Db
  login_checked draw refresh_raw (err e) db = (write_error e, db)
  login_checked draw refresh_raw (ok (req, user)) db =
      login_reply draw.now refresh_raw user
        (with_immediate_tx (login_tx draw req user (hash_refresh_token services refresh_raw)) db)

  unfoldable pub login : Draw → String → Body LoginRequest → Db → Reply LoginResponse × Db
  unfolding check_login login_tx issue_access_token hash_refresh_token with_immediate_tx
  login draw refresh_raw body db = login_checked draw refresh_raw (check_login body db) db

  abbrev pub reuse_for : Option String → Db → Reply RefreshResponse × Db
  reuse_for none db = (write_error (unauthorized "invalid refresh token"), db)
  reuse_for (some user_id) db = (
    write_error (unauthorized "refresh token reuse detected, all devices revoked"),
    revoke_all_user_devices user_id db,
  )

  -- A hash that is no device's: a retired one revokes every device of its user.
  unfoldable pub handle_possible_reuse : String → Db → Reply RefreshResponse × Db
  unfolding retired_refresh_token_user revoke_all_user_devices
  handle_possible_reuse hash db = reuse_for (retired_refresh_token_user hash db) db

  abbrev pub refreshed : ℕ → String → Device → Option User → Reply RefreshResponse
  refreshed now new_raw device none = write_error (unauthorized "account no longer available")
  refreshed now new_raw device (some user) = json 200 (record {
    access_token = issue_access_token services secret now user.id user.vault_id device.id;
    refresh_token = new_raw;
  })

  abbrev pub rotate_reply :
      ℕ → String → Device → Result (Unit {0}) × Db → Reply RefreshResponse × Db
  rotate_reply now new_raw device (err e, db) =
      (write_error (internal "failed to rotate refresh token"), db)
  rotate_reply now new_raw device (ok t, db) =
      (refreshed now new_raw device (get_user_by_id device.user_id db), db)

  abbrev pub refresh_at : ℕ → String → String → Option Device → Db → Reply RefreshResponse × Db
  refresh_at now new_raw hash none db = handle_possible_reuse hash db
  refresh_at now new_raw hash (some device) db =
      if device.revoked
      then (write_error (unauthorized "device revoked"), db)
      else rotate_reply now new_raw device
          (with_immediate_tx (rotate_tx now device hash (hash_refresh_token services new_raw)) db)

  abbrev pub refresh_with : ℕ → String → String → Db → Reply RefreshResponse × Db
  refresh_with now new_raw token db =
      refresh_at now new_raw (hash_refresh_token services token)
        (get_device_by_refresh_hash (hash_refresh_token services token) db) db

  abbrev pub refresh_checked : ℕ → String → Result RefreshRequest → Db → Reply RefreshResponse × Db
  refresh_checked now new_raw (err e) db = (write_error e, db)
  refresh_checked now new_raw (ok req) db =
      if req.refresh_token == ""
      then (write_error (bad_request "refresh_token is required"), db)
      else refresh_with now new_raw req.refresh_token db

  -- `new_raw` is the random draw of the new token.
  unfoldable pub refresh : ℕ → String → Body RefreshRequest → Db → Reply RefreshResponse × Db
  unfolding handle_possible_reuse rotate_tx get_device_by_refresh_hash get_user_by_id
      issue_access_token hash_refresh_token with_immediate_tx
  refresh now new_raw body db = refresh_checked now new_raw (decode_json body) db

  abbrev pub logout_device : Option Device → Db → Db
  logout_device none db = db
  logout_device (some device) db = revoke_device device.id db

  -- Logout: the body is that of a refresh.
  unfoldable pub logout : Body RefreshRequest → Db → Reply (Unit {0}) × Db
  unfolding revoke_device get_device_by_refresh_hash hash_refresh_token
  logout (malformed m) db = (json 204 tt, db)
  logout (parsed req) db = (
    json 204 tt,
    (if req.refresh_token == ""
        then db
        else logout_device
            (get_device_by_refresh_hash (hash_refresh_token services req.refresh_token) db) db),
  )
