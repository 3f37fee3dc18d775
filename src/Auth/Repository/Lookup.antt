-- ===== src/Auth/Repository/Lookup.antt =====
-- server/internal/auth/repository.go: the queries and updates of users, devices, recovery keys and
-- retired tokens.
use familycards.Prelude.{
  ℕ, ltb, String, ◌==◌, Bool, true, not, ◌&&◌, Option, none, some, List, [], ◌∷◌, if◌then◌else◌,
}
use familycards.Prelude.Table.{find, select, count, insert, update, exists}
use familycards.Http.{Bytes}
use familycards.Store.{Vault, User, Device, RecoveryKey, RetiredToken, Db}
use familycards.Sync.Repository.{is_vault}
use familycards.Auth.Repository.Creation.{login_eq, has_login, is_user, is_device, has_hash}

unfoldable pub get_user_by_login : String → Db → Option User
unfolding login_eq
get_user_by_login login db = find (has_login login) db.users

unfoldable pub get_user_by_id : String → Db → Option User
get_user_by_id id db = find (is_user id) db.users

unfoldable pub get_vault : String → Db → Option Vault
get_vault id db = find (is_vault id) db.vaults

abbrev pub is_active_in : String → User → Bool
is_active_in vault_id u = u.vault_id == vault_id && not u.disabled

unfoldable pub count_active_users : String → Db → ℕ
count_active_users vault_id db = count (is_active_in vault_id) db.users

-- FROM devices d JOIN users u ON u.id = d.user_id: a device counts once, since ids are unique.
abbrev pub is_active_device : String → List User → Device → Bool
is_active_device vault_id users d =
    exists (λ (u : User). u.id == d.user_id && u.vault_id == vault_id) users && not d.revoked

unfoldable pub count_active_devices : String → Db → ℕ
count_active_devices vault_id db = count (is_active_device vault_id db.users) db.devices

unfoldable pub get_device_by_refresh_hash : String → Db → Option Device
get_device_by_refresh_hash hash db = find (has_hash hash) db.devices

unfoldable pub get_device_by_id : String → Db → Option Device
get_device_by_id id db = find (is_device id) db.devices

abbrev pub update_devices : (Device → Bool) → (Device → Device) → Db → Db
update_devices p f db = record db { devices = update p f db.devices }

unfoldable pub update_device_refresh_hash : ℕ → String → String → Db → Db
update_device_refresh_hash now id new_hash =
    update_devices (is_device id) λ d. record d { refresh_hash = new_hash; last_seen_at = now }

unfoldable pub touch_device : ℕ → String → Db → Db
touch_device now id = update_devices (is_device id) λ d. record d { last_seen_at = now }

abbrev pub revoke : Device → Device
revoke d = record d { revoked = true }

unfoldable pub revoke_device : String → Db → Db
revoke_device id = update_devices (is_device id) revoke

abbrev pub belongs_to : String → Device → Bool
belongs_to user_id d = d.user_id == user_id

unfoldable pub revoke_all_user_devices : String → Db → Db
revoke_all_user_devices user_id = update_devices (belongs_to user_id) revoke

abbrev pub update_users : (User → Bool) → (User → User) → Db → Db
update_users p f db = record db { users = update p f db.users }

unfoldable pub update_user_password_and_wrap :
    String → String → Bytes → String → Bytes → Bytes → Db → Db
update_user_password_and_wrap user_id password_hash kdf_salt kdf_params wrapped_vk wrap_nonce =
    update_users (is_user user_id) λ u. record u {
      password_hash = password_hash;
      kdf_salt = kdf_salt;
      kdf_params = kdf_params;
      wrapped_vault_key = wrapped_vk;
      wrap_nonce = wrap_nonce;
    }

unfoldable pub set_user_disabled : String → Bool → Db → Db
set_user_disabled user_id disabled =
    update_users (is_user user_id) λ u. record u { disabled = disabled }

-- ORDER BY created_at ASC, for users and for devices.
abbrev pub insert_ordered : {A : Type 0} → (A → ℕ) → A → List A → List A
insert_ordered key x [] = x ∷ []
insert_ordered key x (y ∷ ys) =
    let rest = insert_ordered key x ys in if ltb (key y) (key x) then y ∷ rest else x ∷ y ∷ ys

unfoldable pub order_by : {A : Type 0} → (A → ℕ) → List A → List A
order_by key [] = []
order_by key (x ∷ xs) = insert_ordered key x (order_by key xs)

unfoldable pub list_members : String → Db → List User
unfolding order_by
list_members vault_id db =
    order_by (λ (u : User). u.created_at) (select (λ (u : User). u.vault_id == vault_id) db.users)

unfoldable pub list_devices_by_user : String → Db → List Device
unfolding order_by
list_devices_by_user user_id db =
    order_by (λ (d : Device). d.created_at) (select (belongs_to user_id) db.devices)

abbrev pub is_key_of : String → RecoveryKey → Bool
is_key_of vault_id r = r.vault_id == vault_id

unfoldable pub get_recovery_key : String → Db → Option RecoveryKey
get_recovery_key vault_id db = find (is_key_of vault_id) db.recovery_keys

abbrev pub key_of_user : Db → Option User → Option RecoveryKey
key_of_user db none = none
key_of_user db (some u) = find (is_key_of u.vault_id) db.recovery_keys

-- FROM recovery_keys rk JOIN users u ON u.vault_id = rk.vault_id WHERE u.login = ?: logins are unique.
unfoldable pub get_recovery_key_by_login : String → Db → Option RecoveryKey
unfolding get_user_by_login
get_recovery_key_by_login login db = key_of_user db (get_user_by_login login db)

abbrev pub is_retired : String → RetiredToken → Bool
is_retired hash t = t.hash == hash

-- INSERT OR IGNORE
unfoldable pub retire_refresh_hash : ℕ → String → String → Db → Db
retire_refresh_hash now user_id hash db =
    if exists (is_retired hash) db.retired then db else record db {
      retired = insert (record { hash = hash; user_id = user_id; retired_at = now }) db.retired;
    }

abbrev pub user_of_token : Option RetiredToken → Option String
user_of_token none = none
user_of_token (some t) = some t.user_id

unfoldable pub retired_refresh_token_user : String → Db → Option String
retired_refresh_token_user hash db = user_of_token (find (is_retired hash) db.retired)

abbrev pub if_owned : String → Option Device → Option Device
if_owned user_id none = none
if_owned user_id (some d) = if d.user_id == user_id then some d else none

unfoldable pub find_user_device : String → String → Db → Option Device
unfolding get_device_by_id
find_user_device user_id device_id db = if_owned user_id (get_device_by_id device_id db)
