-- ===== src/Auth/Repository/Creation.antt =====
-- server/internal/auth/repository.go: the tests on a row, and the statements that add vaults, users,
-- devices and recovery keys, with the keys and references that the tables declare.
use Prim.Native.Char.{code}
use familycards.Prelude.{
  ℕ, ◌+◌, leb, nat_beq, String, ◌==◌, Bool, true, false, not, ◌&&◌, ◌||◌, if◌then◌else◌,
}
use familycards.Prelude.Table.{count, insert, exists}
use familycards.Http.{Bytes, other}
use familycards.Store.{Vault, User, Device, RecoveryKey, DeviceInput, Db}
use familycards.Store.Tx.{Tx, ◌>>=◌, ◌>>◌, pure, reads, writes, fail_if}
use familycards.Sync.Repository.{is_vault}

-- COLLATE NOCASE folds the 26 letters of ASCII.
abbrev pub fold_case : ℕ → ℕ
fold_case c = if leb b'A' c && leb c b'Z' then c + 32 else c

unfoldable pub login_eq : String → String → Bool
login_eq String.[] String.[] = true
login_eq String.[] (String.◌∷◌ d t) = false
login_eq (String.◌∷◌ c s) String.[] = false
login_eq (String.◌∷◌ c s) (String.◌∷◌ d t) =
    let rest = login_eq s t in
    if nat_beq (fold_case (code c)) (fold_case (code d)) then rest else false

abbrev pub has_login : String → User → Bool
has_login login u = login_eq u.login login

abbrev pub is_user : String → User → Bool
is_user id u = u.id == id

abbrev pub is_device : String → Device → Bool
is_device id d = d.id == id

abbrev pub has_hash : String → Device → Bool
has_hash hash d = d.refresh_hash == hash

unfoldable pub count_users : Db → ℕ
count_users db = count (λ u. true) db.users

-- INSERT INTO vaults
unfoldable pub insert_vault : Vault → Tx (Unit {0})
insert_vault v = do
  taken ← reads (λ db. exists (is_vault v.id) db.vaults)
  fail_if taken other
  writes (λ db. record db { vaults = insert v db.vaults })

-- INSERT INTO users: the id and the login are unique, and the vault exists.
unfoldable pub insert_user : User → Tx (Unit {0})
unfolding login_eq
insert_user u = do
  taken ← reads (λ db. exists (is_user u.id) db.users || exists (has_login u.login) db.users)
  fail_if taken other
  there ← reads (λ db. exists (is_vault u.vault_id) db.vaults)
  fail_if (not there) other
  writes (λ db. record db { users = insert u db.users })

-- INSERT INTO devices: the id is unique, and the user exists.
unfoldable pub insert_device : Device → Tx (Unit {0})
insert_device d = do
  taken ← reads (λ db. exists (is_device d.id) db.devices)
  fail_if taken other
  there ← reads (λ db. exists (is_user d.user_id) db.users)
  fail_if (not there) other
  writes (λ db. record db { devices = insert d db.devices })

-- INSERT INTO recovery_keys: one for each vault.
unfoldable pub insert_recovery_key : RecoveryKey → Tx (Unit {0})
insert_recovery_key r = do
  taken ← reads (λ db. exists (λ (k : RecoveryKey). k.vault_id == r.vault_id) db.recovery_keys)
  fail_if taken other
  writes (λ db. record db { recovery_keys = insert r db.recovery_keys })

pub record RecoveryInput : Type 0 where
  pub wrapped_vault_key : Bytes
  pub wrap_nonce : Bytes
  pub kdf_salt : Bytes
  pub kdf_params : String
  pub verifier_hash : String

pub record BootstrapParams : Type 0 where
  pub login : String
  pub display_name : String
  pub password_hash : String
  pub kdf_salt : Bytes
  pub kdf_params : String
  pub wrapped_vault_key : Bytes
  pub wrap_nonce : Bytes
  pub recovery : RecoveryInput
  pub device : DeviceInput
  pub refresh_hash : String

-- What a request draws: the time, and ids for a vault, a user and a device.
pub record Draw : Type 0 where
  pub now : ℕ
  pub vault_id : String
  pub user_id : String
  pub device_id : String

-- A given id, or a new one.
abbrev pub id_or_new : String → String → String
id_or_new given new = if given == "" then new else given

abbrev pub new_device : Draw → String → DeviceInput → String → Device
new_device draw user_id input refresh_hash = record {
  id = id_or_new input.id draw.device_id;
  user_id = user_id;
  name = input.name;
  platform = input.platform;
  refresh_hash = refresh_hash;
  created_at = draw.now;
  last_seen_at = draw.now;
  revoked = false;
}

-- The ids of the vault, the user and the device.
unfoldable pub bootstrap : Draw → BootstrapParams → Tx (String × String × String)
unfolding insert_vault insert_user insert_device insert_recovery_key
bootstrap draw p = do
  insert_vault (record { id = draw.vault_id; created_at = draw.now; last_rev = 0; max_users = 5 })
  insert_user (record {
    id = draw.user_id;
    vault_id = draw.vault_id;
    login = p.login;
    display_name = p.display_name;
    password_hash = p.password_hash;
    kdf_salt = p.kdf_salt;
    kdf_params = p.kdf_params;
    wrapped_vault_key = p.wrapped_vault_key;
    wrap_nonce = p.wrap_nonce;
    created_at = draw.now;
    disabled = false;
  })
  insert_device (new_device draw draw.user_id p.device p.refresh_hash)
  insert_recovery_key (record {
    vault_id = draw.vault_id;
    wrapped_vault_key = p.recovery.wrapped_vault_key;
    wrap_nonce = p.recovery.wrap_nonce;
    kdf_salt = p.recovery.kdf_salt;
    kdf_params = p.recovery.kdf_params;
    created_at = draw.now;
    verifier_hash = p.recovery.verifier_hash;
  })
  pure (draw.vault_id, draw.user_id, id_or_new p.device.id draw.device_id)

unfoldable pub create_user_in_vault :
    Draw → String → String → String → String → Bytes → String → Bytes → Bytes → Tx String
unfolding insert_user
create_user_in_vault draw vault_id login display_name password_hash kdf_salt kdf_params wrapped_vk
      wrap_nonce =
    do
      insert_user (record {
        id = draw.user_id;
        vault_id = vault_id;
        login = login;
        display_name = display_name;
        password_hash = password_hash;
        kdf_salt = kdf_salt;
        kdf_params = kdf_params;
        wrapped_vault_key = wrapped_vk;
        wrap_nonce = wrap_nonce;
        created_at = draw.now;
        disabled = false;
      })
      pure draw.user_id

unfoldable pub create_device : Draw → String → DeviceInput → String → Tx String
unfolding insert_device
create_device draw user_id input refresh_hash = do
  insert_device (new_device draw user_id input refresh_hash)
  pure (id_or_new input.id draw.device_id)
