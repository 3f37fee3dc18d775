-- ===== src/Auth/Inserts.antt =====
-- The rows that the inserts of server/internal/auth/repository.go add.
use familycards.Prelude.{String, ◌≡◌, sym, ◌∙◌, not, ◌||◌, [], ◌∷◌, ◌++◌, true, false, arith}
use familycards.Prelude.Table.{exists}
use familycards.Store.{Vault, User, Device, RecoveryKey, DeviceInput, Db}
use familycards.Store.Tx.{ran, writes, pure, fail_if_passed, bind_passed, ran-inj}
use familycards.Sync.Repository.{is_vault}
use familycards.Auth.Repository.{
  Draw, is_key_of, is_user, is_device, has_login, insert_vault, insert_user, insert_device,
  insert_recovery_key, create_device, new_device, id_or_new,
}

-- A new user is a new row of the users with a new id and a new login, and nothing else changes.
pub record UserAdded (u : User) (db after : Db) : Type 0 where
  pub new_id : exists (is_user u.id) db.users ≡ false
  pub new_login : exists (has_login u.login) db.users ≡ false
  pub of_vault : exists (is_vault u.vault_id) db.vaults ≡ true
  pub written : after ≡ record db { users = db.users ++ u ∷ [] }

pub insert_user-ok :
    (u : User) (t : Unit {0}) (db after : Db)
    → insert_user u db ≡ ran (t, after)
    → UserAdded u db after
unfolding insert_user
insert_user-ok u t db after h =
    let (a, h1) =
      fail_if_passed (exists (is_user u.id) db.users || exists (has_login u.login) db.users) _ _ db
        _ h in
    let (b, h2) =
      fail_if_passed (not (exists (is_vault u.vault_id) db.vaults)) _
        (writes λ d. record d { users = d.users ++ u ∷ [] }) db _ h1 in
    record {
      new_id = ground (arith, a);
      new_login = ground (arith, a);
      of_vault = ground (arith, b);
      written = sym (ran-inj tt t _ after h2).1;
    }

pub insert_vault-ok :
    (v : Vault) (t : Unit {0}) (db after : Db)
    → insert_vault v db ≡ ran (t, after)
    → after ≡ record db { vaults = db.vaults ++ v ∷ [] }
unfolding insert_vault
insert_vault-ok v t db after h =
    let (a, h1) =
      fail_if_passed (exists (is_vault v.id) db.vaults) _
        (writes λ d. record d { vaults = d.vaults ++ v ∷ [] }) db _ h in
    sym (ran-inj tt t _ after h1).1

pub insert_recovery_key-ok :
    (r : RecoveryKey) (t : Unit {0}) (db after : Db)
    → insert_recovery_key r db ≡ ran (t, after)
    → (exists (is_key_of r.vault_id) db.recovery_keys ≡ false)
      × (after ≡ record db { recovery_keys = db.recovery_keys ++ r ∷ [] })
unfolding insert_recovery_key
insert_recovery_key-ok r t db after h =
    let (a, h1) =
      fail_if_passed (exists (is_key_of r.vault_id) db.recovery_keys) _
        (writes λ d. record d { recovery_keys = d.recovery_keys ++ r ∷ [] }) db _ h in
    (a, sym (ran-inj tt t _ after h1).1)

pub record DeviceAdded (d : Device) (db after : Db) : Type 0 where
  pub new_id : exists (is_device d.id) db.devices ≡ false
  pub of_user : exists (is_user d.user_id) db.users ≡ true
  pub written : after ≡ record db { devices = db.devices ++ d ∷ [] }

pub insert_device-ok :
    (d : Device) (t : Unit {0}) (db after : Db)
    → insert_device d db ≡ ran (t, after)
    → DeviceAdded d db after
unfolding insert_device
insert_device-ok d t db after h =
    let (a, h1) = fail_if_passed (exists (is_device d.id) db.devices) _ _ db _ h in
    let (b, h2) =
      fail_if_passed (not (exists (is_user d.user_id) db.users)) _
        (writes λ x. record x { devices = x.devices ++ d ∷ [] }) db _ h1 in
    record { new_id = a; of_user = ground (arith, b); written = sym (ran-inj tt t _ after h2).1 }

-- The row of a new device has the id that is returned.
pub create_device-new :
    (draw : Draw) (user_id refresh_hash id : String) (input : DeviceInput) (db after : Db)
    → create_device draw user_id input refresh_hash db ≡ ran (id, after)
    → (id ≡ id_or_new input.id draw.device_id)
      × (after
          ≡ record db { devices = db.devices ++ new_device draw user_id input refresh_hash ∷ [] })
unfolding create_device
create_device-new draw user_id refresh_hash id input db after h =
    let (t, mid, stored, done) = bind_passed (insert_device _ db) (λ t. pure _) _ h in
    let same = ran-inj _ id mid after done in
    (sym same.0, sym same.1 ∙ (insert_device-ok _ t db mid stored).written)

pub create_device-ok :
    (draw : Draw) (user_id refresh_hash id : String) (input : DeviceInput) (db after : Db)
    → create_device draw user_id input refresh_hash db ≡ ran (id, after)
    → (d : Device) × (after ≡ record db { devices = db.devices ++ d ∷ [] })
create_device-ok draw user_id refresh_hash id input db after h =
    (_, (create_device-new draw user_id refresh_hash id input db after h).1)
