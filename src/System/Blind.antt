-- ===== src/System/Blind.antt =====
-- Predicates on the database that do not look at the accounts.
use familycards.Prelude.{ℕ, String, sym, subst, inl, inr, List, [], ◌∷◌, ◌++◌, Bool-cases}
use familycards.Prelude.Table.{exists}
use familycards.Http.{Base64, Body}
use familycards.Store.{Vault, User, Device, Invite, RecoveryKey, RetiredToken, Db}
use familycards.Auth.Context.{Context}
use familycards.Auth.Repository.{is_retired, retire_refresh_hash}
use familycards.Auth.Inserts.{
  insert_vault-ok, insert_user-ok, insert_device-ok, insert_recovery_key-ok,
}
use familycards.Membership.Invites.Quota.{create_invite_row-ok}
use familycards.Sync.Wire.{PushRequest}
use familycards.Sync.Push.{push}
use familycards.System.Stepwise.{IsStepwise}

-- It reads the vaults, the items and the blobs only.
pub record IsBlind (P : Db → Type 0) : Type 0 where
  pub keep :
      (us : List User) (ds : List Device) (is : List Invite) (ks : List RecoveryKey)
      (ts : List RetiredToken) (db : Db)
      → P db
      → P (record db { users = us; devices = ds; invites = is; recovery_keys = ks; retired = ts })

-- A vault can be added.
pub record Grows (P : Db → Type 0) : Type 0 where
  pub new_vault : (v : Vault) (db : Db) → P db → P (record db { vaults = db.vaults ++ v ∷ [] })

module _ {P : Db → Type 0} (blind : IsBlind P) where
  keep_users : (us : List User) (db : Db) → P db → P (record db { users = us })
  keep_users us db p = blind.keep us db.devices db.invites db.recovery_keys db.retired db p

  keep_devices : (ds : List Device) (db : Db) → P db → P (record db { devices = ds })
  keep_devices ds db p = blind.keep db.users ds db.invites db.recovery_keys db.retired db p

  keep_invites : (is : List Invite) (db : Db) → P db → P (record db { invites = is })
  keep_invites is db p = blind.keep db.users db.devices is db.recovery_keys db.retired db p

  keep_recovery_keys :
      (ks : List RecoveryKey) (db : Db) → P db → P (record db { recovery_keys = ks })
  keep_recovery_keys ks db p = blind.keep db.users db.devices db.invites ks db.retired db p

  retire_keeps :
      (now : ℕ) (user_id hash : String) (db : Db)
      → P db
      → P (retire_refresh_hash now user_id hash db)
  unfolding retire_refresh_hash
  retire_keeps now user_id hash db p = elim (Bool-cases (exists (is_retired hash) db.retired)) [
    | inl there ↦ rw there p
    | inr absent ↦ rw absent (blind.keep db.users db.devices db.invites db.recovery_keys _ db p)
  ]

  -- Such a predicate needs to be checked for a new vault and the push only.
  pub IsBlind-IsStepwise :
      Grows P
      → ((b64 : Base64) (ctx : Context) (body : Body PushRequest) (db : Db)
          → P db
          → P (push b64 ctx body db).1)
      → IsStepwise P
  IsBlind-IsStepwise grows pushed = record {
    vault_inserted =
        λ v t db after p h. subst P (sym (insert_vault-ok v t db after h)) (grows.new_vault v db p);
    user_inserted = λ u t db after p h.
        subst P (sym (insert_user-ok u t db after h).written) (keep_users _ db p);
    device_inserted = λ d t db after p h.
        subst P (sym (insert_device-ok d t db after h).written) (keep_devices _ db p);
    recovery_key_inserted = λ r t db after p h.
        subst P (sym (insert_recovery_key-ok r t db after h).1) (keep_recovery_keys _ db p);
    invite_inserted = λ i t db after p h.
        subst P (sym (create_invite_row-ok i t db after h).1) (keep_invites _ db p);
    users_updated = λ p f db in_place h. keep_users _ db h;
    devices_updated = λ p f db in_place h. keep_devices _ db h;
    invites_used = λ p now db h. keep_invites _ db h;
    invites_deleted = λ p db h. keep_invites _ db h;
    hash_retired = retire_keeps;
    pushed = pushed;
  }
