-- ===== src/System/Stepwise.antt =====
-- A predicate that each single statement keeps is kept by the transactions.
use familycards.Prelude.{ℕ, leb, ◌+◌, String, ◌≡◌, refl, sym, subst, Bool, not}
use familycards.Prelude.Table.{update, delete, exists}
use familycards.Http.{Base64, not_found, Body}
use familycards.Store.{Vault, User, Device, DeviceInput, Invite, RecoveryKey, Db}
use familycards.Store.Tx.{ran, bind_passed, fail_if_passed, or_fail_passed, ran-inj, pure}
use familycards.Auth.Context.{Context}
use familycards.Auth.Repository.{
  Draw, BootstrapParams, bootstrap, insert_vault, insert_user, insert_device, insert_recovery_key,
  create_user_in_vault, create_device, is_user, belongs_to, revoke, update_users, update_devices,
  retire_refresh_hash, set_user_disabled, revoke_all_user_devices, get_vault, count_active_users,
  update_user_password_and_wrap,
}
use familycards.Auth.Account.{NewWrap, set_wrap}
use familycards.Auth.Bootstrap.{bootstrap_tx}
use familycards.Membership.Repository.{
  is_unused, use_at, is_invite_of, count_active_invites, create_invite_row, mark_invite_used,
}
use familycards.Membership.Invites.{create_invite_tx}
use familycards.Membership.Redeem.{NewMember, NewIds, admit, redeem_tx}
use familycards.Membership.Redeem.Once.{admit-same_db}
use familycards.Membership.Members.{remove_member_tx}
use familycards.Membership.Members.Removal.{remove_member_tx-Removed}
use familycards.Sync.Wire.{PushRequest}
use familycards.Sync.Push.{push}
use familycards.System.Kept.{IsInPlace, IsKept}

-- An update of users that leaves their ids, logins and vaults alone.
pub record IsUserInPlace (f : User → User) : Type 0 where
  pub same_id : (u : User) → (f u).id ≡ u.id
  pub same_login : (u : User) → (f u).login ≡ u.login
  pub same_vault : (u : User) → (f u).vault_id ≡ u.vault_id

pub record IsStepwise (P : Db → Type 0) : Type 0 where
  pub vault_inserted :
      (v : Vault) (t : Unit {0}) (db after : Db)
      → P db
      → insert_vault v db ≡ ran (t, after)
      → P after
  pub user_inserted :
      (u : User) (t : Unit {0}) (db after : Db) → P db → insert_user u db ≡ ran (t, after) → P after
  pub device_inserted :
      (d : Device) (t : Unit {0}) (db after : Db)
      → P db
      → insert_device d db ≡ ran (t, after)
      → P after
  pub recovery_key_inserted :
      (r : RecoveryKey) (t : Unit {0}) (db after : Db)
      → P db
      → insert_recovery_key r db ≡ ran (t, after)
      → P after
  pub invite_inserted :
      (i : Invite) (t : Unit {0}) (db after : Db)
      → P db
      → create_invite_row i db ≡ ran (t, after)
      → P after
  pub users_updated :
      (p : User → Bool) (f : User → User) (db : Db)
      → IsUserInPlace f
      → P db
      → P (update_users p f db)
  pub devices_updated :
      (p : Device → Bool) (f : Device → Device) (db : Db)
      → IsInPlace f
      → P db
      → P (update_devices p f db)
  pub invites_used :
      (p : Invite → Bool) (now : ℕ) (db : Db)
      → P db
      → P (record db { invites = update p (use_at now) db.invites })
  pub invites_deleted :
      (p : Invite → Bool) (db : Db) → P db → P (record db { invites = delete p db.invites })
  pub hash_retired :
      (now : ℕ) (user_id hash : String) (db : Db)
      → P db
      → P (retire_refresh_hash now user_id hash db)
  pub pushed :
      (b64 : Base64) (ctx : Context) (body : Body PushRequest) (db : Db)
      → P db
      → P (push b64 ctx body db).1

module _ {P : Db → Type 0} (stepwise : IsStepwise P) where
  device_added :
      (draw : Draw) (user_id hash id : String) (input : DeviceInput) (db after : Db)
      → P db
      → create_device draw user_id input hash db ≡ ran (id, after)
      → P after
  unfolding create_device
  device_added draw user_id hash id input db after p h =
      let (t, mid, stored, done) = bind_passed (insert_device _ db) (λ t. pure _) _ h in
      subst P (ran-inj _ id mid after done).1 (stepwise.device_inserted _ t db mid p stored)

  rewrapped : (w : NewWrap) (db : Db) → P db → P (set_wrap w db)
  unfolding update_user_password_and_wrap
  rewrapped w db =
      stepwise.users_updated (is_user w.user_id) _ db
        (record { same_id = λ u. refl; same_login = λ u. refl; same_vault = λ u. refl })

  invited :
      (now : ℕ) (i : Invite) (t : Unit {0}) (db after : Db)
      → P db
      → create_invite_tx now i db ≡ ran (t, after)
      → P after
  unfolding create_invite_tx
  invited now i t db after p h =
      let (vault, there, h1) = or_fail_passed not_found (get_vault i.vault_id db) _ db _ h in
      let (room, h2) =
        fail_if_passed
          (leb vault.max_users
            (count_active_users i.vault_id db + count_active_invites i.vault_id now db))
          _ (create_invite_row i) db _ h1 in
      stepwise.invite_inserted i t db after p h2

  redeemed :
      (draw : Draw) (code_hash hash : String) (m : NewMember) (ids : NewIds) (db after : Db)
      → P db
      → redeem_tx draw code_hash m hash db ≡ ran (ids, after)
      → P after
  unfolding redeem_tx mark_invite_used create_user_in_vault
  redeemed draw code_hash hash m ids db after p h =
      let (inv, db1, h1, k1) = bind_passed (admit draw code_hash m.login db) _ _ h in
      let p1 = subst P (sym (admit-same_db draw code_hash m.login inv db db1 h1)) p in
      let (fresh, k2) =
        fail_if_passed (not (exists (is_unused code_hash) db1.invites)) _ _ _ _ k1 in
      let p2 = stepwise.invites_used (is_unused code_hash) draw.now db1 p1 in
      let (user_id, db2, h2, k3) =
        bind_passed (create_user_in_vault draw inv.vault_id m.login _ _ _ _ _ _ _) _ _ k2 in
      let (t, mid, stored, done) = bind_passed (insert_user _ _) (λ t. pure draw.user_id) _ h2 in
      let p3 =
        subst P (ran-inj draw.user_id user_id mid db2 done).1
          (stepwise.user_inserted _ t _ mid p2 stored) in
      let (device_id, db3, h3, k4) =
        bind_passed (create_device draw user_id m.device hash db2) _ _ k3 in
      subst P (ran-inj _ ids db3 after k4).1
        (device_added draw user_id hash device_id m.device db2 db3 p3 h3)

  removed :
      (v target_id : String) (db after : Db)
      → P db
      → remove_member_tx v target_id db ≡ ran (tt, after)
      → P after
  unfolding set_user_disabled revoke_all_user_devices
  removed v target_id db after p h =
      let r = remove_member_tx-Removed v target_id db after h in
      subst P (sym r.written) (
        stepwise.devices_updated (belongs_to target_id) revoke _
          (record { same_id = λ d. refl; same_user = λ d. refl })
          (stepwise.users_updated (is_user target_id) _ db
            (record { same_id = λ u. refl; same_login = λ u. refl; same_vault = λ u. refl }) p))

  bootstrap_keeps :
      (draw : Draw) (b : BootstrapParams) (ids : String × String × String) (db after : Db)
      → P db
      → bootstrap draw b db ≡ ran (ids, after)
      → P after
  unfolding bootstrap
  bootstrap_keeps draw b ids db after p h =
      let (t1, db1, k1, h1) = bind_passed (insert_vault _ db) _ _ h in
      let (t2, db2, k2, h2) = bind_passed (insert_user _ db1) _ _ h1 in
      let (t3, db3, k3, h3) = bind_passed (insert_device _ db2) _ _ h2 in
      let (t4, db4, k4, h4) = bind_passed (insert_recovery_key _ db3) (λ t. pure _) _ h3 in
      let p1 = stepwise.vault_inserted _ t1 db db1 p k1 in
      let p2 = stepwise.user_inserted _ t2 db1 db2 p1 k2 in
      let p3 = stepwise.device_inserted _ t3 db2 db3 p2 k3 in
      subst P (ran-inj _ ids db4 after h4).1 (stepwise.recovery_key_inserted _ t4 db3 db4 p3 k4)

  pub IsStepwise-IsKept : IsKept P
  unfolding bootstrap_tx
  IsStepwise-IsKept = record {
    device_added = device_added;
    devices_updated = stepwise.devices_updated;
    rewrapped = rewrapped;
    hash_retired = stepwise.hash_retired;
    invited = invited;
    uninvited = λ code_hash v db p. stepwise.invites_deleted (is_invite_of code_hash v) db p;
    redeemed = redeemed;
    removed = removed;
    bootstrapped = λ draw b ids db after p h.
        bootstrap_keeps draw b ids db after p (fail_if_passed _ _ (bootstrap draw b) db _ h).1;
    pushed = stepwise.pushed;
  }
