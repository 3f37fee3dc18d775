-- ===== src/System/Kept.antt =====
-- What each write of the requests has to keep, for a predicate on the database that the whole server
-- is to keep.
use familycards.Prelude.{ℕ, String, ◌≡◌, Bool}
use familycards.Prelude.Table.{delete}
use familycards.Http.{Base64, Body}
use familycards.Store.Tx.{ran}
use familycards.Store.{Device, DeviceInput, Invite, Db}
use familycards.Auth.Context.{Context}
use familycards.Auth.Repository.{
  Draw, BootstrapParams, create_device, update_devices, retire_refresh_hash,
}
use familycards.Auth.Bootstrap.{bootstrap_tx}
use familycards.Auth.Account.{NewWrap, set_wrap}
use familycards.Membership.Repository.{is_invite_of}
use familycards.Membership.Invites.{create_invite_tx}
use familycards.Membership.Redeem.{NewMember, NewIds, redeem_tx}
use familycards.Membership.Members.{remove_member_tx}
use familycards.Sync.Wire.{PushRequest}
use familycards.Sync.Push.{push}

-- An update of devices that leaves their ids and their users alone.
pub record IsInPlace (f : Device → Device) : Type 0 where
  pub same_id : (d : Device) → (f d).id ≡ d.id
  pub same_user : (d : Device) → (f d).user_id ≡ d.user_id

pub record IsKept (P : Db → Type 0) : Type 0 where
  pub device_added :
      (draw : Draw) (user_id hash id : String) (input : DeviceInput) (db after : Db)
      → P db
      → create_device draw user_id input hash db ≡ ran (id, after)
      → P after
  pub devices_updated :
      (p : Device → Bool) (f : Device → Device) (db : Db)
      → IsInPlace f
      → P db
      → P (update_devices p f db)
  pub rewrapped : (w : NewWrap) (db : Db) → P db → P (set_wrap w db)
  pub hash_retired :
      (now : ℕ) (user_id hash : String) (db : Db)
      → P db
      → P (retire_refresh_hash now user_id hash db)
  pub invited :
      (now : ℕ) (invite : Invite) (t : Unit {0}) (db after : Db)
      → P db
      → create_invite_tx now invite db ≡ ran (t, after)
      → P after
  pub uninvited :
      (code_hash v : String) (db : Db)
      → P db
      → P (record db { invites = delete (is_invite_of code_hash v) db.invites })
  pub redeemed :
      (draw : Draw) (code_hash hash : String) (m : NewMember) (ids : NewIds) (db after : Db)
      → P db
      → redeem_tx draw code_hash m hash db ≡ ran (ids, after)
      → P after
  pub removed :
      (v target_id : String) (db after : Db)
      → P db
      → remove_member_tx v target_id db ≡ ran (tt, after)
      → P after
  pub bootstrapped :
      (draw : Draw) (b : BootstrapParams) (ids : String × String × String) (db after : Db)
      → P db
      → bootstrap_tx draw b db ≡ ran (ids, after)
      → P after
  pub pushed :
      (b64 : Base64) (ctx : Context) (body : Body PushRequest) (db : Db)
      → P db
      → P (push b64 ctx body db).1
