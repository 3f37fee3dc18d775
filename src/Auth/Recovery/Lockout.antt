-- ===== src/Auth/Recovery/Lockout.antt =====
-- The devices after `RecoveryRedeem` of server/internal/auth/handlers.go.
use familycards.Prelude.{
  String, ℕ, ◌==◌, ◌≡◌, refl, sym, ◌∙◌, ◌⊎◌, inl, inr, Bool, true, false, some, List, [], ◌∷◌, ◌++◌,
  arith, ==→≡,
}
use familycards.Prelude.Table.{find, find_sound, find-append}
use familycards.Http.{ok}
use familycards.Store.Tx.{ran}
use familycards.Store.{Device, Db}
use familycards.Auth.Context.{Identity}
use familycards.Auth.Services.{Services}
use familycards.Auth.Repository.{
  Draw, is_device, new_device, get_device_by_id, revoke_all_user_devices,
}
use familycards.Auth.Inserts.{create_device-new}
use familycards.Auth.Middleware.{Authorization, require_auth}
use familycards.Auth.Middleware.Sound.{require_auth-IsAuthenticated}
use familycards.Auth.Session.Reuse.{revoked_after}
use familycards.Auth.Account.{set_wrap}
use familycards.Auth.Recovery.{Recovered, recover_tx}

-- A row that is found is an old one, or the one that was added.
find-added :
    (p : Device → Bool) (ds : List Device) (new d : Device)
    → find p (ds ++ new ∷ []) ≡ some d
    → (find p ds ≡ some d) ⊎ (d ≡ new)
unfolding find
find-added p ds new d h = ground (arith, find-append p ds (new ∷ []))

-- The database in which the new device is created.
abbrev pub wiped : Recovered → Db → Db
wiped r db = revoke_all_user_devices r.user.id (set_wrap r.wrap db)

-- A device of the user that is not revoked is the new one.
new_device_only :
    (draw : Draw) (r : Recovered) (refresh_hash id device_id : String) (db after : Db) (d : Device)
    → recover_tx draw r refresh_hash db ≡ ran (id, after)
    → get_device_by_id device_id after ≡ some d
    → (d.user_id == r.user.id) ≡ true
    → d.revoked ≡ false
    → d.id ≡ id
unfolding recover_tx get_device_by_id
new_device_only draw r refresh_hash id device_id db after d h found own alive =
    let (same, e) =
      create_device-new draw r.user.id refresh_hash id r.device (wiped r db) after h in
    elim (find-added (is_device device_id) (wiped r db).devices
      (new_device draw r.user.id r.device refresh_hash) d (rw e at found)) [
        | inl old ↦ cc (alive, revoked_after r.user.id device_id (set_wrap r.wrap db) d old own)
        | inr new ↦ rw (new, same) refl
      ]

-- In the database that a committed recovery leaves, a request that passes the bearer check as the
-- recovered user is one of the device that the recovery created.
pub recovery_locks_out :
    (draw : Draw) (r : Recovered) (refresh_hash device_id : String) (db after : Db)
    (services : Services) (secret : String) (now : ℕ) (header : Authorization) (id : Identity)
    → recover_tx draw r refresh_hash db ≡ ran (device_id, after)
    → require_auth services secret now header after ≡ ok id
    → id.user_id ≡ r.user.id
    → id.device_id ≡ device_id
unfolding get_device_by_id
recovery_locks_out draw r refresh_hash device_id db after services secret now header id h passed
      same =
    let a = require_auth-IsAuthenticated services secret now header after id passed in
    sym (
      ==→≡ a.device.id id.device_id
        (find_sound (is_device id.device_id) after.devices a.device a.known_device))
    ∙ new_device_only draw r refresh_hash device_id id.device_id db after a.device h a.known_device
        (rw same at a.own_device) a.not_revoked
