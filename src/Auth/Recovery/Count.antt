-- ===== src/Auth/Recovery/Count.antt =====
-- How many active devices a vault has after `RecoveryRedeem` of server/internal/auth/handlers.go,
-- which has no limit of the kind that `Login` and `RedeemInvite` have.
use familycards.Prelude.{
  ◌+◌, String, ◌==◌, ◌≡◌, refl, ap, ◌∙◌, Bool, true, not, ◌&&◌, List, [], ◌∷◌, arith,
}
use familycards.Prelude.Table.{count, update, exists, exists-update, count-append}
use familycards.Prelude.Unique.{count-same, count_hit}
use familycards.Store.Tx.{ran}
use familycards.Store.{User, Device, Db}
use familycards.Auth.Repository.{
  Draw, is_user, is_active_device, belongs_to, revoke, new_device, count_active_devices,
  update_user_password_and_wrap, revoke_all_user_devices,
}
use familycards.Auth.Inserts.{create_device-new}
use familycards.Auth.Recovery.{Recovered, recover_tx}
use familycards.Auth.Recovery.Lockout.{wiped}

-- The active devices of a vault that are not the user's.
abbrev pub is_active_other : String → String → List User → Device → Bool
is_active_other v user_id users d = is_active_device v users d && not (belongs_to user_id d)

count-revoke :
    (v user_id : String) (users : List User) (ds : List Device)
    → count (is_active_device v users) (update (belongs_to user_id) revoke ds)
      ≡ count (is_active_other v user_id users) ds
unfolding count update
count-revoke v user_id users [] = refl
count-revoke v user_id users (d ∷ ds) = ground (arith, count-revoke v user_id users ds)

-- The users keep their ids and vaults.
same_users :
    (v : String) (r : Recovered) (db : Db) (d : Device)
    → is_active_device v (wiped r db).users d ≡ is_active_device v db.users d
unfolding revoke_all_user_devices update_user_password_and_wrap
same_users v r db d =
    ap (λ b. b && not d.revoked)
      (exists-update (λ (u : User). u.id == d.user_id && u.vault_id == v) (is_user r.wrap.user_id) _
        db.users (λ u. refl))

wiped_devices :
    (r : Recovered) (db : Db)
    → (wiped r db).devices ≡ update (belongs_to r.user.id) revoke db.devices
unfolding revoke_all_user_devices update_user_password_and_wrap
wiped_devices r db = refl

-- After a recovery of a user of a vault that commits, the active devices of the vault are those of
-- its other users and the one new device, however many they are.
pub recover_tx-count :
    (draw : Draw) (r : Recovered) (refresh_hash id v : String) (db after : Db)
    → recover_tx draw r refresh_hash db ≡ ran (id, after)
    → exists (λ (u : User). u.id == r.user.id && u.vault_id == v) db.users ≡ true
    → count_active_devices v after ≡ count (is_active_other v r.user.id db.users) db.devices + 1
unfolding recover_tx count_active_devices
recover_tx-count draw r refresh_hash id v db after h member =
    let (same, e) =
      create_device-new draw r.user.id refresh_hash id r.device (wiped r db) after h in
    let new = new_device draw r.user.id r.device refresh_hash in
    let active = is_active_device v (wiped r db).users in
    let hit : active new ≡ true = same_users v r db new ∙ ap (λ b. b && true) member in
    ap (λ (x : Db). count (is_active_device v x.users) x.devices) e
    ∙ (count-append active (wiped r db).devices (new ∷ [])
        ∙ ap (λ n. n + count active (new ∷ []))
            (ap (count active) (wiped_devices r db)
              ∙ count-same active (is_active_device v db.users) _ (same_users v r db)
              ∙ count-revoke v r.user.id db.users db.devices)
        ∙ ap (λ n. count (is_active_other v r.user.id db.users) db.devices + n)
            (count_hit active new hit))
