-- ===== src/Auth/Session/Limit.antt =====
-- The device limit in `Login` of server/internal/auth/handlers.go.
use familycards.Prelude.{
  ◌≤◌, leb, String, ◌≡◌, refl, sym, subst, Bool, Option, none, some, [], ◌∷◌, arith,
}
use familycards.Prelude.Table.{count, count-update, count-append}
use familycards.Store.{User, Device, Db}
use familycards.Store.Tx.{ran, fail_if_passed, ran-inj}
use familycards.Auth.Repository.{
  Draw, is_device, is_active_device, update_device_refresh_hash, count_active_devices,
  create_device,
}
use familycards.Auth.Inserts.{create_device-ok}
use familycards.Auth.Session.{LoginRequest, max_active_devices, named_device, sign_in, login_tx}

count-one : (p : Device → Bool) (d : Device) → count p (d ∷ []) ≤ 1
unfolding count
count-one p d = ground arith

sign_in_fits :
    (draw : Draw) (req : LoginRequest) (user : User) (refresh_hash id : String) (o : Option Device)
    (db after : Db)
    → sign_in draw req user refresh_hash o db ≡ ran (id, after)
    → count_active_devices user.vault_id db ≤ 10
    → count_active_devices user.vault_id after ≤ 10
unfolding count_active_devices update_device_refresh_hash
sign_in_fits draw req user refresh_hash id (some d) db after h few =
    let p = is_active_device user.vault_id db.users in
    subst (λ x. count_active_devices user.vault_id x ≤ 10) (ran-inj _ id _ after h).1
      (rw
        (count-update p (is_device d.id)
          (λ (x : Device). record x { refresh_hash = refresh_hash; last_seen_at = draw.now })
          db.devices (λ x. refl))
        few)
sign_in_fits draw req user refresh_hash id none db after h few =
    let v = user.vault_id in
    let (room, made) =
      fail_if_passed (leb max_active_devices (count_active_devices v db)) _
        (create_device draw user.id req.device refresh_hash) db _ h in
    let (d, e) = create_device-ok draw user.id refresh_hash id req.device db after made in
    let p = is_active_device v db.users in
    subst (λ x. count_active_devices v x ≤ 10) (sym e)
      (ground (arith, room, count-append p db.devices (d ∷ []), count-one p d))

-- A vault with at most ten active devices has at most ten after the transaction of a login to it
-- has committed, whether the login named a device of the user's or got a new one.
pub login_tx_fits :
    (draw : Draw) (req : LoginRequest) (user : User) (refresh_hash id : String) (db after : Db)
    → login_tx draw req user refresh_hash db ≡ ran (id, after)
    → count_active_devices user.vault_id db ≤ 10
    → count_active_devices user.vault_id after ≤ 10
unfolding login_tx
login_tx_fits draw req user refresh_hash id db after h few =
    sign_in_fits draw req user refresh_hash id (named_device req user db) db after h few
