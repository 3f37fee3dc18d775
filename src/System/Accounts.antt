-- ===== src/System/Accounts.antt =====
-- A predicate that the writes keep is kept by the requests on sessions and accounts.
use familycards.Prelude.{
  ℕ, leb, ◌==◌, String, ◌≡◌, refl, subst, inl, inr, Bool, true, false, Option, none, some,
  Bool-cases, if◌then◌else◌,
}
use familycards.Http.{Bytes, Result, ok, err, Body, parsed, malformed, decode_json}
use familycards.Store.{User, Device, Db}
use familycards.Store.Tx.{ran, with_immediate_tx, fail_if_passed, ran-inj, writes}
use familycards.Store.Keeps.{with_immediate_tx_keeps}
use familycards.Auth.Context.{Context, current_identity}
use familycards.Auth.Services.{Services}
use familycards.Auth.Repository.{
  Draw, create_device, update_device_refresh_hash, revoke_device, revoke_all_user_devices,
  count_active_devices, retired_refresh_token_user, belongs_to, is_device, revoke,
}
use familycards.Auth.Tokens.{hash_refresh_token}
use familycards.Auth.Session.{
  max_active_devices, LoginRequest, RefreshRequest, sign_in, named_device, login_tx, check_login,
  login_reply, login_checked, login, rotate_tx, rotate_reply, reuse_for, handle_possible_reuse,
  refresh_at, refresh_checked, refresh, logout_device, logout,
}
use familycards.Auth.Account.{
  PasswordChangeRequest, NewWrap, set_wrap, check_change_password, change_reply, change_checked,
  change_password,
}
use familycards.Auth.Recovery.{
  RecoveryRedeemRequest, Recovered, recover_tx, check_recovery, recovery_reply, recover_checked,
  recovery_redeem,
}
use familycards.System.Kept.{IsKept}

module _ {P : Db → Type 0} (kept : IsKept P) where
  revoke_all_keeps : (user_id : String) (db : Db) → P db → P (revoke_all_user_devices user_id db)
  unfolding revoke_all_user_devices
  revoke_all_keeps user_id db p =
      kept.devices_updated (belongs_to user_id) revoke db
        (record { same_id = λ d. refl; same_user = λ d. refl }) p

  refresh_hash_keeps :
      (now : ℕ) (id hash : String) (db : Db) → P db → P (update_device_refresh_hash now id hash db)
  unfolding update_device_refresh_hash
  refresh_hash_keeps now id hash db p =
      kept.devices_updated (is_device id) _ db
        (record { same_id = λ d. refl; same_user = λ d. refl }) p

  sign_in_keeps :
      (draw : Draw) (req : LoginRequest) (user : User) (hash id : String) (o : Option Device)
      (db after : Db)
      → P db
      → sign_in draw req user hash o db ≡ ran (id, after)
      → P after
  sign_in_keeps draw req user hash id (some d) db after p h =
      subst P (ran-inj _ id _ after h).1 (refresh_hash_keeps _ d.id hash db p)
  sign_in_keeps draw req user hash id none db after p h =
      kept.device_added draw user.id hash id req.device db after p
        (fail_if_passed (leb max_active_devices (count_active_devices user.vault_id db)) _
          (create_device draw user.id req.device hash) db _ h).1

  rotate_keeps :
      (now : ℕ) (device : Device) (hash new_hash : String) (db after : Db) (t : Unit {0})
      → P db
      → rotate_tx now device hash new_hash db ≡ ran (t, after)
      → P after
  unfolding rotate_tx
  rotate_keeps now device hash new_hash db after t p h =
      subst P (ran-inj tt t _ after h).1 (
        refresh_hash_keeps now device.id new_hash _
          (kept.hash_retired now device.user_id hash db p))

  recover_keeps :
      (draw : Draw) (r : Recovered) (hash id : String) (db after : Db)
      → P db
      → recover_tx draw r hash db ≡ ran (id, after)
      → P after
  unfolding recover_tx
  recover_keeps draw r hash id db after p h =
      kept.device_added draw r.user.id hash id r.device _ after
        (revoke_all_keeps r.user.id _ (kept.rewrapped r.wrap db p)) h

  if_keeps : {R : Type 0} (b : Bool) (x y : R × Db) → P x.1 → P y.1 → P (if b then x else y).1
  if_keeps true x y p q = p
  if_keeps false x y p q = q

  module _ (services : Services) (secret : String) where
    login_reply_keeps :
        (now : ℕ) (raw : String) (user : User) (out : Result String × Db)
        → P out.1
        → P (login_reply services secret now raw user out).1
    login_reply_keeps now raw user (ok id, db) p = p
    login_reply_keeps now raw user (err e, db) p = p

    login_checked_keeps :
        (draw : Draw) (raw : String) (r : Result (LoginRequest × User)) (db : Db)
        → P db
        → P (login_checked services secret draw raw r db).1
    unfolding login_tx
    login_checked_keeps draw raw (err e) db p = p
    login_checked_keeps draw raw (ok (req, user)) db p =
        let hash = hash_refresh_token services raw in
        login_reply_keeps draw.now raw user _ (
          with_immediate_tx_keeps P (login_tx draw req user hash) db p (λ id after h.
            sign_in_keeps draw req user hash id (named_device req user db) db after p h))

    pub login_keeps :
        (draw : Draw) (raw : String) (body : Body LoginRequest) (db : Db)
        → P db
        → P (login services secret draw raw body db).1
    unfolding login
    login_keeps draw raw body db p =
        login_checked_keeps draw raw (check_login services secret body db) db p

    reuse_keeps : (o : Option String) (db : Db) → P db → P (reuse_for services secret o db).1
    reuse_keeps none db p = p
    reuse_keeps (some user_id) db p = revoke_all_keeps user_id db p

    rotate_reply_keeps :
        (now : ℕ) (raw : String) (device : Device) (out : Result (Unit {0}) × Db)
        → P out.1
        → P (rotate_reply services secret now raw device out).1
    rotate_reply_keeps now raw device (ok t, db) p = p
    rotate_reply_keeps now raw device (err e, db) p = p

    refresh_at_keeps :
        (now : ℕ) (raw hash : String) (o : Option Device) (db : Db)
        → P db
        → P (refresh_at services secret now raw hash o db).1
    unfolding handle_possible_reuse
    refresh_at_keeps now raw hash none db p = reuse_keeps (retired_refresh_token_user hash db) db p
    refresh_at_keeps now raw hash (some device) db p = if_keeps device.revoked _ _ p (
        rotate_reply_keeps now raw device _ (
          with_immediate_tx_keeps P (rotate_tx now device hash (hash_refresh_token services raw)) db
            p
            (λ t after h.
              rotate_keeps now device hash (hash_refresh_token services raw) db after t p h)))

    refresh_checked_keeps :
        (now : ℕ) (raw : String) (r : Result RefreshRequest) (db : Db)
        → P db
        → P (refresh_checked services secret now raw r db).1
    refresh_checked_keeps now raw (err e) db p = p
    refresh_checked_keeps now raw (ok req) db p =
        if_keeps (req.refresh_token == "") _ _ p (refresh_at_keeps now raw _ _ db p)

    pub refresh_keeps :
        (now : ℕ) (raw : String) (body : Body RefreshRequest) (db : Db)
        → P db
        → P (refresh services secret now raw body db).1
    unfolding refresh
    refresh_keeps now raw body db p = refresh_checked_keeps now raw (decode_json body) db p

    logout_device_keeps :
        (o : Option Device) (db : Db) → P db → P (logout_device services secret o db)
    unfolding revoke_device
    logout_device_keeps none db p = p
    logout_device_keeps (some d) db p =
        kept.devices_updated (is_device d.id) revoke db
          (record { same_id = λ d. refl; same_user = λ d. refl }) p

    pub logout_keeps :
        (body : Body RefreshRequest) (db : Db) → P db → P (logout services secret body db).1
    unfolding logout
    logout_keeps (malformed m) db p = p
    logout_keeps (parsed req) db p = elim (Bool-cases (req.refresh_token == "")) [
      | inl empty ↦ rw empty p
      | inr given ↦ rw given (logout_device_keeps _ db p)
    ]

    recovery_reply_keeps :
        (now : ℕ) (raw : String) (user : User) (out : Result String × Db)
        → P out.1
        → P (recovery_reply services secret now raw user out).1
    recovery_reply_keeps now raw user (ok id, db) p = p
    recovery_reply_keeps now raw user (err e, db) p = p

    recover_checked_keeps :
        (draw : Draw) (raw : String) (r : Result Recovered) (db : Db)
        → P db
        → P (recover_checked services secret draw raw r db).1
    unfolding recover_checked
    recover_checked_keeps draw raw (err e) db p = p
    recover_checked_keeps draw raw (ok r) db p = recovery_reply_keeps draw.now raw r.user _ (
        with_immediate_tx_keeps P (recover_tx draw r (hash_refresh_token services raw)) db p
          (λ id after h. recover_keeps draw r (hash_refresh_token services raw) id db after p h))

    pub recovery_redeem_keeps :
        (draw : Draw) (salt : Bytes) (raw : String) (body : Body RecoveryRedeemRequest) (db : Db)
        → P db
        → P (recovery_redeem services secret draw salt raw body db).1
    unfolding recovery_redeem
    recovery_redeem_keeps draw salt raw body db p =
        recover_checked_keeps draw raw (check_recovery services secret salt body db) db p

  module _ (services : Services) where
    change_reply_keeps : (out : Result (Unit {0}) × Db) → P out.1 → P (change_reply services out).1
    change_reply_keeps (ok t, db) p = p
    change_reply_keeps (err e, db) p = p

    change_checked_keeps :
        (r : Result NewWrap) (db : Db) → P db → P (change_checked services r db).1
    unfolding change_checked
    change_checked_keeps (err e) db p = p
    change_checked_keeps (ok w) db p =
        change_reply_keeps (with_immediate_tx (writes (set_wrap w)) db) (
          with_immediate_tx_keeps P (writes (set_wrap w)) db p
            (λ t after h. subst P (ran-inj tt t _ after h).1 (kept.rewrapped w db p)))

    pub change_password_keeps :
        (salt : Bytes) (ctx : Context) (body : Body PasswordChangeRequest) (db : Db)
        → P db
        → P (change_password services salt ctx body db).1
    unfolding change_password
    change_password_keeps salt ctx body db p =
        change_checked_keeps (check_change_password services salt (current_identity ctx) body db) db
          p
