-- ===== src/Auth/Account/Password.antt =====
-- The account after `ChangePassword` of server/internal/auth/handlers.go.
use familycards.Prelude.{
  String, ◌==◌, ◌≡◌, refl, sym, ap, ◌∙◌, Bool, true, false, not, ◌||◌, some, arith, eq_refl, ==→≡,
  if◌then◌else◌,
}
use familycards.Prelude.Table.{find-update, find_sound}
use familycards.Http.{
  Base64, Bytes, ok, err, json, parsed, status_of, decode_binary_field, unauthorized, bad_request,
  bind-ok, result-inj, unless-ok,
}
use familycards.Store.{User, Device, DeviceInput, Db}
use familycards.Store.Tx.{with_immediate_tx}
use familycards.Auth.Context.{Identity, Context, current_identity}
use familycards.Auth.Services.{Services}
use familycards.Auth.Repository.{
  Draw, find_user_device, get_device_by_id, has_login, is_user, get_user_by_login, get_user_by_id,
  update_user_password_and_wrap,
}
use familycards.Auth.Middleware.{or_unauthorized}
use familycards.Auth.Session.{
  LoginRequest, LoginResponse, authenticate, verified, check_login, login_tx, login,
}
use familycards.Auth.Account.{
  PasswordChangeRequest, NewWrap, set_wrap, new_wrap, check_change_password, change_checked,
  change_password,
}

decode-encoded :
    (b64 : Base64) (field : String) (b : Bytes)
    → decode_binary_field b64 field (b64.encode b) ≡ ok b
decode-encoded b64 field b = rw (decode_binary_field, b64.decode-encode b) refl

-- The row of a user after the change.
abbrev wrapped : NewWrap → User → User
wrapped w u = record u {
  password_hash = w.password_hash;
  kdf_salt = w.kdf_salt;
  kdf_params = w.kdf_params;
  wrapped_vault_key = w.wrapped_vault_key;
  wrap_nonce = w.wrap_nonce;
}

get_user_by_login-set_wrap :
    (w : NewWrap) (login : String) (user : User) (db : Db)
    → get_user_by_login login db ≡ some user
    → (user.id == w.user_id) ≡ true
    → get_user_by_login login (set_wrap w db) ≡ some (wrapped w user)
unfolding get_user_by_login update_user_password_and_wrap
get_user_by_login-set_wrap w login user db found same =
    let k = find-update (has_login login) (is_user w.user_id) (wrapped w) db.users (λ x. refl) in
    rw (k, found, same) refl

abbrev is_blank : PasswordChangeRequest → Bool
is_blank req =
    req.old_password == ""
    || req.new_password == ""
    || req.kdf_salt == ""
    || req.wrapped_vault_key == ""
    || req.wrap_nonce == ""

module _ (services : Services) (secret : String) where
  new_wrap-ok :
      (salt : Bytes) (req : PasswordChangeRequest) (user : User) (w : NewWrap)
      → new_wrap services salt req user ≡ ok w
      → (w.user_id ≡ user.id)
        × (w.password_hash ≡ services.hash_password salt req.new_password)
        × (decode_binary_field services.b64 "wrapped_vault_key" req.wrapped_vault_key
            ≡ ok w.wrapped_vault_key)
        × (w.kdf_params ≡ req.kdf_params)
  unfolding new_wrap
  new_wrap-ok salt req user w h =
      let (kdf_salt, h1, k1) =
        bind-ok (decode_binary_field services.b64 "kdf_salt" req.kdf_salt) _ w h in
      let (vk, h2, k2) =
        bind-ok (decode_binary_field services.b64 "wrapped_vault_key" req.wrapped_vault_key) _ w
          k1 in
      let (nonce, h3, k3) =
        bind-ok (decode_binary_field services.b64 "wrap_nonce" req.wrap_nonce) _ w k2 in
      let e = result-inj _ w k3 in
      (
        sym (ap (λ (x : NewWrap). x.user_id) e),
        sym (ap (λ (x : NewWrap). x.password_hash) e),
        h2 ∙ ap (λ (x : NewWrap). ok x.wrapped_vault_key) e,
        sym (ap (λ (x : NewWrap). x.kdf_params) e),
      )

  check_change_password-ok :
      (salt : Bytes) (id : Identity) (req : PasswordChangeRequest) (w : NewWrap) (db : Db)
      → check_change_password services salt (some id) (parsed req) db ≡ ok w
      → (user : User) × (get_user_by_id id.user_id db ≡ some user)
        × (is_blank req ≡ false)
        × (verified (services.verify_password req.old_password user.password_hash) ≡ true)
        × (new_wrap services salt req user ≡ ok w)
  unfolding check_change_password
  check_change_password-ok salt id req w db h =
      let (full, h1) = unless-ok (is_blank req) (bad_request "missing required fields") _ w h in
      let (user, h2, k2) =
        bind-ok (or_unauthorized "account no longer available" (get_user_by_id id.user_id db))
          (λ u.
            if not (verified (services.verify_password req.old_password u.password_hash))
            then err (unauthorized "invalid current password")
            else new_wrap services salt req u)
          w h1 in
      let (right, h3) =
        unless-ok (not (verified (services.verify_password req.old_password user.password_hash)))
          (unauthorized "invalid current password") _ w k2 in
      (user, ground (arith, h2), full, ground (arith, right), h3)

  authenticate-ok :
      (req : LoginRequest) (user : User) (db : Db)
      → get_user_by_login req.login db ≡ some user
      → services.verify_password req.password user.password_hash ≡ some true
      → user.disabled ≡ false
      → authenticate services secret req db ≡ ok user
  unfolding authenticate
  authenticate-ok req user db found right enabled = rw (found, right, enabled) refl

  find_user_device-set_wrap :
      (w : NewWrap) (user_id device_id : String) (db : Db)
      → find_user_device user_id device_id (set_wrap w db) ≡ find_user_device user_id device_id db
  unfolding find_user_device get_device_by_id update_user_password_and_wrap
  find_user_device-set_wrap w user_id device_id db = refl

  -- A login from a device of the user, whose password it has.
  login-ok :
      (draw : Draw) (refresh_raw : String) (req : LoginRequest) (user : User) (existing : Device)
      (db : Db)
      → (req.login == "") ≡ false
      → (req.password == "") ≡ false
      → (req.device.id == "") ≡ false
      → (user.kdf_params == "") ≡ false
      → authenticate services secret req db ≡ ok user
      → find_user_device user.id req.device.id db ≡ some existing
      → (resp : LoginResponse) × ((login services secret draw refresh_raw (parsed req) db).0
          ≡ json 200 resp)
        × (resp.user_id ≡ user.id)
        × (resp.wrapped_vault_key ≡ services.b64.encode user.wrapped_vault_key)
  unfolding login check_login login_tx with_immediate_tx
  login-ok draw refresh_raw req user existing db named filled own full right there =
      rw (named, filled, right, own, there, full) (_, refl, refl, refl)

  -- When a password change passes its checks, the reply is 204. After it the caller, who is not
  -- disabled, gets the reply 200 to a login with the new password from a device of his own, with his
  -- id and the wrapped vault key of the request in it, where the request had key parameters.
  pub change_password_works :
      (salt : Bytes) (ctx : Context) (id : Identity) (req : PasswordChangeRequest) (w : NewWrap)
      (user : User) (name : String) (device : DeviceInput) (existing : Device) (draw : Draw)
      (refresh_raw : String) (db : Db)
      → current_identity ctx ≡ some id
      → check_change_password services salt (some id) (parsed req) db ≡ ok w
      → get_user_by_login name db ≡ some user
      → user.id ≡ id.user_id
      → user.disabled ≡ false
      → (name == "") ≡ false
      → (req.kdf_params == "") ≡ false
      → (device.id == "") ≡ false
      → find_user_device user.id device.id db ≡ some existing
      → (status_of (change_password services salt ctx (parsed req) db).0 ≡ 204)
        × ((resp : LoginResponse) × ((login services secret draw refresh_raw
                (parsed (record { login = name; password = req.new_password; device = device }))
                (change_password services salt ctx (parsed req) db).1).0
              ≡ json 200 resp)
            × (resp.user_id ≡ id.user_id)
            × (decode_binary_field services.b64 "wrapped_vault_key" req.wrapped_vault_key
                ≡ decode_binary_field services.b64 "wrapped_vault_key" resp.wrapped_vault_key))
  unfolding change_password change_checked with_immediate_tx get_user_by_id
  change_password_works salt ctx id req w user name device existing draw refresh_raw db caller
        checked found same enabled named params own there =
      let (known, account, full, old, made) = check_change_password-ok salt id req w db checked in
      let (own_id, hash, key, kept_params) = new_wrap-ok salt req known w made in
      let known_id =
        ==→≡ known.id id.user_id (find_sound (is_user id.user_id) db.users known account) in
      let target : user.id ≡ w.user_id = same ∙ sym known_id ∙ sym own_id in
      let hit : (user.id == w.user_id) ≡ true = rw target (eq_refl w.user_id) in
      let filled : (req.new_password == "") ≡ false = ground (arith, full) in
      let attempt : LoginRequest = record {
        login = name;
        password = req.new_password;
        device = device;
      } in
      let (resp, replied, for_user, with_key) =
        login-ok draw refresh_raw attempt (wrapped w user) existing (set_wrap w db) named filled own
          (rw kept_params params)
          (authenticate-ok attempt (wrapped w user) (set_wrap w db)
            (get_user_by_login-set_wrap w name user db found hit)
            (rw hash (services.verify-hash salt req.new_password)) enabled)
          (find_user_device-set_wrap w user.id device.id db ∙ there) in
      rw (caller, checked)
        (
          refl,
          (
            resp,
            replied,
            for_user ∙ same,
            key
                ∙ sym (
                    rw with_key
                      (decode-encoded services.b64 "wrapped_vault_key" w.wrapped_vault_key)),
          ),
        )
