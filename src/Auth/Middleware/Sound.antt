-- ===== src/Auth/Middleware/Sound.antt =====
-- Who passes the bearer check of server/internal/auth/middleware.go.
use familycards.Prelude.{ℕ, String, ◌==◌, ◌≡◌, refl, subst, true, false, Option, some, arith}
use familycards.Http.{bind-ok, result-inj, ok}
use familycards.Store.{User, Device, Db}
use familycards.Auth.Context.{Identity}
use familycards.Auth.Services.{Claims, Services}
use familycards.Auth.Repository.{get_device_by_id, get_user_by_id}
use familycards.Auth.Tokens.{parse_access_token}
use familycards.Auth.Middleware.{
  Authorization, bearer, or_unauthorized, check_device, check_user, token_of, require_auth,
}

module _ (services : Services) (secret : String) where
  -- The caller sent an access token with these ids that is valid, of a device that is not revoked
  -- and belongs to the user, who is in the vault and not disabled.
  pub record IsAuthenticated (now : ℕ) (header : Authorization) (db : Db) (id : Identity)
      : Type 0 where
    pub token : String
    pub sent : header ≡ bearer token
    pub claims : Claims
    pub valid : parse_access_token services secret now token ≡ some claims
    pub same_ids : id ≡ (record {
      user_id = claims.user_id;
      vault_id = claims.vault_id;
      device_id = claims.device_id;
    })
    pub device : Device
    pub known_device : get_device_by_id id.device_id db ≡ some device
    pub not_revoked : device.revoked ≡ false
    pub own_device : (device.user_id == id.user_id) ≡ true
    pub user : User
    pub known_user : get_user_by_id id.user_id db ≡ some user
    pub not_disabled : user.disabled ≡ false
    pub in_vault : (user.vault_id == id.vault_id) ≡ true

  token_of-ok :
      (header : Authorization) (t : String)
      → token_of services secret header ≡ ok t
      → header ≡ bearer t
  token_of-ok header t h = ground arith

  check_device-ok :
      (c : Claims) (o : Option Device) (d : Device)
      → check_device services secret c o ≡ ok d
      → (o ≡ some d) × (d.revoked ≡ false) × ((d.user_id == c.user_id) ≡ true)
  check_device-ok c o d h = ground arith

  check_user-ok :
      (c : Claims) (o : Option User) (u : User)
      → check_user services secret c o ≡ ok u
      → (o ≡ some u) × (u.disabled ≡ false) × ((u.vault_id == c.vault_id) ≡ true)
  check_user-ok c o u h = ground arith

  or_unauthorized-ok :
      (m : String) (o : Option Claims) (c : Claims) → or_unauthorized m o ≡ ok c → o ≡ some c
  or_unauthorized-ok m o c h = ground arith

  -- A request that passes the bearer check carries a valid access token; the device in it is known,
  -- not revoked and the user's, and the user is known, not disabled and of the vault in it.
  pub require_auth-IsAuthenticated :
      (now : ℕ) (header : Authorization) (db : Db) (id : Identity)
      → require_auth services secret now header db ≡ ok id
      → IsAuthenticated now header db id
  unfolding require_auth
  require_auth-IsAuthenticated now header db id h =
      let (token, h1, k1) = bind-ok (token_of services secret header) _ id h in
      let (claims, h2, k2) =
        bind-ok (or_unauthorized _ (parse_access_token services secret now token)) _ id k1 in
      let (device, h3, k3) =
        bind-ok (check_device services secret claims (get_device_by_id claims.device_id db)) _ id
          k2 in
      let (user, h4, k4) =
        bind-ok (check_user services secret claims (get_user_by_id claims.user_id db)) _ id k3 in
      let d = check_device-ok claims _ device h3 in
      let u = check_user-ok claims _ user h4 in
      subst (IsAuthenticated now header db) (result-inj _ id k4) (record {
        token = token;
        sent = token_of-ok header token h1;
        claims = claims;
        valid = or_unauthorized-ok _ _ claims h2;
        same_ids = refl;
        device = device;
        known_device = d.0;
        not_revoked = d.1;
        own_device = d.2;
        user = user;
        known_user = u.0;
        not_disabled = u.1;
        in_vault = u.2;
      })
