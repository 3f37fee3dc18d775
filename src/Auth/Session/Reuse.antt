-- ===== src/Auth/Session/Reuse.antt =====
-- Rotation and replay of refresh tokens: `Refresh` and `handlePossibleReuse` of
-- server/internal/auth/handlers.go.
use familycards.Prelude.{
  ℕ, ◌≤◌, String, ◌==◌, ◌≡◌, refl, ap, ◌∙◌, inl, inr, Bool, true, false, Option, none, some, List,
  [], ◌∷◌, ◌++◌, is_some, arith, eq_refl, ==→≡, Bool-cases, Option-cases,
}
use mathlib.Core.Bool.{false≢true}
use familycards.Prelude.Table.{
  find, count, update, exists, when, Option-map, find-update, is_some-find, exists-append,
}
use familycards.Http.{Body, parsed, status_of, Result, ok, err, write_error, unauthorized}
use familycards.Store.{User, Device, RetiredToken, Db}
use familycards.Store.Tx.{with_immediate_tx}
use familycards.Auth.Context.{Identity}
use familycards.Auth.Services.{Services}
use familycards.Auth.Repository.{
  is_device, is_user, has_hash, belongs_to, revoke, is_retired, get_device_by_id, get_user_by_id,
  get_device_by_refresh_hash, retire_refresh_hash, update_device_refresh_hash,
  retired_refresh_token_user, revoke_all_user_devices,
}
use familycards.Auth.Tokens.{hash_refresh_token}
use familycards.Auth.Middleware.{Authorization, require_auth}
use familycards.Auth.Middleware.Sound.{require_auth-IsAuthenticated}
use familycards.Auth.Session.{RefreshRequest, refresh, refreshed, rotate_tx, handle_possible_reuse}

-- A device that is found after the revocation is revoked if it is the user's.
revoked-of :
    (user_id : String) (o : Option Device) (d : Device)
    → Option-map (when (belongs_to user_id) revoke) o ≡ some d
    → (d.user_id == user_id) ≡ true
    → d.revoked ≡ true
revoked-of user_id none d h same = cc
revoked-of user_id (some x) d h same = ground (arith, h, same)

pub revoked_after :
    (user_id id : String) (db : Db) (d : Device)
    → get_device_by_id id (revoke_all_user_devices user_id db) ≡ some d
    → (d.user_id == user_id) ≡ true
    → d.revoked ≡ true
unfolding get_device_by_id revoke_all_user_devices
revoked_after user_id id db d h same =
    let k = find-update (is_device id) (belongs_to user_id) revoke db.devices (λ x. refl) in
    revoked-of user_id _ d (rw k at h) same

abbrev new_hash_of : ℕ → String → Device → Device
new_hash_of now hash d = record d { refresh_hash = hash; last_seen_at = now }

-- The old hash is no device's after the rotation.
find-rotated_none :
    (now : ℕ) (old new id : String) (ds : List Device)
    → (new == old) ≡ false
    → count (has_hash old) ds ≤ 0
    → find (has_hash old) (update (is_device id) (new_hash_of now new) ds) ≡ none
unfolding find count update
find-rotated_none now old new id [] fresh zero = refl
find-rotated_none now old new id (d ∷ ds) fresh zero =
    ground (arith, find-rotated_none now old new id ds, fresh)

find-rotated :
    (now : ℕ) (old new : String) (ds : List Device) (d : Device)
    → (new == old) ≡ false
    → find (has_hash old) ds ≡ some d
    → count (has_hash old) ds ≤ 1
    → find (has_hash old) (update (is_device d.id) (new_hash_of now new) ds) ≡ none
unfolding find count update
find-rotated now old new [] d fresh found one = cc
find-rotated now old new (x ∷ ds) d fresh found one = ground (
  arith,
  find-rotated_none now old new d.id ds,
  find-rotated now old new ds d,
  found,
  fresh,
  eq_refl d.id,
)

-- A hash that is retired has a user.
retired_there :
    (now : ℕ) (user_id hash : String) (db : Db)
    → is_some (find (is_retired hash) (retire_refresh_hash now user_id hash db).retired) ≡ true
unfolding retire_refresh_hash exists
retired_there now user_id hash db = elim (Bool-cases (exists (is_retired hash) db.retired)) [
  | inl there ↦ rw (there, is_some-find (is_retired hash) db.retired) there
  | inr absent ↦
      let t : RetiredToken = record { hash = hash; user_id = user_id; retired_at = now } in
      rw
        (
          absent,
          is_some-find (is_retired hash) (db.retired ++ t ∷ []),
          exists-append (is_retired hash) db.retired (t ∷ []),
        )
        (ground (arith, absent, eq_refl hash))
]

-- Retiring a hash leaves the devices and the users alone.
retire_others :
    (now : ℕ) (user_id hash : String) (db : Db)
    → ((retire_refresh_hash now user_id hash db).devices ≡ db.devices)
      × ((retire_refresh_hash now user_id hash db).users ≡ db.users)
unfolding retire_refresh_hash
retire_others now user_id hash db = elim (Bool-cases (exists (is_retired hash) db.retired)) [
  | inl there ↦ rw there (refl, refl)
  | inr absent ↦ rw absent (refl, refl)
]

-- The database after a rotation.
abbrev rotated : ℕ → Device → String → String → Db → Db
rotated now device hash new_hash db =
    update_device_refresh_hash now device.id new_hash
      (retire_refresh_hash now device.user_id hash db)

find_user-rotated :
    (now : ℕ) (device : Device) (old new id : String) (db : Db)
    → get_user_by_id id (rotated now device old new db) ≡ get_user_by_id id db
unfolding get_user_by_id update_device_refresh_hash
find_user-rotated now device old new id db =
    ap (find (is_user id)) (retire_others now device.user_id old db).1

find_device-rotated :
    (now : ℕ) (device : Device) (old new : String) (db : Db)
    → (new == old) ≡ false
    → get_device_by_refresh_hash old db ≡ some device
    → count (has_hash old) db.devices ≤ 1
    → get_device_by_refresh_hash old (rotated now device old new db) ≡ none
unfolding get_device_by_refresh_hash update_device_refresh_hash
find_device-rotated now device old new db fresh found one =
    ap (λ ds. find (has_hash old) (update (is_device device.id) (new_hash_of now new) ds))
      (retire_others now device.user_id old db).0
    ∙ find-rotated now old new db.devices device fresh found one

retired_user-rotated :
    (now : ℕ) (device : Device) (old new : String) (db : Db)
    → (u : String) × (retired_refresh_token_user old (rotated now device old new db) ≡ some u)
unfolding retired_refresh_token_user update_device_refresh_hash
retired_user-rotated now device old new db =
    let there = retired_there now device.user_id old db in
    elim (Option-cases
      (find (is_retired old) (retire_refresh_hash now device.user_id old db).retired)) [
        | inl absent ↦ absurd (false≢true (rw absent at there))
        | inr (t, found) ↦ (t.user_id, rw found refl)
      ]

-- The request passed the bearer check as the user.
abbrev pub passes_as : String → Result Identity → Bool
passes_as user_id (ok id) = id.user_id == user_id
passes_as user_id (err e) = false

abbrev pub request : String → Body RefreshRequest
request token = parsed (record { refresh_token = token })

module _ (services : Services) (secret : String) where
  locked :
      (later : ℕ) (user_id : String) (header : Authorization) (db : Db) (r : Result Identity)
      → require_auth services secret later header (revoke_all_user_devices user_id db) ≡ r
      → passes_as user_id r ≡ false
  locked later user_id header db (err e) passed = refl
  locked later user_id header db (ok id) passed =
      let a = require_auth-IsAuthenticated services secret later header _ id passed in
      elim (Bool-cases (id.user_id == user_id)) [
        | inl same ↦
            let own = rw (==→≡ id.user_id user_id same) at a.own_device in
            cc (a.not_revoked, revoked_after user_id id.device_id db a.device a.known_device own)
        | inr differs ↦ differs
      ]

  refresh-reused :
      (now : ℕ) (new_raw token user_id : String) (db : Db)
      → (token == "") ≡ false
      → get_device_by_refresh_hash (hash_refresh_token services token) db ≡ none
      → retired_refresh_token_user (hash_refresh_token services token) db ≡ some user_id
      → refresh services secret now new_raw (request token) db ≡ (
        write_error (unauthorized "refresh token reuse detected, all devices revoked"),
        revoke_all_user_devices user_id db,
      )
  unfolding refresh handle_possible_reuse
  refresh-reused now new_raw token user_id db full unknown retired =
      rw (full, unknown, retired) refl

  -- A refresh token that is presented, is no device's and was retired for a user gets the reply 401;
  -- and after it no request passes the bearer check as that user, whenever it comes and whatever its
  -- header.
  pub refresh_reuse_locks_out :
      (now later : ℕ) (new_raw token user_id : String) (header : Authorization) (db : Db)
      → (token == "") ≡ false
      → get_device_by_refresh_hash (hash_refresh_token services token) db ≡ none
      → retired_refresh_token_user (hash_refresh_token services token) db ≡ some user_id
      → (status_of (refresh services secret now new_raw (request token) db).0 ≡ 401)
        × (passes_as user_id (
              require_auth services secret later header
                (refresh services secret now new_raw (request token) db).1)
            ≡ false)
  refresh_reuse_locks_out now later new_raw token user_id header db full unknown retired =
      let e = refresh-reused now new_raw token user_id db full unknown retired in
      rw e (refl, locked later user_id header db _ refl)

  refresh-rotated :
      (now : ℕ) (new_raw token : String) (device : Device) (user : User) (db : Db)
      → (token == "") ≡ false
      → get_device_by_refresh_hash (hash_refresh_token services token) db ≡ some device
      → device.revoked ≡ false
      → get_user_by_id device.user_id db ≡ some user
      → refresh services secret now new_raw (request token) db ≡ (
        refreshed services secret now new_raw device (some user),
        rotated now device
            (hash_refresh_token services token)
            (hash_refresh_token services new_raw)
            db,
      )
  unfolding refresh rotate_tx with_immediate_tx
  refresh-rotated now new_raw token device user db full known alive account =
      rw
        (
          full,
          known,
          alive,
          find_user-rotated now device (hash_refresh_token services token)
              (hash_refresh_token services new_raw) device.user_id db,
          account,
        )
        refl

  -- When a refresh token of one device at most, which is not revoked and whose user is known, is
  -- presented twice, and the draw of the new token does not have its hash, then the first reply is 200
  -- and the second, in the database that the first leaves, is 401.
  pub refresh_once :
      (now later : ℕ) (new_raw newer_raw token : String) (device : Device) (user : User) (db : Db)
      → (token == "") ≡ false
      → get_device_by_refresh_hash (hash_refresh_token services token) db ≡ some device
      → device.revoked ≡ false
      → get_user_by_id device.user_id db ≡ some user
      → count (has_hash (hash_refresh_token services token)) db.devices ≤ 1
      → (hash_refresh_token services new_raw == hash_refresh_token services token) ≡ false
      → (status_of (refresh services secret now new_raw (request token) db).0 ≡ 200)
        × (status_of
              (refresh services secret later newer_raw
                (request token)
                (refresh services secret now new_raw (request token) db).1).0
            ≡ 401)
  refresh_once now later new_raw newer_raw token device user db full known alive account one fresh =
      let old = hash_refresh_token services token in
      let new = hash_refresh_token services new_raw in
      let after = rotated now device old new db in
      let e = refresh-rotated now new_raw token device user db full known alive account in
      let (u, retired) = retired_user-rotated now device old new db in
      let reused =
        refresh-reused later newer_raw token u after full
          (find_device-rotated now device old new db fresh known one) retired in
      rw e (refl, rw reused refl)
