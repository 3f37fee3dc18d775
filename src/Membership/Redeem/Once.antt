-- ===== src/Membership/Redeem/Once.antt =====
-- The database after `RedeemInvite` of server/internal/membership/handlers.go.
use familycards.Prelude.{
  ℕ, ◌≤◌, leb, String, ◌≡◌, refl, sym, subst, ap, ◌∙◌, Bool, true, false, not, some, List, [], ◌∷◌,
  ◌++◌, is_some, arith,
}
use familycards.Prelude.Table.{find, count, update, exists, find-update, find_sound, count-append}
use familycards.Http.{not_found, missing, gone}
use familycards.Store.{Vault, User, Device, Invite, Db}
use familycards.Store.Tx.{ran, aborted, pure, fail_if_passed, or_fail_passed, bind_passed, ran-inj}
use familycards.Auth.Repository.{
  Draw, is_active_in, get_vault, count_active_users, get_user_by_login, count_active_devices,
  insert_user, create_user_in_vault, create_device,
}
use familycards.Auth.Inserts.{insert_user-ok, create_device-ok}
use familycards.Membership.Repository.{
  is_open, has_code, is_unused, use_at, get_invite_row, mark_invite_used,
}
use familycards.Membership.Redeem.{
  NewMember, NewIds, admit, redeem_tx, max_active_devices_per_vault,
}

pub count-one : (p : User → Bool) (u : User) → count p (u ∷ []) ≤ 1
unfolding count
count-one p u = ground arith

-- The invite, and the room that was seen.
pub record Admitted (draw : Draw) (code_hash : String) (inv : Invite) (db mid : Db) : Type 0 where
  found : get_invite_row code_hash db ≡ some inv
  open_at : is_open draw.now inv ≡ true
  pub vault : Vault
  pub found_vault : get_vault inv.vault_id db ≡ some vault
  pub room : leb vault.max_users (count_active_users inv.vault_id db) ≡ false
  same_db : mid ≡ db

admit-Admitted :
    (draw : Draw) (code_hash login : String) (inv : Invite) (db mid : Db)
    → admit draw code_hash login db ≡ ran (inv, mid)
    → Admitted draw code_hash inv db mid
unfolding admit
admit-Admitted draw code_hash login inv db mid h =
    let (i, found, h1) =
      or_fail_passed (missing "invite not found") (get_invite_row code_hash db) _ db _ h in
    let (open_at, h2) = fail_if_passed (not (is_open draw.now i)) _ _ db _ h1 in
    let (vault, found_vault, h3) = or_fail_passed not_found (get_vault i.vault_id db) _ db _ h2 in
    let (room, h4) =
      fail_if_passed (leb vault.max_users (count_active_users i.vault_id db)) _ _ db _ h3 in
    let (free, h5) = fail_if_passed (is_some (get_user_by_login login db)) _ _ db _ h4 in
    let (few, h6) =
      fail_if_passed (leb max_active_devices_per_vault (count_active_devices i.vault_id db)) _
        (pure i) db _ h5 in
    let same = ran-inj i inv db mid h6 in
    subst (λ j. Admitted draw code_hash j db mid) same.0
      (record {
        found = found;
        open_at = ground (arith, open_at);
        vault = vault;
        found_vault = found_vault;
        room = room;
        same_db = sym same.1;
      })

pub admit-same_db :
    (draw : Draw) (code_hash login : String) (inv : Invite) (db mid : Db)
    → admit draw code_hash login db ≡ ran (inv, mid)
    → mid ≡ db
admit-same_db draw code_hash login inv db mid h =
    (admit-Admitted draw code_hash login inv db mid h).same_db

-- The database after the invite is redeemed by a user with a device.
abbrev pub redeemed : ℕ → String → User → Device → Db → Db
redeemed now code_hash u d db = record db {
  invites = update (is_unused code_hash) (use_at now) db.invites;
  users = db.users ++ u ∷ [];
  devices = db.devices ++ d ∷ [];
}

create_user_in_vault-ok :
    (draw : Draw) (v : String) (m : NewMember) (id : String) (db after : Db)
    → create_user_in_vault draw v m.login m.display_name m.password_hash m.kdf_salt m.kdf_params
        m.wrapped_vault_key m.wrap_nonce db
      ≡ ran (id, after)
    → (u : User) × (u.vault_id ≡ v) × (after ≡ record db { users = db.users ++ u ∷ [] })
unfolding create_user_in_vault
create_user_in_vault-ok draw v m id db after h =
    let (t, mid, stored, done) = bind_passed (insert_user _ db) (λ t. pure draw.user_id) _ h in
    (
      _,
      refl,
      sym (ran-inj draw.user_id id mid after done).1 ∙ (insert_user-ok _ t db mid stored).written,
    )

pub record Redeemed (draw : Draw) (code_hash : String) (db after : Db) : Type 0 where
  pub inv : Invite
  pub admitted : Admitted draw code_hash inv db db
  pub new_user : User
  pub new_device : Device
  pub of_vault : new_user.vault_id ≡ inv.vault_id
  pub written : after ≡ redeemed draw.now code_hash new_user new_device db

-- The writes of the steps, one after another.
written-steps :
    (now : ℕ) (code_hash : String) (u : User) (d : Device) (db db1 db2 db3 after : Db)
    → db1 ≡ db
    → db2 ≡ (record db1 {
      invites = update (is_unused code_hash) (use_at now) db1.invites;
      users = db1.users ++ u ∷ [];
    })
    → db3 ≡ record db2 { devices = db2.devices ++ d ∷ [] }
    → db3 ≡ after
    → after ≡ redeemed now code_hash u d db
written-steps now code_hash u d db db1 db2 db3 after e1 e2 e3 e4 =
    sym e4
    ∙ e3
    ∙ ap (λ (x : Db). record x { devices = x.devices ++ d ∷ [] }) e2
    ∙ ap (redeemed now code_hash u d) e1

pub redeem_tx-Redeemed :
    (draw : Draw) (code_hash refresh_hash : String) (m : NewMember) (ids : NewIds) (db after : Db)
    → redeem_tx draw code_hash m refresh_hash db ≡ ran (ids, after)
    → Redeemed draw code_hash db after
unfolding redeem_tx mark_invite_used
redeem_tx-Redeemed draw code_hash refresh_hash m ids db after h =
    let (inv, db1, h1, k1) = bind_passed (admit draw code_hash m.login db) _ _ h in
    let a = admit-Admitted draw code_hash m.login inv db db1 h1 in
    let (fresh, k2) = fail_if_passed (not (exists (is_unused code_hash) db1.invites)) _ _ _ _ k1 in
    let (user_id, db2, h2, k3) =
      bind_passed (create_user_in_vault draw inv.vault_id m.login _ _ _ _ _ _ _) _ _ k2 in
    let (u, of_vault, e2) = create_user_in_vault-ok draw inv.vault_id m user_id _ db2 h2 in
    let (device_id, db3, h3, k4) =
      bind_passed (create_device draw user_id m.device refresh_hash db2) _ _ k3 in
    let (d, e3) = create_device-ok draw user_id refresh_hash device_id m.device db2 db3 h3 in
    record {
      inv = inv;
      admitted = subst (λ x. Admitted draw code_hash inv db x) a.same_db a;
      new_user = u;
      new_device = d;
      of_vault = of_vault;
      written =
          written-steps draw.now code_hash u d db db1 db2 db3 after a.same_db e2 e3
            (ran-inj _ ids db3 after k4).1;
    }

-- After the update the invite of the code is used.
find-used :
    (now later : ℕ) (code_hash : String) (inv : Invite) (invites : List Invite)
    → find (has_code code_hash) invites ≡ some inv
    → is_open now inv ≡ true
    → (used : Invite) × (find
          (has_code code_hash)
          (update (is_unused code_hash) (use_at now) invites)
        ≡ some used)
      × (is_open later used ≡ false)
find-used now later code_hash inv invites found open_at =
    let same = find_sound (has_code code_hash) invites inv found in
    let k =
      find-update (has_code code_hash) (is_unused code_hash) (use_at now) invites (λ x. refl) in
    let hit : is_unused code_hash inv ≡ true = ground (arith, same, open_at) in
    (use_at now inv, rw (k, found, hit) refl, refl)

-- When a redemption of an invite has committed, another one with the same code in the database that
-- it left, with whatever login and at whatever time, stops with "invite no longer valid" before it has
-- written anything.
pub redeem_tx_once :
    (draw later : Draw) (code_hash refresh_hash refresh_hash' : String) (m m' : NewMember)
    (ids : NewIds) (db after : Db)
    → redeem_tx draw code_hash m refresh_hash db ≡ ran (ids, after)
    → redeem_tx later code_hash m' refresh_hash' after
      ≡ aborted (gone "invite no longer valid", after)
unfolding redeem_tx admit get_invite_row
redeem_tx_once draw later code_hash refresh_hash refresh_hash' m m' ids db after h =
    let r = redeem_tx-Redeemed draw code_hash refresh_hash m ids db after h in
    let (used, found, shut) =
      find-used draw.now later.now code_hash r.inv db.invites r.admitted.found r.admitted.open_at in
    rw (r.written, found, shut) refl

-- If a redemption commits, then there is an invite of the code, and the vault of that invite has a
-- row and, with the new user, no more users who are not disabled than it may have.
pub redeem_tx_fits :
    (draw : Draw) (code_hash refresh_hash : String) (m : NewMember) (ids : NewIds) (db after : Db)
    → redeem_tx draw code_hash m refresh_hash db ≡ ran (ids, after)
    → (inv : Invite) × (vault : Vault) × (get_invite_row code_hash db ≡ some inv)
      × (get_vault inv.vault_id after ≡ some vault)
      × (count_active_users inv.vault_id after ≤ vault.max_users)
unfolding get_vault count_active_users
redeem_tx_fits draw code_hash refresh_hash m ids db after h =
    let r = redeem_tx-Redeemed draw code_hash refresh_hash m ids db after h in
    let v = r.inv.vault_id in
    let more = count-append (is_active_in v) db.users (r.new_user ∷ []) in
    (
      r.inv,
      r.admitted.vault,
      r.admitted.found,
      subst (λ x. get_vault v x ≡ some r.admitted.vault) (sym r.written) r.admitted.found_vault,
      subst (λ x. count_active_users v x ≤ r.admitted.vault.max_users) (sym r.written)
          (ground (arith, r.admitted.room, more, count-one (is_active_in v) r.new_user)),
    )
