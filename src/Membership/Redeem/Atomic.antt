-- ===== src/Membership/Redeem/Atomic.antt =====
-- All or nothing: `RedeemInvite` of server/internal/membership/handlers.go with the rollback of
-- `WithImmediateTx` of server/internal/storage/storage.go.
use familycards.Prelude.{
  ℕ, String, ◌≡◌, ◌⊎◌, inl, inr, refl, sym, subst, ◌∙◌, ◌==◌, Bool-cases, true, not, Option, none,
  some, is_some,
}
use familycards.Prelude.Table.{find, exists, is_some-find}
use familycards.Http.{Bytes, Body, Result, ok, err, Reply, json_with, status_of}
use familycards.Store.{User, DeviceInput, Db}
use familycards.Store.Tx.{
  Ran, ran, aborted, pure, commit, with_immediate_tx, fail_if_passed, bind_passed, ran-inj,
}
use familycards.Auth.Services.{Services}
use familycards.Auth.Repository.{
  Draw, is_user, get_user_by_id, create_user_in_vault, create_device, insert_device,
}
use familycards.Auth.Tokens.{hash_refresh_token}
use familycards.Auth.Inserts.{insert_device-ok}
use familycards.Membership.Repository.{is_unused, mark_invite_used}
use familycards.Membership.Redeem.{
  RedeemInviteRequest, NewMember, NewIds, admit, redeem_tx, check_redeem, welcome, redeem_reply,
  redeem_checked, redeem_invite,
}

-- The user of a new device is there.
create_device-known :
    (draw : Draw) (user_id refresh_hash id : String) (input : DeviceInput) (db after : Db)
    → create_device draw user_id input refresh_hash db ≡ ran (id, after)
    → exists (is_user user_id) after.users ≡ true
unfolding create_device
create_device-known draw user_id refresh_hash id input db after h =
    let (t, mid, stored, made) = bind_passed (insert_device _ db) (λ t. pure _) _ h in
    let a = insert_device-ok _ t db mid stored in
    subst (λ (x : Db). exists (is_user user_id) x.users ≡ true)
      (sym a.written ∙ (ran-inj _ id mid after made).1) a.of_user

redeem_tx-known :
    (draw : Draw) (code_hash refresh_hash : String) (m : NewMember) (ids : NewIds) (db after : Db)
    → redeem_tx draw code_hash m refresh_hash db ≡ ran (ids, after)
    → exists (is_user ids.user_id) after.users ≡ true
unfolding redeem_tx mark_invite_used
redeem_tx-known draw code_hash refresh_hash m ids db after h =
    let (inv, db1, h1, k1) = bind_passed (admit draw code_hash m.login db) _ _ h in
    let (fresh, k2) = fail_if_passed (not (exists (is_unused code_hash) db1.invites)) _ _ _ _ k1 in
    let (user_id, db2, h2, k3) =
      bind_passed (create_user_in_vault draw inv.vault_id m.login _ _ _ _ _ _ _) _ _ k2 in
    let (device_id, db3, h3, k4) =
      bind_passed (create_device draw user_id m.device refresh_hash db2) _ _ k3 in
    let e = ran-inj _ ids db3 after k4 in
    subst (λ (x : NewIds). exists (is_user x.user_id) after.users ≡ true) e.0
      (subst (λ (x : Db). exists (is_user user_id) x.users ≡ true) e.1
        (create_device-known draw user_id refresh_hash device_id m.device db2 db3 h3))

module _ (services : Services) (secret : String) where
  abbrev pub AllOrNothing : {A : Type 0} → Db → Reply A × Db → Type 0
  AllOrNothing db out = (status_of out.0 ≡ 200) ⊎ (out.1 ≡ db)

  json_with-status : {A : Type 0} (raw : String) (a : A) → status_of (json_with raw 200 a) ≡ 200
  json_with-status raw a = elim (Bool-cases (raw == "")) [
    | inl blank ↦ rw blank refl
    | inr full ↦ rw full refl
  ]

  welcome-ok :
      (now : ℕ) (raw : String) (ids : NewIds) (o : Option User)
      → is_some o ≡ true
      → status_of (welcome services secret now raw ids o) ≡ 200
  welcome-ok now raw ids none h = cc
  welcome-ok now raw ids (some user) h = json_with-status user.kdf_params _

  committed :
      (draw : Draw) (raw code_hash refresh_hash : String) (m : NewMember) (db : Db) (r : Ran NewIds)
      → redeem_tx draw code_hash m refresh_hash db ≡ r
      → AllOrNothing db (redeem_reply services secret draw.now raw (commit db r))
  unfolding get_user_by_id
  committed draw raw code_hash refresh_hash m db (aborted e) h = inr refl
  committed draw raw code_hash refresh_hash m db (ran (ids, after)) h = inl (
      welcome-ok draw.now raw ids (find (is_user ids.user_id) after.users) (
        is_some-find (is_user ids.user_id) after.users
        ∙ redeem_tx-known draw code_hash refresh_hash m ids db after h))

  -- A redemption is answered with 200, or it leaves the database as it was, whatever its transaction
  -- had written before it stopped.
  pub redeem_atomic :
      (draw : Draw) (salt : Bytes) (raw code_hash : String) (body : Body RedeemInviteRequest)
      (db : Db)
      → (status_of (redeem_invite services secret draw salt raw code_hash body db).0 ≡ 200)
        ⊎ ((redeem_invite services secret draw salt raw code_hash body db).1 ≡ db)
  unfolding redeem_invite with_immediate_tx
  redeem_atomic draw salt raw code_hash body db = go (check_redeem services secret salt body)
    where
      go :
          (c : Result NewMember)
          → AllOrNothing db (redeem_checked services secret draw raw code_hash c db)
      go (err e) = inr refl
      go (ok m) =
          committed draw raw code_hash (hash_refresh_token services raw) m db
            (redeem_tx draw code_hash m (hash_refresh_token services raw) db) refl
