-- ===== src/System/Members.antt =====
-- A predicate that the writes keep is kept by the requests that add and remove members.
use familycards.Prelude.{ℕ, String, subst, Bool, true, false, Option, none, some}
use familycards.Http.{Bytes, Base64, Result, ok, err, Body}
use familycards.Store.{Invite, Db}
use familycards.Store.Tx.{with_immediate_tx, ran-inj}
use familycards.Store.Keeps.{with_immediate_tx_keeps}
use familycards.Auth.Context.{Identity, Context, current_identity}
use familycards.Auth.Services.{Services}
use familycards.Auth.Tokens.{hash_refresh_token}
use familycards.Auth.Repository.{Draw, BootstrapParams}
use familycards.Auth.Bootstrap.{
  BootstrapRequest, bootstrap_tx, check_bootstrap, bootstrap_reply, bootstrap_checked,
  bootstrap_server,
}
use familycards.Membership.Repository.{delete_invite_row}
use familycards.Membership.Invites.{
  CreateInviteRequest, reply_with, create_invite_tx, check_create_invite, store_invite,
  create_invite, delete_reply, delete_for, delete_invite,
}
use familycards.Membership.Redeem.{
  RedeemInviteRequest, NewMember, NewIds, redeem_tx, check_redeem, redeem_reply, redeem_checked,
  redeem_invite,
}
use familycards.Membership.Members.{remove_member_tx, remove_reply, remove_for, remove_member}
use familycards.System.Kept.{IsKept}

module _ {P : Db → Type 0} (kept : IsKept P) where
  reply_with_keeps :
      {A B : Type 0} (status : ℕ) (f : A → B) (out : Result A × Db)
      → P out.1
      → P (reply_with status f out).1
  reply_with_keeps status f (ok a, db) p = p
  reply_with_keeps status f (err e, db) p = p

  store_invite_keeps :
      (b64 : Base64) (now : ℕ) (r : Result Invite) (db : Db)
      → P db
      → P (store_invite b64 now r db).1
  unfolding store_invite
  store_invite_keeps b64 now (err e) db p = p
  store_invite_keeps b64 now (ok invite) db p =
      reply_with_keeps 201 _ (with_immediate_tx (create_invite_tx now invite) db) (
        with_immediate_tx_keeps P (create_invite_tx now invite) db p
          (λ t after h. kept.invited now invite t db after p h))

  pub create_invite_keeps :
      (b64 : Base64) (now : ℕ) (ctx : Context) (body : Body CreateInviteRequest) (db : Db)
      → P db
      → P (create_invite b64 now ctx body db).1
  unfolding create_invite
  create_invite_keeps b64 now ctx body db p =
      store_invite_keeps b64 now (check_create_invite b64 now (current_identity ctx) body) db p

  delete_reply_keeps : (out : Result Bool × Db) → P out.1 → P (delete_reply out).1
  delete_reply_keeps (err e, db) p = p
  delete_reply_keeps (ok false, db) p = p
  delete_reply_keeps (ok true, db) p = p

  delete_for_keeps :
      (o : Option Identity) (code_hash : String) (db : Db) → P db → P (delete_for o code_hash db).1
  unfolding delete_invite_row
  delete_for_keeps none code_hash db p = p
  delete_for_keeps (some id) code_hash db p =
      delete_reply_keeps (with_immediate_tx (delete_invite_row code_hash id.vault_id) db) (
        with_immediate_tx_keeps P (delete_invite_row code_hash id.vault_id) db p (λ b after h.
          subst P (ran-inj _ b _ after h).1 (kept.uninvited code_hash id.vault_id db p)))

  pub delete_invite_keeps :
      (ctx : Context) (code_hash : String) (db : Db) → P db → P (delete_invite ctx code_hash db).1
  unfolding delete_invite
  delete_invite_keeps ctx code_hash db p = delete_for_keeps (current_identity ctx) code_hash db p

  remove_reply_keeps : (out : Result (Unit {0}) × Db) → P out.1 → P (remove_reply out).1
  remove_reply_keeps (ok t, db) p = p
  remove_reply_keeps (err e, db) p = p

  remove_for_keeps :
      (o : Option Identity) (target_id : String) (db : Db) → P db → P (remove_for o target_id db).1
  remove_for_keeps none target_id db p = p
  remove_for_keeps (some id) target_id db p =
      remove_reply_keeps (with_immediate_tx (remove_member_tx id.vault_id target_id) db) (
        with_immediate_tx_keeps P (remove_member_tx id.vault_id target_id) db p
          (λ t after h. kept.removed id.vault_id target_id db after p h))

  pub remove_member_keeps :
      (ctx : Context) (target_id : String) (db : Db) → P db → P (remove_member ctx target_id db).1
  unfolding remove_member
  remove_member_keeps ctx target_id db p = remove_for_keeps (current_identity ctx) target_id db p

  module _ (services : Services) (secret : String) where
    redeem_reply_keeps :
        (now : ℕ) (raw : String) (out : Result NewIds × Db)
        → P out.1
        → P (redeem_reply services secret now raw out).1
    redeem_reply_keeps now raw (ok ids, db) p = p
    redeem_reply_keeps now raw (err e, db) p = p

    redeem_checked_keeps :
        (draw : Draw) (raw code_hash : String) (r : Result NewMember) (db : Db)
        → P db
        → P (redeem_checked services secret draw raw code_hash r db).1
    redeem_checked_keeps draw raw code_hash (err e) db p = p
    redeem_checked_keeps draw raw code_hash (ok m) db p =
        let hash = hash_refresh_token services raw in
        redeem_reply_keeps draw.now raw (with_immediate_tx (redeem_tx draw code_hash m hash) db) (
          with_immediate_tx_keeps P (redeem_tx draw code_hash m hash) db p
            (λ ids after h. kept.redeemed draw code_hash hash m ids db after p h))

    pub redeem_invite_keeps :
        (draw : Draw) (salt : Bytes) (raw code_hash : String) (body : Body RedeemInviteRequest)
        (db : Db)
        → P db
        → P (redeem_invite services secret draw salt raw code_hash body db).1
    unfolding redeem_invite
    redeem_invite_keeps draw salt raw code_hash body db p =
        redeem_checked_keeps draw raw code_hash (check_redeem services secret salt body) db p

  module _ (services : Services) (secret : String) where
    bootstrap_reply_keeps :
        (now : ℕ) (raw : String) (out : Result (String × String × String) × Db)
        → P out.1
        → P (bootstrap_reply services secret now raw out).1
    bootstrap_reply_keeps now raw (err e, db) p = p
    bootstrap_reply_keeps now raw (ok (v, u, d), db) p = p

    bootstrap_checked_keeps :
        (draw : Draw) (raw : String) (r : Result BootstrapParams) (db : Db)
        → P db
        → P (bootstrap_checked services secret draw raw r db).1
    bootstrap_checked_keeps draw raw (err e) db p = p
    bootstrap_checked_keeps draw raw (ok b) db p =
        bootstrap_reply_keeps draw.now raw (with_immediate_tx (bootstrap_tx draw b) db) (
          with_immediate_tx_keeps P (bootstrap_tx draw b) db p
            (λ ids after h. kept.bootstrapped draw b ids db after p h))

    pub bootstrap_server_keeps :
        (expected presented : String) (draw : Draw) (salt recovery_salt : Bytes) (raw : String)
        (body : Body BootstrapRequest) (db : Db)
        → P db
        → P
            (bootstrap_server services secret expected presented draw salt recovery_salt raw body
              db).1
    unfolding bootstrap_server
    bootstrap_server_keeps expected presented draw salt recovery_salt raw body db p =
        bootstrap_checked_keeps draw raw
          (check_bootstrap services secret expected presented salt recovery_salt
            (hash_refresh_token services raw) body)
          db p
