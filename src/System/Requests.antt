-- ===== src/System/Requests.antt =====
-- A predicate that the writes keep is kept by every request.
use familycards.Store.{Db}
use familycards.System.{
  Setup, Request, post_bootstrap, post_login, post_refresh, post_logout, post_password,
  post_recovery, post_invite, invite_delete, post_redeem, member_delete, post_push, handle,
}
use familycards.System.Kept.{IsKept}
use familycards.System.Accounts.{
  login_keeps, refresh_keeps, logout_keeps, change_password_keeps, recovery_redeem_keeps,
}
use familycards.System.Members.{
  bootstrap_server_keeps, create_invite_keeps, delete_invite_keeps, redeem_invite_keeps,
  remove_member_keeps,
}

module _ (setup : Setup) where
  open setup use {services, secret, bootstrap_token}

  pub handle_keeps :
      {P : Db → Type 0} → IsKept P → (r : Request) (db : Db) → P db → P (handle setup r db)
  unfolding handle
  handle_keeps kept (post_bootstrap presented draw salt recovery_salt raw body) db p =
      bootstrap_server_keeps kept services secret bootstrap_token presented draw salt recovery_salt
        raw body db p
  handle_keeps kept (post_login draw raw body) db p =
      login_keeps kept services secret draw raw body db p
  handle_keeps kept (post_refresh now raw body) db p =
      refresh_keeps kept services secret now raw body db p
  handle_keeps kept (post_logout body) db p = logout_keeps kept services secret body db p
  handle_keeps kept (post_password salt ctx body) db p =
      change_password_keeps kept services salt ctx body db p
  handle_keeps kept (post_recovery draw salt raw body) db p =
      recovery_redeem_keeps kept services secret draw salt raw body db p
  handle_keeps kept (post_invite now ctx body) db p =
      create_invite_keeps kept services.b64 now ctx body db p
  handle_keeps kept (invite_delete ctx code_hash) db p = delete_invite_keeps kept ctx code_hash db p
  handle_keeps kept (post_redeem draw salt raw code_hash body) db p =
      redeem_invite_keeps kept services secret draw salt raw code_hash body db p
  handle_keeps kept (member_delete ctx target_id) db p = remove_member_keeps kept ctx target_id db p
  handle_keeps kept (post_push ctx body) db p = kept.pushed services.b64 ctx body db p
