-- ===== src/Membership/Invites.antt =====
-- POST, GET and DELETE of invites: `CreateInvite`, `GetInvite` and `DeleteInvite` of
-- server/internal/membership/handlers.go.
pub mod Quota
use familycards.Prelude.{
  ℕ, ◌+◌, ◌*◌, ℤ, pos, negsuc, pos_part, neg_part, wrap64, ltb, leb, ltb_ℤ, String, ◌==◌, Bool,
  true, false, not, ◌&&◌, ◌||◌, Option, none, some, List, is_some, if◌then◌else◌,
}
use familycards.Http.{
  Bytes, Base64, Error, not_found, Result, ok, err, Reply, json, json_with, Body, decode_json,
  decode_binary_field, write_error, bad_request, unauthorized, missing, conflict, gone, internal,
}
use familycards.Http.{◌>>=◌ as ◌>>=?◌}
use familycards.Store.{Vault, Invite, Db}
use familycards.Store.Tx.{Tx, ◌>>=◌, ◌>>◌, pure, throw, reads, fail_if, with_immediate_tx}
use familycards.Sync.Repository.{or_fail}
use familycards.Auth.Context.{Identity, Context, current_identity}
use familycards.Auth.Repository.{get_vault, count_active_users}
use familycards.Membership.Repository.{
  is_open, count_active_invites, create_invite_row, get_invite_row, delete_invite_row,
}

pub record CreateInviteRequest : Type 0 where
  pub code_hash : String
  pub wrapped_vault_key : String
  pub wrap_nonce : String
  pub kdf_salt : String
  pub kdf_params : String
  pub ttl_hours : ℤ

pub record CreateInviteResponse : Type 0 where
  pub code_hash : String
  pub expires_at : ℤ

pub record GetInviteResponse : Type 0 where
  pub vault_id : String
  pub wrapped_vault_key : String
  pub wrap_nonce : String
  pub kdf_salt : String
  pub kdf_params : String

-- now + int64(ttl) * 3600, for a positive number of hours, in 64 bits.
abbrev pub expiry : ℕ → ℤ → ℤ
expiry now ttl_hours = wrap64 (now + pos_part ttl_hours * 3600)

-- A response, or the error that the transaction returned.
abbrev pub reply_with : {A B : Type 0} → ℕ → (A → B) → Result A × Db → Reply B × Db
reply_with status f (ok a, db) = (json status (f a), db)
reply_with status f (err e, db) = (write_error e, db)

-- The transaction of `CreateInvite`.
unfoldable pub create_invite_tx : ℕ → Invite → Tx (Unit {0})
unfolding get_vault count_active_users count_active_invites create_invite_row
create_invite_tx now invite = do
  row ← reads (get_vault invite.vault_id)
  vault ← or_fail not_found row
  active_users ← reads (count_active_users invite.vault_id)
  active_invites ← reads (count_active_invites invite.vault_id now)
  fail_if (leb vault.max_users (active_users + active_invites)) (conflict "member quota reached")
  create_invite_row invite

module _ (b64 : Base64) where
  -- The checks before it: the invite that is to be stored, or an error.
  unfoldable pub check_create_invite :
      ℕ → Option Identity → Body CreateInviteRequest → Result Invite
  check_create_invite now none body = err (unauthorized "not authenticated")
  check_create_invite now (some id) body = decode_json body >>=? λ req.
      if req.code_hash == ""
        || req.wrapped_vault_key == ""
        || req.wrap_nonce == ""
        || req.kdf_salt == ""
        || ltb_ℤ req.ttl_hours (pos 1)
      then err (bad_request "missing required fields")
      else (decode_binary_field b64 "wrapped_vault_key" req.wrapped_vault_key >>=? λ wrapped_vk.
          decode_binary_field b64 "wrap_nonce" req.wrap_nonce >>=? λ wrap_nonce.
          decode_binary_field b64 "kdf_salt" req.kdf_salt >>=? λ kdf_salt. ok (record {
            code_hash = req.code_hash;
            vault_id = id.vault_id;
            wrapped_vault_key = wrapped_vk;
            wrap_nonce = wrap_nonce;
            kdf_salt = kdf_salt;
            kdf_params = req.kdf_params;
            created_by = id.user_id;
            created_at = now;
            expires_at = expiry now req.ttl_hours;
            used_at = none;
          }))

  abbrev pub invite_response : Invite → Unit {0} → CreateInviteResponse
  invite_response i _ = record { code_hash = i.code_hash; expires_at = i.expires_at }

  unfoldable pub store_invite : ℕ → Result Invite → Db → Reply CreateInviteResponse × Db
  unfolding create_invite_tx with_immediate_tx
  store_invite now (err e) db = (write_error e, db)
  store_invite now (ok invite) db =
      reply_with 201 (invite_response invite) (with_immediate_tx (create_invite_tx now invite) db)

  unfoldable pub create_invite :
      ℕ → Context → Body CreateInviteRequest → Db → Reply CreateInviteResponse × Db
  unfolding check_create_invite store_invite current_identity
  create_invite now ctx body db =
      store_invite now (check_create_invite now (current_identity ctx) body) db

  abbrev pub show_invite : ℕ → Option Invite → Reply GetInviteResponse
  show_invite now none = write_error (missing "invite not found")
  show_invite now (some inv) =
      if not (is_open now inv)
      then write_error (gone "invite no longer valid")
      else json_with inv.kdf_params 200 (record {
        vault_id = inv.vault_id;
        wrapped_vault_key = b64.encode inv.wrapped_vault_key;
        wrap_nonce = b64.encode inv.wrap_nonce;
        kdf_salt = b64.encode inv.kdf_salt;
        kdf_params = inv.kdf_params;
      })

  unfoldable pub get_invite : ℕ → String → Db → Reply GetInviteResponse
  unfolding get_invite_row
  get_invite now code_hash db = show_invite now (get_invite_row code_hash db)

abbrev pub delete_reply : Result Bool × Db → Reply (Unit {0}) × Db
delete_reply (err e, db) = (write_error (internal "failed to delete invite"), db)
delete_reply (ok false, db) = (write_error (missing "invite not found"), db)
delete_reply (ok true, db) = (json 204 tt, db)

abbrev pub delete_for : Option Identity → String → Db → Reply (Unit {0}) × Db
delete_for none code_hash db = (write_error (unauthorized "not authenticated"), db)
delete_for (some id) code_hash db =
    delete_reply (with_immediate_tx (delete_invite_row code_hash id.vault_id) db)

unfoldable pub delete_invite : Context → String → Db → Reply (Unit {0}) × Db
unfolding current_identity delete_invite_row with_immediate_tx
delete_invite ctx code_hash db = delete_for (current_identity ctx) code_hash db
