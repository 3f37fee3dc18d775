-- ===== src/Membership/Repository.antt =====
-- server/internal/membership/repository.go: the statements on the invites table.
use familycards.Prelude.{ℕ, pos, ltb_ℤ, String, ◌==◌, Bool, not, ◌&&◌, Option, some, is_some}
use familycards.Prelude.Table.{find, count, insert, update, delete, exists}
use familycards.Http.{other}
use familycards.Store.{Invite, Db}
use familycards.Store.Tx.{Tx, ◌>>=◌, ◌>>◌, pure, reads, writes, fail_if}

-- used_at IS NULL AND expires_at > now
abbrev pub is_open : ℕ → Invite → Bool
is_open now i = not (is_some i.used_at) && ltb_ℤ (pos now) i.expires_at

abbrev pub is_open_in : String → ℕ → Invite → Bool
is_open_in vault_id now i = i.vault_id == vault_id && is_open now i

unfoldable pub count_active_invites : String → ℕ → Db → ℕ
count_active_invites vault_id now db = count (is_open_in vault_id now) db.invites

abbrev pub has_code : String → Invite → Bool
has_code code_hash i = i.code_hash == code_hash

-- The code's hash is the primary key.
unfoldable pub create_invite_row : Invite → Tx (Unit {0})
create_invite_row i = do
  taken ← reads (λ db. exists (has_code i.code_hash) db.invites)
  fail_if taken other
  writes (λ db. record db { invites = insert i db.invites })

unfoldable pub get_invite_row : String → Db → Option Invite
get_invite_row code_hash db = find (has_code code_hash) db.invites

abbrev pub is_unused : String → Invite → Bool
is_unused code_hash i = i.code_hash == code_hash && not (is_some i.used_at)

abbrev pub use_at : ℕ → Invite → Invite
use_at now i = record i { used_at = some now }

-- Tells whether a row was changed.
unfoldable pub mark_invite_used : String → ℕ → Tx Bool
mark_invite_used code_hash now = do
  hit ← reads (λ db. exists (is_unused code_hash) db.invites)
  writes (λ db. record db { invites = update (is_unused code_hash) (use_at now) db.invites })
  pure hit

abbrev pub is_invite_of : String → String → Invite → Bool
is_invite_of code_hash vault_id i = i.code_hash == code_hash && i.vault_id == vault_id

-- Tells whether a row went.
unfoldable pub delete_invite_row : String → String → Tx Bool
delete_invite_row code_hash vault_id = do
  hit ← reads (λ db. exists (is_invite_of code_hash vault_id) db.invites)
  writes (λ db. record db { invites = delete (is_invite_of code_hash vault_id) db.invites })
  pure hit
