-- ===== src/Membership/Members.antt =====
-- GET and DELETE of members: `ListMembers` and `RemoveMember` of
-- server/internal/membership/handlers.go.
pub mod Removal
use familycards.Prelude.{
  ℕ, ltb, leb, String, ◌==◌, Bool, true, false, not, ◌&&◌, Option, none, some, List, [], ◌∷◌, map,
  if◌then◌else◌,
}
use familycards.Http.{
  Error, Result, ok, err, Reply, json, write_error, unauthorized, missing, conflict,
}
use familycards.Store.{User, Device, Db}
use familycards.Store.Tx.{Tx, ◌>>=◌, ◌>>◌, pure, throw, reads, writes, fail_if, with_immediate_tx}
use familycards.Sync.Repository.{or_fail}
use familycards.Auth.Context.{Identity, Context, current_identity}
use familycards.Auth.Repository.{
  get_user_by_id, count_active_users, set_user_disabled, revoke_all_user_devices, list_members,
  list_devices_by_user,
}

pub record MemberDeviceDto : Type 0 where
  pub id : String
  pub name : String
  pub platform : String
  pub created_at : ℕ
  pub last_seen_at : ℕ
  pub revoked : Bool

pub record MemberDto : Type 0 where
  pub user_id : String
  pub display_name : String
  pub login : String
  pub created_at : ℕ
  pub last_seen_at : ℕ
  pub devices : List MemberDeviceDto

abbrev pub device_dto : Device → MemberDeviceDto
device_dto d = record {
  id = d.id;
  name = d.name;
  platform = d.platform;
  created_at = d.created_at;
  last_seen_at = d.last_seen_at;
  revoked = d.revoked;
}

-- The latest `last_seen_at`, from `seen` on.
unfoldable pub last_seen : ℕ → List Device → ℕ
last_seen seen [] = seen
last_seen seen (d ∷ ds) = last_seen (if ltb seen d.last_seen_at then d.last_seen_at else seen) ds

abbrev pub member_dto : List Device → User → MemberDto
member_dto devices u = record {
  user_id = u.id;
  display_name = u.display_name;
  login = u.login;
  created_at = u.created_at;
  last_seen_at = last_seen 0 devices;
  devices = map device_dto devices;
}

abbrev pub members_for : Option Identity → Db → Reply (List MemberDto)
members_for none db = write_error (unauthorized "not authenticated")
members_for (some id) db =
    json 200 (map (λ u. member_dto (list_devices_by_user u.id db) u) (list_members id.vault_id db))

unfoldable pub get_members : Context → Db → Reply (List MemberDto)
unfolding current_identity list_members list_devices_by_user last_seen
get_members ctx db = members_for (current_identity ctx) db

-- The last active member of a vault stays.
abbrev pub is_last : User → ℕ → Bool
is_last target active_users = not target.disabled && leb active_users 1

-- The transaction of `RemoveMember`, for a caller of the vault.
unfoldable pub remove_member_tx : String → String → Tx (Unit {0})
unfolding get_user_by_id count_active_users set_user_disabled revoke_all_user_devices
remove_member_tx vault_id target_id = do
  row ← reads (get_user_by_id target_id)
  target ← or_fail (missing "member not found") row
  fail_if (not (target.vault_id == vault_id)) (missing "member not found")
  active_users ← reads (count_active_users vault_id)
  fail_if (is_last target active_users) (conflict "cannot remove the last active member")
  writes (set_user_disabled target_id true)
  writes (revoke_all_user_devices target_id)

abbrev pub remove_reply : Result (Unit {0}) × Db → Reply (Unit {0}) × Db
remove_reply (ok t, db) = (json 204 tt, db)
remove_reply (err e, db) = (write_error e, db)

abbrev pub remove_for : Option Identity → String → Db → Reply (Unit {0}) × Db
remove_for none target_id db = (write_error (unauthorized "not authenticated"), db)
remove_for (some id) target_id db =
    remove_reply (with_immediate_tx (remove_member_tx id.vault_id target_id) db)

unfoldable pub remove_member : Context → String → Db → Reply (Unit {0}) × Db
unfolding current_identity remove_member_tx with_immediate_tx
remove_member ctx target_id db = remove_for (current_identity ctx) target_id db
