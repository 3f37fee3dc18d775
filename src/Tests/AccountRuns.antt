-- ===== src/Tests/AccountRuns.antt =====
-- The account and membership theorems at a vault with two members and an invite.
use familycards.Prelude.{
  ◌+◌, ◌≤◌, pos, String, ◌==◌, ◌≡◌, ◌⊎◌, refl, Bool, true, false, none, some, [], ◌∷◌, arith,
}
use familycards.Prelude.Table.{find, count, exists, update}
use familycards.Http.{gone, ok, other, Body, parsed, status_of}
use familycards.Store.Tx.{ran, aborted}
use familycards.Store.{Vault, User, Device, Invite, Db, empty_db}
use familycards.Auth.Context.{Identity}
use familycards.Auth.Services.{Claims}
use familycards.Auth.Repository.{
  Draw, login_eq, is_user, get_user_by_id, get_device_by_id, get_vault, get_user_by_login,
  count_active_users, count_active_devices, insert_user, insert_device, create_user_in_vault,
  create_device, set_user_disabled, revoke_all_user_devices,
}
use familycards.Auth.Tokens.{issue_access_token, claims_at}
use familycards.Auth.Middleware.{bearer, require_auth}
use familycards.Auth.Middleware.Sound.{IsAuthenticated, require_auth-IsAuthenticated}
use familycards.Membership.Repository.{
  get_invite_row, count_active_invites, create_invite_row, mark_invite_used,
}
use familycards.Membership.Invites.{create_invite_tx}
use familycards.Membership.Invites.Quota.{create_invite_tx_fits}
use familycards.Membership.Redeem.{
  NewMember, NewIds, RedeemInviteRequest, admit, redeem_tx, redeem_invite,
}
use familycards.Membership.Redeem.Atomic.{redeem_atomic}
use familycards.Membership.Redeem.Once.{redeem_tx_once, redeem_tx_fits}
use familycards.Membership.Members.{remove_member_tx}
use familycards.Membership.Members.Removal.{remove_member_locks_out}
use familycards.Tests.Encoding.{read_token-write_token, plain_services}

abbrev pub user_of : String → Bool → User
user_of id disabled = record {
  id = id;
  vault_id = "v";
  login = id;
  display_name = id;
  password_hash = "";
  kdf_salt = [];
  kdf_params = "";
  wrapped_vault_key = [];
  wrap_nonce = [];
  created_at = 0;
  disabled = disabled;
}

abbrev pub device_of : String → String → Bool → Device
device_of id user_id revoked = record {
  id = id;
  user_id = user_id;
  name = "";
  platform = "";
  refresh_hash = id;
  created_at = 0;
  last_seen_at = 0;
  revoked = revoked;
}

abbrev invite : Invite
invite = record {
  code_hash = "code";
  vault_id = "v";
  wrapped_vault_key = [];
  wrap_nonce = [];
  kdf_salt = [];
  kdf_params = "";
  created_by = "ann";
  created_at = 0;
  expires_at = pos 1000;
  used_at = none;
}

abbrev pub db : Db
db = record empty_db {
  vaults = (record { id = "v"; created_at = 0; last_rev = 0; max_users = 5 }) ∷ [];
  users = user_of "ann" false ∷ user_of "bob" false ∷ [];
  devices = device_of "phone" "ann" false ∷ device_of "tablet" "bob" false ∷ [];
}

abbrev db_invited : Db
db_invited = record db { invites = invite ∷ [] }

abbrev pub ann : Identity
ann = record { user_id = "ann"; vault_id = "v"; device_id = "phone" }

abbrev pub token : String
token = issue_access_token plain_services "secret" 10 "ann" "v" "phone"

abbrev pub ann_claims : Claims
ann_claims = claims_at plain_services "secret" 10 "ann" "v" "phone"

passes : require_auth plain_services "secret" 100 (bearer token) db ≡ ok ann
unfolding require_auth issue_access_token get_device_by_id get_user_by_id find
passes = rw (read_token-write_token "secret" 100 ann_claims) refl

require_auth-IsAuthenticated_example :
    IsAuthenticated plain_services "secret" 100 (bearer token) db ann
require_auth-IsAuthenticated_example =
    require_auth-IsAuthenticated plain_services "secret" 100 (bearer token) db ann passes

-- Bob is removed.
abbrev without_bob : Db
without_bob = record db {
  users = user_of "ann" false ∷ user_of "bob" true ∷ [];
  devices = device_of "phone" "ann" false ∷ device_of "tablet" "bob" true ∷ [];
}

removes_bob : remove_member_tx "v" "bob" db ≡ ran (tt, without_bob)
unfolding remove_member_tx get_user_by_id count_active_users set_user_disabled
    revoke_all_user_devices find count update
removes_bob = refl

one_bob : count (is_user "bob") db.users ≤ 1
unfolding count
one_bob = omega arith

some_member : 1 ≤ count_active_users "v" db
unfolding count_active_users count
some_member = omega arith

passes_after : require_auth plain_services "secret" 100 (bearer token) without_bob ≡ ok ann
unfolding require_auth issue_access_token get_device_by_id get_user_by_id find
passes_after = rw (read_token-write_token "secret" 100 ann_claims) refl

remove_member_locks_out_example : (ann.user_id == "bob") ≡ false
remove_member_locks_out_example =
    remove_member_locks_out "v" "bob" db without_bob plain_services "secret" 100 (bearer token) ann
      removes_bob passes_after

creates : create_invite_tx 5 invite db ≡ ran (tt, db_invited)
unfolding create_invite_tx create_invite_row get_vault count_active_users count_active_invites find
    count exists
creates = refl

create_invite_tx_fits_example :
    (vault : Vault) × (get_vault "v" db_invited ≡ some vault)
    × (count_active_users "v" db_invited + count_active_invites "v" 5 db_invited ≤ vault.max_users)
create_invite_tx_fits_example = create_invite_tx_fits 5 invite db db_invited creates

-- Carl joins by the invite.
abbrev pub draw : Draw
draw = record { now = 6; vault_id = "unused"; user_id = "carl"; device_id = "laptop" }

abbrev carl : NewMember
carl = record {
  login = "carl";
  display_name = "carl";
  password_hash = "";
  kdf_salt = [];
  kdf_params = "";
  wrapped_vault_key = [];
  wrap_nonce = [];
  device = record { id = ""; name = ""; platform = "" };
}

abbrev carl_ids : NewIds
carl_ids = record { vault_id = "v"; user_id = "carl"; device_id = "laptop" }

abbrev db_joined : Db
db_joined = record db {
  invites = (record invite { used_at = some 6 }) ∷ [];
  users =
      user_of "ann" false
      ∷ user_of "bob" false
      ∷ record (user_of "carl" false) { created_at = 6 }
      ∷ [];
  devices =
      device_of "phone" "ann" false
      ∷ device_of "tablet" "bob" false
      ∷ record (device_of "laptop" "carl" false) {
        refresh_hash = "hash";
        created_at = 6;
        last_seen_at = 6;
      }
      ∷ [];
}

joins : redeem_tx draw "code" carl "hash" db_invited ≡ ran (carl_ids, db_joined)
unfolding redeem_tx admit get_invite_row get_vault count_active_users get_user_by_login
    count_active_devices login_eq mark_invite_used create_user_in_vault create_device insert_user
    insert_device find count exists update
joins = refl

redeem_tx_fits_example :
    (inv : Invite) × (vault : Vault) × (get_invite_row "code" db_invited ≡ some inv)
    × (get_vault inv.vault_id db_joined ≡ some vault)
    × (count_active_users inv.vault_id db_joined ≤ vault.max_users)
redeem_tx_fits_example = redeem_tx_fits draw "code" "hash" carl carl_ids db_invited db_joined joins

-- The draw of the device's id is that of Bob's tablet: the user is written before this shows.
abbrev clash : Draw
clash = record { now = 6; vault_id = "unused"; user_id = "carl"; device_id = "tablet" }

abbrev db_half : Db
db_half = record db_joined { devices = db_invited.devices }

stops_late : redeem_tx clash "code" carl "hash" db_invited ≡ aborted (other, db_half)
unfolding redeem_tx admit get_invite_row get_vault count_active_users get_user_by_login
    count_active_devices login_eq mark_invite_used create_user_in_vault create_device insert_user
    insert_device find count exists update
stops_late = refl

abbrev join_request : Body RedeemInviteRequest
join_request = parsed (record {
  login = "carl";
  password = "pw";
  display_name = "carl";
  kdf_salt = "e";
  kdf_params = "{}";
  wrapped_vault_key = "xye";
  wrap_nonce = "e";
  device = record { id = ""; name = ""; platform = "" };
})

redeem_atomic_example :
    (status_of
        (redeem_invite plain_services "secret" clash [] "raw" "code" join_request db_invited).0
      ≡ 200)
    ⊎ ((redeem_invite plain_services "secret" clash [] "raw" "code" join_request db_invited).1
        ≡ db_invited)
redeem_atomic_example =
    redeem_atomic plain_services "secret" clash [] "raw" "code" join_request db_invited

redeem_tx_once_example :
    redeem_tx draw "code" carl "hash" db_joined ≡ aborted (gone "invite no longer valid", db_joined)
redeem_tx_once_example =
    redeem_tx_once draw draw "code" "hash" "hash" carl carl carl_ids db_invited db_joined joins
