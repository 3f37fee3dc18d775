-- ===== src/Tests/SessionRuns.antt =====
-- The session theorems at the vault of the account examples, where Ann's phone presents the token
-- `phone` whose hash it has.
use familycards.Prelude.{String, ◌≤◌, ◌==◌, ◌≡◌, refl, false, none, some, [], ◌∷◌, arith}
use familycards.Prelude.Table.{find, count, exists, update}
use familycards.Http.{ok, status_of}
use familycards.Store.Tx.{ran, aborted}
use familycards.Store.{Db}
use familycards.Auth.Repository.{
  has_hash, get_device_by_refresh_hash, get_user_by_id, get_device_by_id,
  retired_refresh_token_user, revoke_all_user_devices, find_user_device, update_device_refresh_hash,
  count_active_devices, create_device, insert_device,
}
use familycards.Auth.Tokens.{hash_refresh_token, issue_access_token}
use familycards.Auth.Middleware.{bearer, require_auth}
use familycards.Auth.Session.{LoginRequest, login_tx, handle_possible_reuse, refresh}
use familycards.Http.{conflict}
use familycards.Store.{empty_db}
use familycards.Auth.Repository.{
  Draw, BootstrapParams, count_users, bootstrap, insert_vault, insert_user, insert_recovery_key,
  login_eq,
}
use familycards.Auth.Session.Reuse.{request, refresh_reuse_locks_out, passes_as, refresh_once}
use familycards.Auth.Session.Limit.{login_tx_fits}
use familycards.Auth.Bootstrap.{bootstrap_tx}
use familycards.Auth.Bootstrap.Once.{bootstrap_tx_once}
use familycards.Tests.Encoding.{read_token-write_token, plain_services}
use familycards.Tests.AccountRuns.{db, ann, ann_claims, token, user_of, device_of, draw}

known :
    get_device_by_refresh_hash (hash_refresh_token plain_services "phone") db
    ≡ some (device_of "phone" "ann" false)
unfolding get_device_by_refresh_hash hash_refresh_token find
known = refl

account : get_user_by_id "ann" db ≡ some (user_of "ann" false)
unfolding get_user_by_id find
account = refl

one_device : count (has_hash (hash_refresh_token plain_services "phone")) db.devices ≤ 1
unfolding hash_refresh_token count
one_device = omega arith

fresh :
    (hash_refresh_token plain_services "new" == hash_refresh_token plain_services "phone") ≡ false
unfolding hash_refresh_token
fresh = refl

refresh_once_example :
    (status_of (refresh plain_services "secret" 20 "new" (request "phone") db).0 ≡ 200)
    × (status_of
          (refresh plain_services "secret" 21 "newer"
            (request "phone")
            (refresh plain_services "secret" 20 "new" (request "phone") db).1).0
        ≡ 401)
refresh_once_example =
    refresh_once plain_services "secret" 20 21 "new" "newer" "phone" (device_of "phone" "ann" false)
      (user_of "ann" false) db refl known refl account one_device fresh

-- A token of Bob's tablet was retired.
abbrev db_retired : Db
db_retired = record db {
  retired = (record { hash = "stolen"; user_id = "bob"; retired_at = 1 }) ∷ [];
}

unknown : get_device_by_refresh_hash (hash_refresh_token plain_services "stolen") db_retired ≡ none
unfolding get_device_by_refresh_hash hash_refresh_token find
unknown = refl

stolen :
    retired_refresh_token_user (hash_refresh_token plain_services "stolen") db_retired ≡ some "bob"
unfolding retired_refresh_token_user hash_refresh_token find
stolen = refl

ann_passes :
    require_auth plain_services "secret" 100
      (bearer token)
      (refresh plain_services "secret" 30 "new" (request "stolen") db_retired).1
    ≡ ok ann
unfolding require_auth issue_access_token get_device_by_id get_user_by_id refresh
    handle_possible_reuse hash_refresh_token get_device_by_refresh_hash retired_refresh_token_user
    revoke_all_user_devices find update
ann_passes = rw (read_token-write_token "secret" 100 ann_claims) refl

refresh_reuse_locks_out_example :
    (status_of (refresh plain_services "secret" 30 "new" (request "stolen") db_retired).0 ≡ 401)
    × (passes_as "bob" (
          require_auth plain_services "secret" 100
            (bearer token)
            (refresh plain_services "secret" 30 "new" (request "stolen") db_retired).1)
        ≡ false)
refresh_reuse_locks_out_example =
    refresh_reuse_locks_out plain_services "secret" 30 100 "new" "stolen" "bob" (bearer token)
      db_retired refl unknown stolen

abbrev ann_login : LoginRequest
ann_login = record {
  login = "ann";
  password = "pw";
  device = record { id = ""; name = ""; platform = "" };
}

abbrev db_laptop : Db
db_laptop = record db {
  devices =
      device_of "phone" "ann" false
      ∷ device_of "tablet" "bob" false
      ∷ record (device_of "laptop" "ann" false) {
        refresh_hash = "hash";
        created_at = 6;
        last_seen_at = 6;
      }
      ∷ [];
}

signs_in : login_tx draw ann_login (user_of "ann" false) "hash" db ≡ ran ("laptop", db_laptop)
unfolding login_tx find_user_device update_device_refresh_hash count_active_devices create_device
    insert_device find count exists
signs_in = refl

few : count_active_devices "v" db ≤ 10
unfolding count_active_devices count exists
few = omega arith

login_tx_fits_example : count_active_devices "v" db_laptop ≤ 10
login_tx_fits_example =
    login_tx_fits draw ann_login (user_of "ann" false) "hash" "laptop" db db_laptop signs_in few

abbrev first_draw : Draw
first_draw = record { now = 6; vault_id = "v"; user_id = "ann"; device_id = "phone" }

abbrev first_member : BootstrapParams
first_member = record {
  login = "ann";
  display_name = "ann";
  password_hash = "";
  kdf_salt = [];
  kdf_params = "";
  wrapped_vault_key = [];
  wrap_nonce = [];
  recovery = record {
    wrapped_vault_key = [];
    wrap_nonce = [];
    kdf_salt = [];
    kdf_params = "";
    verifier_hash = "";
  };
  device = record { id = ""; name = ""; platform = "" };
  refresh_hash = "phone";
}

abbrev db_first : Db
db_first = record empty_db {
  vaults = (record { id = "v"; created_at = 6; last_rev = 0; max_users = 5 }) ∷ [];
  users = record (user_of "ann" false) { created_at = 6 } ∷ [];
  devices = record (device_of "phone" "ann" false) { created_at = 6; last_seen_at = 6 } ∷ [];
  recovery_keys =
      (record {
        vault_id = "v";
        wrapped_vault_key = [];
        wrap_nonce = [];
        kdf_salt = [];
        kdf_params = "";
        created_at = 6;
        verifier_hash = "";
      })
      ∷ [];
}

abbrev first_ids : String × String × String
first_ids = ("v", "ann", "phone")

starts : bootstrap_tx first_draw first_member empty_db ≡ ran (first_ids, db_first)
unfolding bootstrap_tx bootstrap count_users insert_vault insert_user insert_device
    insert_recovery_key login_eq count exists
starts = refl

bootstrap_tx_once_example :
    bootstrap_tx first_draw first_member db_first
    ≡ aborted (conflict "server already bootstrapped", db_first)
bootstrap_tx_once_example =
    bootstrap_tx_once first_draw first_draw first_member first_member first_ids empty_db db_first
      starts
