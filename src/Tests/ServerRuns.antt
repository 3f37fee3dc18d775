-- ===== src/Tests/ServerRuns.antt =====
-- A password change and a recovery of Ann's, a batch that is replayed, and a server that is bootstrapped,
-- gets a blob and purges.
use familycards.Prelude.{String, ◌≡◌, refl, true, false, some, [], ◌∷◌}
use familycards.Prelude.Table.{find, select, exists, update}
use familycards.Http.{Bytes, ok, json, parsed, status_of, decode_binary_field}
use familycards.Store.Tx.{ran}
use familycards.Store.{User, DeviceInput, Db, empty_db}
use familycards.Auth.Context.{Identity, Context, current_identity}
use familycards.Auth.Repository.{
  login_eq, find_user_device, get_user_by_login, get_user_by_id, get_device_by_id,
  update_user_password_and_wrap, revoke_all_user_devices, create_device, insert_device,
}
use familycards.Auth.Tokens.{issue_access_token, claims_at}
use familycards.Auth.Middleware.{bearer, require_auth}
use familycards.Auth.Session.{LoginResponse, login}
use familycards.Auth.Account.{
  PasswordChangeRequest, NewWrap, new_wrap, check_change_password, change_password,
}
use familycards.Auth.Account.Password.{change_password_works}
use familycards.Auth.Recovery.{Recovered, recover_tx}
use familycards.Auth.Recovery.Lockout.{recovery_locks_out}
use familycards.Auth.Bootstrap.{BootstrapRequest}
use familycards.Sync.Repository.{get_item, missing_blob_refs}
use familycards.Sync.Push.{push_tx}
use familycards.Sync.Push.Transaction.{refs_missing}
use familycards.Sync.Push.Replay.{Shelf, Shows, replay, push_tx_replays}
use familycards.Blobs.Handlers.{Server, read, upload}
use familycards.System.{
  Setup, post_bootstrap, request, uploaded, handle, empty_server, Reach, start, later,
}
use familycards.System.Sound.{IsSound, Reach-IsSound}
use familycards.Tests.Encoding.{read_bytes, read_token-write_token, plain_base64, plain_services}
use familycards.Tests.AccountRuns.{db, ann, user_of, device_of, draw}
use familycards.Tests.SyncRuns.{second, at_one}
use familycards.Tests.SyncRuns.{db as vault_db, ctx as vault_ctx}

-- Ann's password is `old`.
abbrev ann_user : User
ann_user = record (user_of "ann" false) { password_hash = "old" }

abbrev db_old : Db
db_old = record db { users = ann_user ∷ user_of "bob" false ∷ [] }

abbrev ann_ctx : Context
ann_ctx = record { ctx_user_id = some "ann"; ctx_vault_id = some "v"; ctx_device_id = some "phone" }

abbrev change : PasswordChangeRequest
change = record {
  old_password = "old";
  new_password = "new";
  kdf_salt = "e";
  kdf_params = "{}";
  wrapped_vault_key = "xye";
  wrap_nonce = "e";
}

abbrev pub ann_wrap : NewWrap
ann_wrap = record {
  user_id = "ann";
  password_hash = "new";
  kdf_salt = [];
  kdf_params = "{}";
  wrapped_vault_key = 1 ∷ [];
  wrap_nonce = [];
}

caller : current_identity ann_ctx ≡ some ann
unfolding current_identity
caller = refl

change_passes :
    check_change_password plain_services [] (some ann) (parsed change) db_old ≡ ok ann_wrap
unfolding check_change_password new_wrap get_user_by_id find read_bytes
change_passes = refl

ann_logs_in : get_user_by_login "ANN" db_old ≡ some ann_user
unfolding get_user_by_login login_eq find
ann_logs_in = refl

on_phone : find_user_device "ann" "phone" db_old ≡ some (device_of "phone" "ann" false)
unfolding find_user_device get_device_by_id find
on_phone = refl

abbrev phone_input : DeviceInput
phone_input = record { id = "phone"; name = ""; platform = "" }

change_password_works_example :
    (status_of (change_password plain_services [] ann_ctx (parsed change) db_old).0 ≡ 204)
    × ((resp : LoginResponse) × ((login plain_services "secret" draw "raw"
            (parsed (record { login = "ANN"; password = "new"; device = phone_input }))
            (change_password plain_services [] ann_ctx (parsed change) db_old).1).0
          ≡ json 200 resp)
        × (resp.user_id ≡ "ann")
        × (decode_binary_field plain_base64 "wrapped_vault_key" "xye"
            ≡ decode_binary_field plain_base64 "wrapped_vault_key" resp.wrapped_vault_key))
change_password_works_example =
    change_password_works plain_services "secret" [] ann_ctx ann change ann_wrap ann_user "ANN"
      phone_input (device_of "phone" "ann" false) draw "raw" db_old caller change_passes ann_logs_in
      refl refl refl refl refl on_phone

abbrev pub recovered : Recovered
recovered = record {
  user = user_of "ann" false;
  wrap = ann_wrap;
  device = record { id = ""; name = ""; platform = "" };
}

abbrev pub db_recovered : Db
db_recovered = record db {
  users =
      record (user_of "ann" false) {
        password_hash = "new";
        kdf_params = "{}";
        wrapped_vault_key = 1 ∷ [];
      }
      ∷ user_of "bob" false
      ∷ [];
  devices =
      device_of "phone" "ann" true
      ∷ device_of "tablet" "bob" false
      ∷ record (device_of "laptop" "ann" false) {
        refresh_hash = "hash";
        created_at = 6;
        last_seen_at = 6;
      }
      ∷ [];
}

pub recovers : recover_tx draw recovered "hash" db ≡ ran ("laptop", db_recovered)
unfolding recover_tx update_user_password_and_wrap revoke_all_user_devices create_device
    insert_device exists update
recovers = refl

abbrev ann_laptop : Identity
ann_laptop = record ann { device_id = "laptop" }

abbrev laptop_token : String
laptop_token = issue_access_token plain_services "secret" 10 "ann" "v" "laptop"

laptop_passes :
    require_auth plain_services "secret" 100 (bearer laptop_token) db_recovered ≡ ok ann_laptop
unfolding require_auth issue_access_token get_device_by_id get_user_by_id find
laptop_passes =
    rw
      (read_token-write_token "secret" 100
        (claims_at plain_services "secret" 10 "ann" "v" "laptop"))
      refl

recovery_locks_out_example : Path String ann_laptop.device_id "laptop"
recovery_locks_out_example =
    recovery_locks_out draw recovered "hash" "laptop" db db_recovered plain_services "secret" 100
      (bearer laptop_token) ann_laptop recovers laptop_passes refl

abbrev shelf : Shelf
shelf = record { rev = 1; item_at = λ u id. get_item u id vault_db }

none_missing : refs_missing "v" ("new" ∷ []) vault_db ≡ false
unfolding missing_blob_refs select exists
none_missing = refl

push_tx_replays_example :
    (after : Db) × (push_tx plain_base64 "v" (second ∷ []) ("new" ∷ []) vault_db
      ≡ ran (
        record {
          server_rev = (replay plain_base64 (second ∷ []) ([], []) shelf).1.rev;
          accepted = (replay plain_base64 (second ∷ []) ([], []) shelf).0.0;
          conflicts = (replay plain_base64 (second ∷ []) ([], []) shelf).0.1;
        },
        after,
      ))
    × Shows "v" after (replay plain_base64 (second ∷ []) ([], []) shelf).1
push_tx_replays_example =
    push_tx_replays plain_base64 "v" (second ∷ []) ("new" ∷ []) shelf vault_db (refl, tt)
      none_missing (record { same_rev = at_one; same_items = λ u id. refl })

abbrev pub digest : Bytes → String
digest [] = "none"
digest (b ∷ bs) = "some"

abbrev pub setup : Setup
setup = record {
  services = plain_services;
  secret = "secret";
  bootstrap_token = "boot";
  base_dir = "base";
  sha256_hex = digest;
  trim_space = λ s. s;
}

abbrev pub first_account : BootstrapRequest
first_account = record {
  login = "ann";
  display_name = "Ann";
  password = "pw";
  kdf_salt = "e";
  kdf_params = "";
  wrapped_vault_key = "e";
  wrap_nonce = "e";
  recovery = record {
    wrapped_vault_key = "e";
    wrap_nonce = "e";
    kdf_salt = "e";
    kdf_params = "";
    verifier = "phrase";
  };
  device = record { id = ""; name = "phone"; platform = "" };
}

abbrev bootstrapped : Server
bootstrapped = record empty_server {
  db = handle setup (post_bootstrap "boot" draw [] [] "raw" (parsed first_account)) empty_db;
}

abbrev with_blob : Server
with_blob = (upload "base" digest false 7 vault_ctx "some" (read (1 ∷ [])) bootstrapped).1

reach : Reach setup with_blob
reach =
    later
      (later start
        (request (post_bootstrap "boot" draw [] [] "raw" (parsed first_account)) empty_server))
      (uploaded false 7 vault_ctx "some" (read (1 ∷ [])) bootstrapped)

Reach-IsSound_example : IsSound setup with_blob
Reach-IsSound_example = Reach-IsSound setup with_blob reach
