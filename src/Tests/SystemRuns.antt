-- ===== src/Tests/SystemRuns.antt =====
-- A server that is bootstrapped, gets a blob and a card with it, and collects.
use familycards.Prelude.{◌≡◌, refl, inl, pos, true, false, some, [], ◌∷◌, length, arith}
use familycards.Prelude.Table.{find, select, exists, update, delete, count}
use familycards.Http.{Bytes, Body, parsed, json}
use familycards.Store.{Item, empty_db}
use familycards.Auth.Context.{Identity, current_identity}
use familycards.Store.Tx.{with_immediate_tx}
use familycards.Auth.Repository.{
  Draw, count_users, bootstrap, insert_vault, insert_user, insert_device, insert_recovery_key,
}
use familycards.Auth.Bootstrap.{bootstrap_server, check_bootstrap, params_of, bootstrap_tx}
use familycards.Sync.Repository.{
  get_item, upsert, upsert_item, get_vault_rev, increment_vault_rev, insert_by_rev, sort_by_rev,
  missing_blob_refs, mark_blobs_referenced,
}
use familycards.Sync.Resolve.{resolve}
use familycards.Sync.Wire.{PushRequest, decode_batch, to_item_dtos}
use familycards.Sync.Push.{
  all_blob_refs, accept_item, push_item, push_loop, push_tx, check_push, push_checked, push,
}
use familycards.Sync.Changes.Remaining.{all_changes}
use familycards.Sync.Changes.Paging.{pull_all, pull_all_ends}
use familycards.Sync.Changes.Page.{In}
use familycards.Blobs.Repository.{insert_if_absent}
use familycards.Blobs.Files.{path_of, file_exists, write_file}
use familycards.Blobs.Handlers.{Server, read, check_upload, store_file, record_meta, upload, get}
use familycards.System.{
  post_bootstrap, post_push, request, uploaded, handle, empty_server, Reach, start, later,
}
use familycards.System.Staffed.{IsStaffed, Reach-IsStaffed}
use familycards.System.Served.{live_blob_served, changes_served}
use familycards.Tests.Encoding.{read_bytes, plain_base64}
use familycards.Tests.ServerRuns.{digest, setup, first_account}
use familycards.Tests.SyncRuns.{ctx, db, at_one, db-IsRevisioned, db-IsTopped}

abbrev draw : Draw
draw = record { now = 6; vault_id = "v"; user_id = "u"; device_id = "d" }

abbrev bootstrapped : Server
bootstrapped = record empty_server {
  db = handle setup (post_bootstrap "boot" draw [] [] "raw" (parsed first_account)) empty_db;
}

abbrev with_blob : Server
with_blob = (upload "base" digest false 7 ctx "some" (read (1 ∷ [])) bootstrapped).1

abbrev body : Body PushRequest
body = parsed (record {
  device_id = "d";
  items =
      (record {
        item_id = "card";
        kind = "card";
        base_rev = pos 0;
        updated_at = pos 60;
        deleted = false;
        nonce = some "e";
        ciphertext = some "e";
        blob_refs = "some" ∷ [];
      })
      ∷ [];
})

abbrev with_card : Server
with_card = record with_blob { db = handle setup (post_push ctx body) with_blob.db }

reach : Reach setup with_card
reach =
    later
      (later
        (later start
          (request (post_bootstrap "boot" draw [] [] "raw" (parsed first_account)) empty_server))
        (uploaded false 7 ctx "some" (read (1 ∷ [])) bootstrapped))
      (request (post_push ctx body) with_blob)

Reach-IsStaffed_example : IsStaffed with_card.db
Reach-IsStaffed_example = Reach-IsStaffed setup with_card reach

abbrev card : Item
card = record {
  vault_id = "v";
  item_id = "card";
  kind = "card";
  rev = 1;
  updated_at = pos 60;
  deleted = false;
  device_id = "d";
  nonce = some [];
  ciphertext = some [];
  blob_refs = "some" ∷ [];
}

abbrev caller : Identity
caller = record { user_id = "u"; vault_id = "v"; device_id = "d" }

known_caller : current_identity ctx ≡ some caller
unfolding current_identity
known_caller = refl

-- The database after the three requests.
stored_card : with_card.db.items ≡ card ∷ []
unfolding handle bootstrap_server check_bootstrap params_of bootstrap_tx count_users bootstrap
    insert_vault insert_user insert_device insert_recovery_key with_immediate_tx upload check_upload
    store_file write_file file_exists path_of record_meta insert_if_absent current_identity push
    check_push decode_batch push_checked push_tx all_blob_refs missing_blob_refs get_vault_rev
    push_loop push_item get_item resolve accept_item increment_vault_rev upsert_item upsert
    mark_blobs_referenced find select update exists delete count read_bytes
stored_card = refl

counter : get_vault_rev "v" with_card.db ≡ some 1
unfolding handle bootstrap_server check_bootstrap params_of bootstrap_tx count_users bootstrap
    insert_vault insert_user insert_device insert_recovery_key with_immediate_tx upload check_upload
    store_file write_file file_exists path_of record_meta insert_if_absent current_identity push
    check_push decode_batch push_checked push_tx all_blob_refs missing_blob_refs get_vault_rev
    push_loop push_item get_item resolve accept_item increment_vault_rev upsert_item upsert
    mark_blobs_referenced find select update exists delete count read_bytes
counter = refl

card_there : In card with_card.db.items
card_there = rw stored_card (inl refl)

one_change : length (all_changes "v" (pos 0) with_card.db) ≡ 1
unfolding select sort_by_rev insert_by_rev
one_change = rw stored_card refl

live_blob_served_example :
    (content : Bytes) × (get "base" ctx "some" with_card ≡ json 200 content)
    × (digest content ≡ "some")
live_blob_served_example =
    live_blob_served setup with_card ctx caller card "some" reach known_caller card_there refl refl
      refl

changes_served_example :
    (pull_all plain_base64 "v" 1 2 (pos 0) with_card.db).0
    ≡ to_item_dtos plain_base64 (all_changes "v" (pos 0) with_card.db)
changes_served_example =
    changes_served setup plain_base64 "v" 1 1 2 (pos 0) with_card reach counter (omega arith)
      (omega (arith, one_change))

one_item : length (all_changes "v" (pos 0) db) ≡ 1
unfolding select sort_by_rev insert_by_rev
one_item = refl

pull_all_ends_example : (pull_all plain_base64 "v" 1 2 (pos 0) db).1 ≡ true
pull_all_ends_example =
    pull_all_ends plain_base64 "v" 1 1 db db-IsRevisioned at_one (omega arith) 2 (pos 0) db-IsTopped
      (omega (arith, one_item))
