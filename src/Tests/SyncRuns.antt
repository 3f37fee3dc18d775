-- ===== src/Tests/SyncRuns.antt =====
-- The sync theorems at a vault with one item, to which a second one is pushed.
use familycards.Prelude.{
  ◌+◌, pos, String, ◌≡◌, refl, inl, Bool, true, false, some, [], ◌∷◌, length, All, arith,
}
use mathlib.Core.List.{Permᴰ}
use familycards.Prelude.Table.{find, select, update, exists}
use familycards.Http.{ok, json, Body, parsed}
use familycards.Store.{Item, Blob, Db, empty_db}
use familycards.Auth.Context.{Context, current_identity}
use familycards.Tests.Encoding.{read_bytes, plain_base64}
use familycards.Sync.Resolve.{Incoming}
use familycards.Sync.Resolve.Order.{settle_all, SameStamp, settle_all-perm, Settled}
use familycards.Sync.Repository.{missing_blob_refs, get_vault_rev, delete_tombstones_older_than}
use familycards.Sync.Wire.{PushRequest, PushResponse, Decoded}
use familycards.Sync.Revisions.{IsRevisioned}
use familycards.Sync.Backed.{IsBacked}
use familycards.Sync.Push.{push, check_push, all_blob_refs}
use familycards.Sync.Push.Loop.{Consecutive, Answered}
use familycards.Sync.Push.Transaction.{refs_missing}
use familycards.Sync.Push.Contract.{Stored, push_completes}
use familycards.Sync.Changes.{changes_of}
use familycards.Sync.Changes.Cursor.{IsTopped, has_more_stuck}
use familycards.Store.Tx.{with_immediate_tx}
use familycards.Sync.Resolve.{resolve}
use familycards.Sync.Repository.{
  get_item, upsert, upsert_item, increment_vault_rev, insert_by_rev, sort_by_rev,
  mark_blobs_referenced,
}
use familycards.Sync.Wire.{decode_batch}
use familycards.Sync.Push.{accept_item, push_item, push_loop, push_tx, push_checked}
use familycards.Sync.Changes.Remaining.{all_changes}
use familycards.Sync.Changes.Paging.{pull_all}
use familycards.Sync.Delivery.{delivers, pushed_is_pulled}

abbrev pub first : Item
first = record {
  vault_id = "v";
  item_id = "first";
  kind = "card";
  rev = 1;
  updated_at = pos 50;
  deleted = false;
  device_id = "d";
  nonce = some [];
  ciphertext = some [];
  blob_refs = "old" ∷ [];
}

abbrev pub gone_item : Item
gone_item = record first { deleted = true; blob_refs = [] }

abbrev pub blob_of : String → Bool → Blob
blob_of id referenced = record {
  vault_id = "v";
  blob_id = id;
  size = 3;
  created_at = 0;
  referenced = referenced;
}

abbrev pub db : Db
db = record empty_db {
  vaults = (record { id = "v"; created_at = 0; last_rev = 1; max_users = 5 }) ∷ [];
  items = first ∷ [];
  blobs = blob_of "old" true ∷ blob_of "new" false ∷ [];
}

-- The item of the vault is a tombstone.
abbrev db_tombstone : Db
db_tombstone = record db { items = gone_item ∷ [] }

abbrev pub ctx : Context
ctx = record { ctx_user_id = some "u"; ctx_vault_id = some "v"; ctx_device_id = some "d" }

-- One item with a blob; `e` is the text of no bytes.
abbrev body : Body PushRequest
body = parsed (record {
  device_id = "d";
  items =
      (record {
        item_id = "second";
        kind = "card";
        base_rev = pos 0;
        updated_at = pos 60;
        deleted = false;
        nonce = some "e";
        ciphertext = some "e";
        blob_refs = "new" ∷ [];
      })
      ∷ [];
})

abbrev pub second : Decoded
second = record {
  vault_id = "v";
  item_id = "second";
  kind = "card";
  rev = pos 0;
  updated_at = pos 60;
  deleted = false;
  device_id = "d";
  nonce = some [];
  ciphertext = some [];
  blob_refs = "new" ∷ [];
}

checked : check_push plain_base64 (current_identity ctx) body ≡ ok ("v", second ∷ [])
unfolding check_push current_identity read_bytes
checked = refl

uploaded : refs_missing "v" (all_blob_refs (second ∷ []) []) db ≡ false
unfolding all_blob_refs missing_blob_refs select exists
uploaded = refl

pub at_one : get_vault_rev "v" db ≡ some 1
unfolding get_vault_rev find
at_one = refl

pub db-IsRevisioned : IsRevisioned db
unfolding get_vault_rev find
db-IsRevisioned = record { below = (omega arith, tt); distinct = (tt, tt) }

pub db-IsBacked : IsBacked db
unfolding exists
db-IsBacked = record { backed = ((λ live. (refl, tt)), tt) }

push_completes_example :
    (resp : PushResponse) × ((push plain_base64 ctx body db).0 ≡ json 200 resp)
    × Consecutive 1 resp.accepted
    × (length resp.accepted + length resp.conflicts ≡ 1)
    × All (Answered resp.accepted resp.conflicts) (second ∷ [])
    × All (Stored "v" (second ∷ []) (push plain_base64 ctx body db).1) resp.accepted
    × (resp.server_rev ≡ 1 + length resp.accepted)
    × (get_vault_rev "v" (push plain_base64 ctx body db).1 ≡ some resp.server_rev)
push_completes_example =
    push_completes plain_base64 ctx body db "v" (second ∷ []) 1 checked uploaded at_one

-- Two devices write to an item that both have seen at revision 1, while the server is at 2.
abbrev stored : Settled
stored = record { item = record { rev = 2; updated_at = pos 50; device_id = "d" }; counter = 2 }

abbrev write_a : Incoming
write_a = record { base_rev = pos 1; updated_at = pos 70; device_id = "a" }

abbrev write_b : Incoming
write_b = record { base_rev = pos 1; updated_at = pos 70; device_id = "b" }

settle_all-perm_example :
    SameStamp
      (settle_all stored (write_a ∷ write_b ∷ [])).item
      (settle_all stored (write_b ∷ write_a ∷ [])).item
settle_all-perm_example =
    settle_all-perm {vs = write_a ∷ write_b ∷ []} {ws = write_b ∷ write_a ∷ []} 2 stored
      (Permᴰ.swap refl refl) (record { recent = omega arith; counted = omega arith })
      (omega arith, (omega arith, tt))

pub db-IsTopped : IsTopped "v" 1 db
db-IsTopped = record { top = first; stored = inl refl; in_vault = refl; at_counter = refl }

at_one_tombstone : get_vault_rev "v" db_tombstone ≡ some 1
unfolding get_vault_rev find
at_one_tombstone = refl

has_more_stuck_example :
    changes_of plain_base64 "v" (pos 0) 10 (delete_tombstones_older_than (pos 100) db_tombstone).0
    ≡ ok (record { server_rev = 1; next_since = pos 0; has_more = true; items = [] })
has_more_stuck_example =
    has_more_stuck plain_base64 "v" (pos 0) (pos 100) 1 10 db_tombstone at_one_tombstone refl
      ((λ c. refl), tt)

one_pushed : length (all_changes "v" (pos 1) (push plain_base64 ctx body db).1) ≡ 1
unfolding push check_push decode_batch push_checked push_tx all_blob_refs missing_blob_refs
    get_vault_rev push_loop push_item get_item resolve accept_item increment_vault_rev upsert_item
    upsert mark_blobs_referenced with_immediate_tx current_identity find select update exists
    sort_by_rev insert_by_rev read_bytes
one_pushed = refl

pushed_is_pulled_example :
    (resp : PushResponse) × ((push plain_base64 ctx body db).0 ≡ json 200 resp)
    × All
        (λ a.
          exists
            (delivers a)
            (pull_all plain_base64 "v" 1 2 (pos 1) (push plain_base64 ctx body db).1).0
          ≡ true)
        resp.accepted
pushed_is_pulled_example =
    pushed_is_pulled plain_base64 ctx body db "v" (second ∷ []) 1 1 2 db-IsRevisioned checked
      uploaded at_one (omega arith) (omega (arith, one_pushed))
