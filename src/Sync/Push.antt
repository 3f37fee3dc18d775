-- ===== src/Sync/Push.antt =====
-- POST /v1/sync/push: `Push` of server/internal/sync/handlers.go.
pub mod Step
pub mod Loop
pub mod Invariant
pub mod References
pub mod Checks
pub mod Transaction
pub mod Contract
pub mod Replay
pub mod Held
use familycards.Prelude.{
  ℕ, suc, ◌+◌, ℤ, ltb, String, ◌==◌, Bool, true, false, not, Option, none, some, List, [], ◌∷◌,
  ◌++◌, length, if◌then◌else◌,
}
use familycards.Http.{
  Base64, Error, other, not_found, Result, ok, err, Reply, json, Body, decode_json, write_error,
  bad_request, unauthorized, conflict,
}
use familycards.Http.{◌>>=◌ as ◌>>=?◌}
use familycards.Store.{ItemOf, Item, Db}
use familycards.Store.Tx.{
  ran, Tx, ◌>>=◌, ◌>>◌, pure, throw, reads, writes, fail_if, with_immediate_tx,
}
use familycards.Auth.Context.{Identity, Context, current_identity}
use familycards.Sync.Resolve.{CurrentItem, Incoming, resolve}
use familycards.Sync.Repository.{
  get_item, or_fail, upsert_item, get_vault_rev, increment_vault_rev, contains, missing_blob_refs,
  mark_blobs_referenced,
}
use familycards.Sync.Wire.{
  ItemDto, PushRequest, AcceptedDto, PushResponse, Decoded, decode_batch, item_dto_from,
  gone_conflict_dto,
}

abbrev pub max_push_batch_size : ℕ
max_push_batch_size = 100

-- The map `allBlobRefs`, as the list of its keys.
abbrev pub add_refs : List String → List String → List String
add_refs [] refs = refs
add_refs (b ∷ bs) refs = add_refs bs (if contains b refs then refs else refs ++ b ∷ [])

unfoldable pub all_blob_refs : List Decoded → List String → List String
all_blob_refs [] refs = refs
all_blob_refs (it ∷ its) refs = all_blob_refs its (add_refs it.blob_refs refs)

-- What the resolver is shown of the item that is stored.
abbrev pub current_item : Option Item → Option CurrentItem
current_item none = none
current_item (some cur) =
    some (record { rev = cur.rev; updated_at = cur.updated_at; device_id = cur.device_id })

abbrev pub incoming_of : Decoded → Incoming
incoming_of it = record { base_rev = it.rev; updated_at = it.updated_at; device_id = it.device_id }

abbrev pub store_at : Decoded → ℕ → Item
store_at it rev = record {
  vault_id = it.vault_id;
  item_id = it.item_id;
  kind = it.kind;
  rev = rev;
  updated_at = it.updated_at;
  deleted = it.deleted;
  device_id = it.device_id;
  nonce = it.nonce;
  ciphertext = it.ciphertext;
  blob_refs = it.blob_refs;
}

pub data Outcome : Type 0 where
  accepted : AcceptedDto → Outcome
  conflicted : ItemDto → Outcome

abbrev pub add_outcome : Outcome → List AcceptedDto × List ItemDto → List AcceptedDto × List ItemDto
add_outcome (accepted a) (done, conflicts) = (done ++ a ∷ [], conflicts)
add_outcome (conflicted c) (done, conflicts) = (done, conflicts ++ c ∷ [])

abbrev pub push_reply : Result PushResponse × Db → Reply PushResponse × Db
push_reply (ok r, db) = (json 200 r, db)
push_reply (err e, db) = (write_error e, db)

module _ (b64 : Base64) where
  unfoldable pub conflict_dto : Option Item → Decoded → ItemDto
  conflict_dto (some cur) incoming = item_dto_from b64 cur
  conflict_dto none incoming = gone_conflict_dto incoming.item_id incoming.kind

  -- An accepted item gets the next revision, is stored and marks its blobs.
  unfoldable pub accept_item : String → Decoded → Tx Outcome
  unfolding increment_vault_rev upsert_item mark_blobs_referenced
  accept_item vault_id incoming = do
    new_rev ← increment_vault_rev vault_id
    writes (upsert_item (store_at incoming new_rev))
    writes (mark_blobs_referenced vault_id incoming.blob_refs)
    pure (accepted (record { item_id = incoming.item_id; rev = new_rev }))

  -- One round of the loop over the batch.
  unfoldable pub push_item : String → Decoded → Tx Outcome
  unfolding get_item resolve accept_item conflict_dto
  push_item vault_id incoming db =
      let cur = get_item vault_id incoming.item_id db in
      if resolve (current_item cur) (incoming_of incoming)
      then accept_item vault_id incoming db
      else ran (conflicted (conflict_dto cur incoming), db)

  unfoldable pub push_loop :
      String → List Decoded → List AcceptedDto × List ItemDto → Tx (List AcceptedDto × List ItemDto)
  push_loop vault_id [] out = pure out
  push_loop vault_id (it ∷ its) out = do
    o ← push_item vault_id it
    push_loop vault_id its (add_outcome o out)

  -- The transaction of `Push`.
  unfoldable pub push_tx : String → List Decoded → List String → Tx PushResponse
  unfolding missing_blob_refs get_vault_rev
  push_tx vault_id decoded blob_ref_list = do
    absent ← reads (missing_blob_refs vault_id blob_ref_list)
    fail_if (ltb 0 (length absent)) (conflict "references blobs that were not uploaded")
    out ← push_loop vault_id decoded ([], [])
    rev ← reads (get_vault_rev vault_id)
    server_rev ← or_fail not_found rev
    pure (record { server_rev = server_rev; accepted = out.0; conflicts = out.1 })

  -- What `Push` checks before it opens the transaction.
  unfoldable pub check_push : Option Identity → Body PushRequest → Result (String × List Decoded)
  unfolding decode_batch
  check_push none body = err (unauthorized "not authenticated")
  check_push (some id) body = decode_json body >>=? λ req.
      if not (req.device_id == id.device_id)
      then err (bad_request "device_id does not match authenticated device")
      else if ltb max_push_batch_size (length req.items)
      then err (bad_request "batch exceeds maximum of 100 items")
      else (decode_batch b64 id.vault_id req.device_id req.items >>=? λ its. ok (id.vault_id, its))

  unfoldable pub push_checked : Result (String × List Decoded) → Db → Reply PushResponse × Db
  unfolding push_tx all_blob_refs
  push_checked (err e) db = (write_error e, db)
  push_checked (ok (vault_id, its)) db =
      push_reply (with_immediate_tx (push_tx vault_id its (all_blob_refs its [])) db)

  unfoldable pub push : Context → Body PushRequest → Db → Reply PushResponse × Db
  unfolding current_identity check_push push_checked with_immediate_tx
  push ctx body db = push_checked (check_push (current_identity ctx) body) db
