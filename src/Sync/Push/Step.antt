-- ===== src/Sync/Push/Step.antt =====
-- One round of the loop of `Push` of server/internal/sync/handlers.go.
use familycards.Prelude.{ℕ, ◌+◌, String, ◌≡◌, Bool, true, false, some, List, [], ◌∷◌, arith}
use familycards.Prelude.Table.{find, update}
use familycards.Http.{Base64}
use familycards.Store.Tx.{ran}
use familycards.Store.{Vault, Db}
use familycards.Sync.Resolve.{resolve}
use familycards.Sync.Repository.{
  is_vault, bump, bump_vault, get_item, upsert_item, get_vault_rev, increment_vault_rev,
  mark_blobs_referenced,
}
use familycards.Sync.Wire.{Decoded}
use familycards.Sync.Push.{
  accepted, conflicted, current_item, incoming_of, store_at, conflict_dto, accept_item, push_item,
}

-- The database after `it` has been stored at the revision after `n`.
abbrev pub stored_db : String → ℕ → Decoded → Db → Db
stored_db v n it db =
    mark_blobs_referenced v it.blob_refs (upsert_item (store_at it (n + 1)) (bump_vault v db))

pub get_vault_rev-bump :
    (v : String) (n : ℕ) (db : Db) (vs : List Vault)
    → get_vault_rev v (record db { vaults = vs }) ≡ some n
    → get_vault_rev v (record db { vaults = update (is_vault v) bump vs }) ≡ some (n + 1)
unfolding get_vault_rev find update
get_vault_rev-bump v n db [] h = cc
get_vault_rev-bump v n db (x ∷ vs) h = ground (arith, get_vault_rev-bump v n db vs)

pub get_vault_rev-stored_db :
    (v : String) (n : ℕ) (it : Decoded) (db : Db)
    → get_vault_rev v db ≡ some n
    → get_vault_rev v (stored_db v n it db) ≡ some (n + 1)
unfolding upsert_item mark_blobs_referenced get_vault_rev
get_vault_rev-stored_db v n it db h = unfold get_vault_rev in get_vault_rev-bump v n db db.vaults h

module _ (b64 : Base64) (v : String) (n : ℕ) (it : Decoded) (db : Db) where
  abbrev wins_here : Bool
  wins_here = resolve (current_item (get_item v it.item_id db)) (incoming_of it)

  accept_item_lem :
      get_vault_rev v db ≡ some n
      → accept_item b64 v it db
        ≡ ran (accepted (record { item_id = it.item_id; rev = n + 1 }), stored_db v n it db)
  unfolding accept_item increment_vault_rev
  accept_item_lem h = rw (get_vault_rev-bump v n db db.vaults h, get_vault_rev)

  -- An item that the resolver accepts is stored at the next revision.
  pub push_item-accepted :
      get_vault_rev v db ≡ some n
      → resolve (current_item (get_item v it.item_id db)) (incoming_of it) ≡ true
      → push_item b64 v it db
        ≡ ran (accepted (record { item_id = it.item_id; rev = n + 1 }), stored_db v n it db)
  unfolding push_item
  push_item-accepted h w = rw w (accept_item_lem h)

  -- One that it refuses changes nothing.
  pub push_item-conflicted :
      resolve (current_item (get_item v it.item_id db)) (incoming_of it) ≡ false
      → push_item b64 v it db
        ≡ ran (conflicted (conflict_dto b64 (get_item v it.item_id db) it), db)
  unfolding push_item
  push_item-conflicted w = rw w
