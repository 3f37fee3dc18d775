-- ===== src/Sync/Repository.antt =====
-- server/internal/sync/repository.go: the statements of the sync engine on the tables.
use familycards.Prelude.{
  ℕ, ◌+◌, ℤ, pos, ltb, ltb_ℤ, String, ◌==◌, Bool, true, false, not, ◌&&◌, Option, none, some, List,
  [], ◌∷◌, take, if◌then◌else◌,
}
use familycards.Prelude.Table.{find, select, count, update, delete, exists}
use familycards.Http.{other}
use familycards.Store.{Vault, Item, Blob, Db}
pub use familycards.Store.Tx.{or_fail}
use familycards.Store.Tx.{Tx, ◌>>=◌, ◌>>◌, writes, reads}

abbrev pub is_item : String → String → Item → Bool
is_item vault_id item_id row = row.vault_id == vault_id && row.item_id == item_id

-- ErrNotFound is `none`.
unfoldable pub get_item : String → String → Db → Option Item
get_item vault_id item_id db = find (is_item vault_id item_id) db.items

-- INSERT … ON CONFLICT(vault_id, item_id) DO UPDATE SET
unfoldable pub upsert : Item → List Item → List Item
upsert it [] = it ∷ []
upsert it (row ∷ rows) =
    let rest = upsert it rows in
    if is_item it.vault_id it.item_id row then it ∷ rows else row ∷ rest

unfoldable pub upsert_item : Item → Db → Db
unfolding upsert
upsert_item it db = record db { items = upsert it db.items }

abbrev pub is_vault : String → Vault → Bool
is_vault vault_id row = row.id == vault_id

unfoldable pub get_vault_rev : String → Db → Option ℕ
get_vault_rev vault_id db = elim (find (is_vault vault_id) db.vaults) [
  | none ↦ none
  | some v ↦ some v.last_rev
]

abbrev pub bump : Vault → Vault
bump v = record v { last_rev = v.last_rev + 1 }

abbrev pub bump_vault : String → Db → Db
bump_vault vault_id db = record db { vaults = update (is_vault vault_id) bump db.vaults }

-- A vault that is not there has no row to read back.
unfoldable pub increment_vault_rev : String → Tx ℕ
unfolding get_vault_rev
increment_vault_rev vault_id = do
  writes (bump_vault vault_id)
  rev ← reads (get_vault_rev vault_id)
  or_fail other rev

-- ORDER BY rev ASC
unfoldable pub insert_by_rev : Item → List Item → List Item
insert_by_rev x [] = x ∷ []
insert_by_rev x (y ∷ ys) =
    let rest = insert_by_rev x ys in if ltb y.rev x.rev then y ∷ rest else x ∷ y ∷ ys

unfoldable pub sort_by_rev : List Item → List Item
unfolding insert_by_rev
sort_by_rev [] = []
sort_by_rev (x ∷ xs) = insert_by_rev x (sort_by_rev xs)

abbrev pub is_change : String → ℤ → Item → Bool
is_change vault_id since row = row.vault_id == vault_id && ltb_ℤ since (pos row.rev)

unfoldable pub list_changes : String → ℤ → ℕ → Db → List Item
unfolding sort_by_rev
list_changes vault_id since limit db =
    take limit (sort_by_rev (select (is_change vault_id since) db.items))

abbrev pub is_blob : String → String → Blob → Bool
is_blob vault_id blob_id row = row.vault_id == vault_id && row.blob_id == blob_id

abbrev pub contains : String → List String → Bool
contains s [] = false
contains s (x ∷ xs) = let rest = contains s xs in if x == s then true else rest

-- The ids that have no row in the vault.
unfoldable pub missing_blob_refs : String → List String → Db → List String
missing_blob_refs vault_id blob_ids db =
    select (λ id. not (exists (is_blob vault_id id) db.blobs)) blob_ids

abbrev pub in_vault_list : String → List String → Blob → Bool
in_vault_list vault_id blob_ids row = row.vault_id == vault_id && contains row.blob_id blob_ids

abbrev pub mark : Blob → Blob
mark b = record b { referenced = true }

unfoldable pub mark_blobs_referenced : String → List String → Db → Db
mark_blobs_referenced vault_id blob_ids db = record db {
  blobs = update (in_vault_list vault_id blob_ids) mark db.blobs;
}

abbrev pub is_old_tombstone : ℤ → Item → Bool
is_old_tombstone cutoff row = row.deleted && ltb_ℤ row.updated_at cutoff

-- The database without the old tombstones, and how many rows went.
unfoldable pub delete_tombstones_older_than : ℤ → Db → Db × ℕ
delete_tombstones_older_than cutoff db = (
  record db { items = delete (is_old_tombstone cutoff) db.items },
  count (is_old_tombstone cutoff) db.items,
)
