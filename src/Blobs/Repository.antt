-- ===== src/Blobs/Repository.antt =====
-- server/internal/blobs/repository.go: the statements on the blobs table. `blob_refs` of an item is
-- the list of ids that its JSON text holds, and the LIKE of `IsBlobLive` is membership in it, which
-- it is for ids that are hex digests. `strings.TrimSpace` is a parameter.
use familycards.Prelude.{
  ℕ, ◌+◌, ltb, String, ◌==◌, Bool, true, false, not, ◌&&◌, Option, List, [], ◌∷◌, ◌++◌, map,
  if◌then◌else◌,
}
use familycards.Prelude.Table.{find, select, insert, delete, exists}
use familycards.Store.{Item, Blob, Db}
use familycards.Sync.Repository.{is_blob, contains}

-- A row of the table is a `Meta`.
unfoldable pub get_meta : String → String → Db → Option Blob
get_meta vault_id blob_id db = find (is_blob vault_id blob_id) db.blobs

-- INSERT OR IGNORE; the result tells whether the row is new.
unfoldable pub insert_if_absent : String → String → ℕ → ℕ → Db → Bool × Db
insert_if_absent vault_id blob_id size created_at db =
    if exists (is_blob vault_id blob_id) db.blobs then (false, db) else (
      true,
      record db {
        blobs =
            insert
              (record {
                vault_id = vault_id;
                blob_id = blob_id;
                size = size;
                created_at = created_at;
                referenced = false;
              })
              db.blobs;
      },
    )

-- referenced = 0 AND created_at < now - grace
unfoldable pub list_unreferenced_older_than : ℕ → ℕ → Db → List Blob
list_unreferenced_older_than now grace db =
    select (λ b. not b.referenced && ltb (b.created_at + grace) now) db.blobs

-- referenced = 1 AND created_at < now - grace
unfoldable pub list_referenced_older_than : ℕ → ℕ → Db → List Blob
list_referenced_older_than now grace db =
    select (λ b. b.referenced && ltb (b.created_at + grace) now) db.blobs

unfoldable pub delete_meta : String → String → Db → Db
delete_meta vault_id blob_id db = record db { blobs = delete (is_blob vault_id blob_id) db.blobs }

abbrev pub is_unreferenced : String → String → Blob → Bool
is_unreferenced vault_id blob_id b = is_blob vault_id blob_id b && not b.referenced

-- The result tells whether a row went.
unfoldable pub delete_meta_if_unreferenced : String → String → Db → Bool × Db
delete_meta_if_unreferenced vault_id blob_id db = (
  exists (is_unreferenced vault_id blob_id) db.blobs,
  record db { blobs = delete (is_unreferenced vault_id blob_id) db.blobs },
)

abbrev pub refers_to : String → String → Item → Bool
refers_to vault_id blob_id it =
    it.vault_id == vault_id && not it.deleted && contains blob_id it.blob_refs

unfoldable pub is_blob_live : String → String → Db → Bool
is_blob_live vault_id blob_id db = exists (refers_to vault_id blob_id) db.items

-- The set `live`, as a list.
unfoldable pub live_blob_refs : (String → String) → String → List Item → List String
live_blob_refs trim_space vault_id [] = []
live_blob_refs trim_space vault_id (it ∷ its) =
    let rest = live_blob_refs trim_space vault_id its in
    if it.vault_id == vault_id && not it.deleted then map trim_space it.blob_refs ++ rest else rest

-- SELECT DISTINCT vault_id
unfoldable pub distinct_vaults : List Blob → List String → List String
distinct_vaults [] seen = seen
distinct_vaults (b ∷ bs) seen =
    distinct_vaults bs (if contains b.vault_id seen then seen else seen ++ b.vault_id ∷ [])

unfoldable pub distinct_vaults_with_blobs : Db → List String
unfolding distinct_vaults
distinct_vaults_with_blobs db = distinct_vaults db.blobs []
