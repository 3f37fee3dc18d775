-- ===== src/Blobs/Handlers/Race.antt =====
-- An upload between the transaction of a collected blob and the removal of its file. `RunGC` of
-- server/internal/blobs/gc.go commits the deletion of the row first and removes the file after it,
-- and `Upload` of server/internal/blobs/handlers.go writes no file where one is there.
use familycards.Prelude.{
  ℕ, String, ◌≡◌, refl, ◌∙◌, Bool, true, false, some, List, [], ◌∷◌, length, is_some, arith,
  eq_refl,
}
use familycards.Prelude.Table.{exists, is_some-find, exists-append}
use familycards.Http.{Bytes, ok, status_of}
use familycards.Store.{Blob, Db}
use familycards.Sync.Repository.{is_blob}
use familycards.Auth.Context.{Identity, Context, current_identity}
use familycards.Blobs.Repository.{get_meta, insert_if_absent}
use familycards.Blobs.Files.{File, file_exists, delete_file}
use familycards.Blobs.Files.Laws.{file_exists-delete_file, read_file-absent}
use familycards.Blobs.Handlers.{
  Server, ReadBody, check_upload, store_file, record_meta, upload, get,
}

exists-one :
    (v id : String) (b : Blob)
    → b.vault_id ≡ v
    → b.blob_id ≡ id
    → exists (is_blob v id) (b ∷ []) ≡ true
unfolding exists
exists-one v id b e f = rw (e, f, eq_refl v, eq_refl id)

-- A new row is found.
insert_if_absent-created :
    (v id : String) (size now : ℕ) (db : Db)
    → exists (is_blob v id) db.blobs ≡ false
    → ((insert_if_absent v id size now db).0 ≡ true)
      × (is_some (get_meta v id (insert_if_absent v id size now db).1) ≡ true)
unfolding insert_if_absent get_meta
insert_if_absent-created v id size now db h = rw h (
  refl,
  is_some-find (is_blob v id) _
      ∙ rw (exists-append (is_blob v id) db.blobs _, h) (exists-one v id _ refl refl),
)

module _ (base_dir : String) (sha256_hex : Bytes → String) where
  get-no_file :
      (ctx : Context) (id : Identity) (blob_id : String) (s : Server)
      → current_identity ctx ≡ some id
      → is_some (get_meta id.vault_id blob_id s.db) ≡ true
      → file_exists base_dir id.vault_id blob_id s.files ≡ false
      → status_of (get base_dir ctx blob_id s) ≡ 500
  unfolding get
  get-no_file ctx id blob_id s c m f =
      rw c (ground (arith, m, read_file-absent base_dir id.vault_id blob_id s.files f))

  -- An upload of a blob whose file is there and whose row is not writes no file.
  upload-file_there :
      (fails : Bool) (now : ℕ) (ctx : Context) (v claimed_id : String) (content : Bytes)
      (body : ReadBody) (s : Server)
      → check_upload base_dir sha256_hex (current_identity ctx) claimed_id body ≡ ok (v, content)
      → file_exists base_dir v (sha256_hex content) s.files ≡ true
      → exists (is_blob v (sha256_hex content)) s.db.blobs ≡ false
      → (status_of (upload base_dir sha256_hex fails now ctx claimed_id body s).0 ≡ 201)
        × (is_some (
              get_meta v
                (sha256_hex content)
                (upload base_dir sha256_hex fails now ctx claimed_id body s).1.db)
            ≡ true)
        × ((upload base_dir sha256_hex fails now ctx claimed_id body s).1.files ≡ s.files)
  unfolding upload store_file record_meta
  upload-file_there fails now ctx v claimed_id content body s checked there absent =
      let (created, found) =
        insert_if_absent-created v (sha256_hex content) (length content) now s.db absent in
      rw (checked, there, created) (refl, found, refl)

  -- Let the row of a blob be gone and its file still be there, as after the transaction of a collected
  -- blob and before the removal of its file. If an upload of the blob passes its checks at that moment
  -- and the file is removed after it, then the upload is answered with 201, and a request for the blob
  -- with 500.
  pub upload_lost :
      (fails : Bool) (now : ℕ) (ctx : Context) (id : Identity) (claimed_id : String)
      (content : Bytes) (body : ReadBody) (s : Server) (files : List File)
      → current_identity ctx ≡ some id
      → check_upload base_dir sha256_hex (current_identity ctx) claimed_id body
        ≡ ok (id.vault_id, content)
      → file_exists base_dir id.vault_id (sha256_hex content) s.files ≡ true
      → exists (is_blob id.vault_id (sha256_hex content)) s.db.blobs ≡ false
      → delete_file base_dir false id.vault_id
          (sha256_hex content)
          (upload base_dir sha256_hex fails now ctx claimed_id body s).1.files
        ≡ ok files
      → (status_of (upload base_dir sha256_hex fails now ctx claimed_id body s).0 ≡ 201)
        × (status_of (
              get base_dir ctx
                (sha256_hex content)
                (record (upload base_dir sha256_hex fails now ctx claimed_id body s).1 {
                  files = files;
                }))
            ≡ 500)
  upload_lost fails now ctx id claimed_id content body s files c checked there absent removed =
      let (created, found, same) =
        upload-file_there fails now ctx id.vault_id claimed_id content body s checked there
          absent in
      (
        created,
        get-no_file ctx id (sha256_hex content) _ c found
            (file_exists-delete_file base_dir id.vault_id (sha256_hex content) _ files removed),
      )
