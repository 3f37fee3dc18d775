-- ===== src/Blobs/Handlers.antt =====
-- POST /v1/blobs and GET /v1/blobs/{blob_id}: server/internal/blobs/handlers.go. The digest
-- `hex(sha256(…))` is a parameter.
pub mod Content
pub mod Race
use familycards.Prelude.{
  ℕ, ltb, String, ◌==◌, Bool, true, false, not, Option, none, some, List, [], ◌∷◌, length,
  if◌then◌else◌,
}
use familycards.Http.{
  Bytes, Error, Result, ok, err, Reply, json, write_error, bad_request, unauthorized, missing,
  too_large, internal,
}
use familycards.Store.{Blob, Db}
use familycards.Auth.Context.{Identity, Context, current_identity}
use familycards.Blobs.Repository.{get_meta, insert_if_absent}
use familycards.Blobs.Files.{File, file_exists, write_file, read_file}

abbrev pub max_blob_bytes : ℕ
max_blob_bytes = 8388608

-- What a request changes: the database and the disk.
pub record Server : Type 0 where
  pub db : Db
  pub files : List File

pub record UploadResponse : Type 0 where
  pub blob_id : String
  pub size : ℕ

-- What io.ReadAll returns of the body, behind the two limits.
pub data ReadBody : Type 0 where
  read : Bytes → ReadBody
  over_limit : ReadBody
  broken : ReadBody

abbrev pub read_all : ReadBody → Result Bytes
read_all (read b) =
    if ltb max_blob_bytes (length b) then err (too_large "blob exceeds 8 MiB") else ok b
read_all over_limit = err (too_large "blob exceeds 8 MiB")
read_all broken = err (bad_request "failed to read request body")

module _ (base_dir : String) (sha256_hex : Bytes → String) where
  -- The checks on an upload: the caller's vault and the bytes, or an error.
  unfoldable pub check_upload : Option Identity → String → ReadBody → Result (String × Bytes)
  check_upload none claimed_id body = err (unauthorized "not authenticated")
  check_upload (some id) claimed_id body =
      if claimed_id == ""
      then err (bad_request "X-Blob-Id header is required")
      else (elim (read_all body) [
        | err e ↦ err e
        | ok b ↦
            if sha256_hex b == claimed_id
            then ok (id.vault_id, b)
            else err (bad_request "X-Blob-Id does not match sha256 of the request body")
      ])

  -- The file is written unless one is there.
  unfoldable pub store_file : Bool → String → Bytes → List File → Result (List File)
  unfolding file_exists write_file
  store_file fails vault_id content files =
      if file_exists base_dir vault_id (sha256_hex content) files
      then ok files
      else write_file base_dir fails vault_id (sha256_hex content) content files

  -- The metadata row is inserted unless one is there.
  unfoldable pub record_meta : ℕ → String → Bytes → Db → Reply UploadResponse × Db
  unfolding insert_if_absent
  record_meta now vault_id content db =
      let (created, after) =
        insert_if_absent vault_id (sha256_hex content) (length content) now db in
      (
        json (if created then 201 else 200)
            (record { blob_id = sha256_hex content; size = length content }),
        after,
      )

  abbrev pub finish_upload :
      ℕ → String → Bytes → Result (List File) → Server → Reply UploadResponse × Server
  finish_upload now vault_id content (err e) s = (write_error (internal "failed to store blob"), s)
  finish_upload now vault_id content (ok files) s =
      let (reply, db) = record_meta now vault_id content s.db in
      (reply, record { db = db; files = files })

  abbrev pub store_checked :
      Bool → ℕ → Result (String × Bytes) → Server → Reply UploadResponse × Server
  store_checked fails now (err e) s = (write_error e, s)
  store_checked fails now (ok (vault_id, content)) s =
      finish_upload now vault_id content (store_file fails vault_id content s.files) s

  unfoldable pub upload :
      Bool → ℕ → Context → String → ReadBody → Server → Reply UploadResponse × Server
  unfolding check_upload store_file record_meta current_identity
  upload fails now ctx claimed_id body s =
      store_checked fails now (check_upload (current_identity ctx) claimed_id body) s

module _ (base_dir : String) where
  abbrev pub send_file : Result Bytes → Reply Bytes
  send_file (err e) = write_error (internal "blob metadata exists but file is missing")
  send_file (ok content) = json 200 content

  abbrev pub get_for : Option Identity → String → Server → Reply Bytes
  get_for none blob_id s = write_error (unauthorized "not authenticated")
  get_for (some id) blob_id s = elim (get_meta id.vault_id blob_id s.db) [
    | none ↦ write_error (missing "blob not found")
    | some m ↦ send_file (read_file base_dir id.vault_id blob_id s.files)
  ]

  unfoldable pub get : Context → String → Server → Reply Bytes
  unfolding get_meta read_file current_identity
  get ctx blob_id s = get_for (current_identity ctx) blob_id s
