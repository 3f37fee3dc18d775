-- ===== src/Tests/BlobRuns.antt =====
-- The blob theorems at a server with one blob; the digest of some bytes is the digit of their number.
use familycards.Prelude.{String, ◌==◌, ◌≡◌, refl, Bool, true, false, some, [], ◌∷◌}
use familycards.Prelude.Table.{find, delete, exists}
use familycards.Http.{Bytes, ok, status_of}
use familycards.Store.{Blob, empty_db}
use familycards.Auth.Context.{Identity, current_identity}
use familycards.Sync.Repository.{is_blob}
use familycards.Blobs.Files.{File, path_of, file_exists, delete_file}
use familycards.Blobs.Handlers.{Server, read, check_upload, store_file, record_meta, upload, get}
use familycards.Blobs.Repository.{insert_if_absent}
use familycards.Blobs.Handlers.Content.{IsContentAddressed}
use familycards.Blobs.Handlers.Race.{upload_lost}
use familycards.Tests.SyncRuns.{ctx}

abbrev digest : Bytes → String
digest [] = "none"
digest (b ∷ bs) = "some"

abbrev file : File
file = record { path = "base" ∷ "v" ∷ "so" ∷ "me" ∷ "some" ∷ []; content = 1 ∷ [] }

abbrev server : Server
server = record { db = empty_db; files = file ∷ [] }

abbrev caller : Identity
caller = record { user_id = "u"; vault_id = "v"; device_id = "d" }

files-IsContentAddressed : IsContentAddressed "base" digest (file ∷ [])
unfolding path_of
files-IsContentAddressed = (("v", refl), tt)

known_caller : current_identity ctx ≡ some caller
unfolding current_identity
known_caller = refl

fitting :
    check_upload "base" digest (current_identity ctx) "some" (read (1 ∷ [])) ≡ ok ("v", 1 ∷ [])
unfolding check_upload current_identity
fitting = refl

file_there : file_exists "base" "v" "some" server.files ≡ true
unfolding file_exists path_of find
file_there = refl

row_gone : exists (is_blob "v" "some") server.db.blobs ≡ false
unfolding exists
row_gone = refl

removed :
    delete_file "base" false "v" "some"
      (upload "base" digest false 7 ctx "some" (read (1 ∷ [])) server).1.files
    ≡ ok []
unfolding delete_file upload check_upload store_file record_meta insert_if_absent file_exists
    current_identity path_of find delete exists
removed = refl

upload_lost_example :
    (status_of (upload "base" digest false 7 ctx "some" (read (1 ∷ [])) server).0 ≡ 201)
    × (status_of (
          get "base" ctx "some"
            (record (upload "base" digest false 7 ctx "some" (read (1 ∷ [])) server).1 {
              files = [];
            }))
        ≡ 500)
upload_lost_example =
    upload_lost "base" digest false 7 ctx caller "some" (1 ∷ []) (read (1 ∷ [])) server []
      known_caller fitting file_there row_gone removed

abbrev one_file_fails : Blob → Bool
one_file_fails b = b.blob_id == "old"
