-- ===== src/Blobs/Handlers/Content.antt =====
-- Files at the paths of their digests, under `Upload` of server/internal/blobs/handlers.go.
use familycards.Prelude.{
  ℕ, String, ◌≡◌, refl, sym, subst, ◌∙◌, inl, inr, Bool, false, List, All, All-append, All-map,
  arith, Bool-cases, Option-cases,
}
use familycards.Prelude.Table.{find, delete, All-delete, find_All, find_sound}
use familycards.Http.{Bytes, Result, ok, err}
use familycards.Auth.Context.{Context, current_identity}
use familycards.Blobs.Files.{File, is_at, path_of, file_exists, write_file, read_file}
use familycards.Blobs.Files.Laws.{path_beq→≡, path_of_inj}
use familycards.Blobs.Handlers.{
  Server, ReadBody, store_file, store_checked, check_upload, finish_upload, upload,
}

module _ (base_dir : String) (sha256_hex : Bytes → String) where
  -- Each file is at the path of its digest, in some vault.
  abbrev pub AtDigest : File → Type 0
  AtDigest f = (v : String) × (f.path ≡ path_of base_dir v (sha256_hex f.content))

  abbrev pub IsContentAddressed : List File → Type 0
  IsContentAddressed fs = All AtDigest fs

  pub delete-IsContentAddressed :
      (p : File → Bool) (fs : List File) → IsContentAddressed fs → IsContentAddressed (delete p fs)
  delete-IsContentAddressed p fs h =
      All-map (λ f. AtDigest f × (p f ≡ false)) AtDigest (delete p fs) (λ f q. q.0)
        (All-delete AtDigest p fs h)

  abbrev FilesKept : Result (List File) → Type 0
  FilesKept (ok fs) = IsContentAddressed fs
  FilesKept (err e) = Unit

  store_file-FilesKept :
      (fails : Bool) (v : String) (content : Bytes) (fs : List File)
      → IsContentAddressed fs
      → FilesKept (store_file base_dir sha256_hex fails v content fs)
  unfolding store_file write_file
  store_file-FilesKept fails v content fs h =
      elim (Bool-cases (file_exists base_dir v (sha256_hex content) fs)) [
        | inl there ↦ rw there h
        | inr absent ↦ elim (Bool-cases fails) [
          | inl broken ↦ rw (absent, broken) tt
          | inr works ↦
              rw (absent, works)
                (All-append AtDigest _ _ (delete-IsContentAddressed _ fs h) ((v, refl), tt))
        ]
      ]

  finish_upload-IsContentAddressed :
      (now : ℕ) (v : String) (content : Bytes) (r : Result (List File)) (s : Server)
      → FilesKept r
      → IsContentAddressed s.files
      → IsContentAddressed (finish_upload base_dir sha256_hex now v content r s).1.files
  finish_upload-IsContentAddressed now v content (err e) s k h = h
  finish_upload-IsContentAddressed now v content (ok fs) s k h = k

  -- An upload, whatever its reply, keeps every file at the path of its content's digest in some vault,
  -- if that was so before.
  pub upload-IsContentAddressed :
      (fails : Bool) (now : ℕ) (ctx : Context) (claimed_id : String) (body : ReadBody) (s : Server)
      → IsContentAddressed s.files
      → IsContentAddressed (upload base_dir sha256_hex fails now ctx claimed_id body s).1.files
  unfolding upload
  upload-IsContentAddressed fails now ctx claimed_id body s h =
      go (check_upload base_dir sha256_hex (current_identity ctx) claimed_id body)
    where
      go :
          (r : Result (String × Bytes))
          → IsContentAddressed (store_checked base_dir sha256_hex fails now r s).1.files
      go (err e) = h
      go (ok (v, content)) =
          finish_upload-IsContentAddressed now v content _ s
            (store_file-FilesKept fails v content s.files h) h

  -- If every file is at the path of its content's digest in some vault, then what is read from disk
  -- under an id has that digest.
  pub read_file-digest :
      (v id : String) (content : Bytes) (fs : List File)
      → IsContentAddressed fs
      → read_file base_dir v id fs ≡ ok content
      → sha256_hex content ≡ id
  unfolding read_file
  read_file-digest v id content fs h e =
      elim (Option-cases (find (is_at (path_of base_dir v id)) fs)) [
        | inl no_file ↦ cc (e, no_file)
        | inr (f, found) ↦
            let (w, at_digest) = find_All AtDigest (is_at (path_of base_dir v id)) fs f h found in
            let at_id = path_beq→≡ f.path (path_of base_dir v id) (find_sound _ fs f found) in
            let same_content : f.content ≡ content = ground arith in
            subst (λ c. sha256_hex c ≡ id) same_content
              (path_of_inj base_dir w v (sha256_hex f.content) id (sym at_digest ∙ at_id)).1
      ]
