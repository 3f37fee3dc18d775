-- ===== src/Blobs/Stocked.antt =====
-- The rows and the files of the blobs together: under `Upload` of server/internal/blobs/handlers.go and
-- the passes of server/internal/blobs/gc.go.
use familycards.Prelude.{
  ℕ, String, ◌≡◌, refl, sym, ap, ◌∙◌, inl, inr, Bool, true, false, some, is_some, List, [], ◌∷◌,
  ◌++◌, All, All-append, All-map, All-zip, length, arith, eq_refl, ==→≡, Bool-cases, Option-cases,
}
use familycards.Prelude.Table.{
  find, delete, exists, All-delete, find_All, find_sound, exists-append, exists-delete,
  is_some-find,
}
use familycards.Prelude.Unique.{Unique, Unique-insert, Unique-delete}
use familycards.Http.{Bytes, Result, ok, err}
use familycards.Store.{Blob, Db}
use familycards.Sync.Repository.{is_blob}
use familycards.Auth.Context.{Context, current_identity}
use familycards.Blobs.Repository.{insert_if_absent}
use familycards.Blobs.Files.{File, is_at, path_of, file_exists, read_file, write_file, delete_file}
use familycards.Blobs.Files.Laws.{path_beq→≡, path_beq_refl, path_of_inj}
use familycards.Blobs.Handlers.{
  Server, ReadBody, store_file, record_meta, store_checked, check_upload, finish_upload, upload,
}
use familycards.Blobs.Gc.{remove_file_best_effort}

abbrev pub has_key : String × String → Blob → Bool
has_key k = is_blob k.0 k.1

pair-eq : {a b c d : String} → a ≡ b → c ≡ d → Path (String × String) (a, c) (b, d)
pair-eq e f = cc

module _ (base_dir : String) where
  abbrev pub HasFile : List File → Blob → Type 0
  HasFile files b = file_exists base_dir b.vault_id b.blob_id files ≡ true

  -- Every row has its file, and no two rows are of the same blob.
  pub record Stocked (blobs : List Blob) (files : List File) : Type 0 where
    pub unique : Unique has_key blobs
    pub stored : All (HasFile files) blobs

  abbrev pub IsStocked : Server → Type 0
  IsStocked s = Stocked s.db.blobs s.files

  -- The files after a write and a removal.
  HasFile-delete :
      (v id : String) (fs : List File) (b : Blob)
      → is_blob v id b ≡ false
      → HasFile fs b
      → HasFile (delete (is_at (path_of base_dir v id)) fs) b
  unfolding file_exists
  HasFile-delete v id fs b differs h =
      let p = path_of base_dir v id in
      let q = path_of base_dir b.vault_id b.blob_id in
      is_some-find (is_at q) (delete (is_at p) fs)
      ∙ exists-delete (is_at q) (is_at p) fs apart (sym (is_some-find (is_at q) fs) ∙ h)
    where
      apart :
          (f : File)
          → is_at (path_of base_dir b.vault_id b.blob_id) f ≡ true
          → is_at (path_of base_dir v id) f ≡ false
      apart f there = elim (Bool-cases (is_at (path_of base_dir v id) f)) [
        | inr off ↦ off
        | inl on ↦
            let e = sym (path_beq→≡ _ _ there) ∙ path_beq→≡ f.path _ on in
            let same = path_of_inj base_dir b.vault_id v b.blob_id id e in
            ground (arith, differs, same, eq_refl b.vault_id, eq_refl b.blob_id)
      ]

  HasFile-write_self :
      (v id : String) (content : Bytes) (fs : List File)
      → file_exists base_dir v id (
          delete (is_at (path_of base_dir v id)) fs
          ++ (record { path = path_of base_dir v id; content = content }) ∷ [])
        ≡ true
  unfolding file_exists exists
  HasFile-write_self v id content fs =
      let p = path_of base_dir v id in
      is_some-find (is_at p) _
      ∙ exists-append (is_at p) (delete (is_at p) fs) _
      ∙ ground (arith, path_beq_refl p)

  HasFile-write :
      (v id : String) (content : Bytes) (fs : List File) (b : Blob)
      → HasFile fs b
      → HasFile
          (delete (is_at (path_of base_dir v id)) fs
            ++ (record { path = path_of base_dir v id; content = content }) ∷ [])
          b
  unfolding file_exists
  HasFile-write v id content fs b h = elim (Bool-cases (is_blob v id b)) [
    | inl same ↦
        let e_v = ==→≡ b.vault_id v (ground (arith, same)) in
        let e_id = ==→≡ b.blob_id id (ground (arith, same)) in
        rw (e_v, e_id) (HasFile-write_self v id content fs)
    | inr differs ↦
        let q = path_of base_dir b.vault_id b.blob_id in
        let kept = sym (is_some-find (is_at q) _) ∙ HasFile-delete v id fs b differs h in
        is_some-find (is_at q) _
        ∙ exists-append (is_at q) (delete (is_at (path_of base_dir v id)) fs) _
        ∙ ground (arith, kept)
  ]

  -- The row of an upload whose file is there.
  insert_if_absent-Stocked :
      (v id : String) (size now : ℕ) (db : Db) (fs : List File)
      → file_exists base_dir v id fs ≡ true
      → Stocked db.blobs fs
      → Stocked (insert_if_absent v id size now db).1.blobs fs
  unfolding insert_if_absent
  insert_if_absent-Stocked v id size now db fs there k =
      elim (Bool-cases (exists (is_blob v id) db.blobs)) [
        | inl old ↦ rw old k
        | inr new ↦ rw new (record {
          unique =
              Unique-insert has_key (v, id) _ db.blobs
                (λ key hit b.
                  let e_v = ==→≡ v key.0 (ground (arith, hit)) in
                  let e_id = ==→≡ id key.1 (ground (arith, hit)) in
                  ap (λ (q : String × String). is_blob q.0 q.1 b) (sym (pair-eq e_v e_id)))
                new k.unique;
          stored = All-append (HasFile fs) db.blobs _ k.stored (there, tt);
        })
      ]

  module _ (sha256_hex : Bytes → String) where
    abbrev Written : String → Bytes → List File → Result (List File) → Type 0
    Written v content before (err e) = Unit {0}
    Written v content before (ok after) =
        ((b : Blob) → HasFile before b → HasFile after b)
        × (file_exists base_dir v (sha256_hex content) after ≡ true)

    store_file-Written :
        (fails : Bool) (v : String) (content : Bytes) (fs : List File)
        → Written v content fs (store_file base_dir sha256_hex fails v content fs)
    unfolding store_file write_file
    store_file-Written fails v content fs =
        elim (Bool-cases (file_exists base_dir v (sha256_hex content) fs)) [
          | inl there ↦ rw there (λ b h. h, there)
          | inr absent ↦ elim (Bool-cases fails) [
            | inl broken ↦ rw (absent, broken) tt
            | inr works ↦
                rw (absent, works)
                  (
                    HasFile-write v (sha256_hex content) content fs,
                    HasFile-write_self v (sha256_hex content) content fs,
                  )
          ]
        ]

    finish_upload-IsStocked :
        (now : ℕ) (v : String) (content : Bytes) (r : Result (List File)) (s : Server)
        → Written v content s.files r
        → IsStocked s
        → IsStocked (finish_upload base_dir sha256_hex now v content r s).1
    unfolding record_meta
    finish_upload-IsStocked now v content (err e) s w k = k
    finish_upload-IsStocked now v content (ok fs) s w k =
        insert_if_absent-Stocked v (sha256_hex content) (length content) now s.db fs w.1 (record {
          unique = k.unique;
          stored = All-map (HasFile s.files) (HasFile fs) s.db.blobs w.0 k.stored;
        })

    pub upload-IsStocked :
        (fails : Bool) (now : ℕ) (ctx : Context) (claimed_id : String) (body : ReadBody)
        (s : Server)
        → IsStocked s
        → IsStocked (upload base_dir sha256_hex fails now ctx claimed_id body s).1
    unfolding upload
    upload-IsStocked fails now ctx claimed_id body s k =
        go (check_upload base_dir sha256_hex (current_identity ctx) claimed_id body)
      where
        go :
            (r : Result (String × Bytes))
            → IsStocked (store_checked base_dir sha256_hex fails now r s).1
        go (err e) = k
        go (ok (v, content)) =
            finish_upload-IsStocked now v content _ s (store_file-Written fails v content s.files) k

  -- The removal of the file of a blob that has no row.
  pub removed-IsStocked :
      (fails : Blob → Bool) (m : Blob) (blobs : List Blob) (s : Server)
      → s.db.blobs ≡ blobs
      → All (λ b. is_blob m.vault_id m.blob_id b ≡ false) blobs
      → Stocked blobs s.files
      → IsStocked (remove_file_best_effort base_dir fails m s)
  unfolding remove_file_best_effort delete_file
  removed-IsStocked fails m blobs s e gone k = elim (Bool-cases (fails m)) [
    | inl broken ↦ rw (broken, e) k
    | inr works ↦
        rw (works, e)
          (record {
            unique = k.unique;
            stored =
                All-map _ _ blobs (λ b q. HasFile-delete m.vault_id m.blob_id s.files b q.0 q.1)
                  (All-zip _ (HasFile s.files) blobs gone k.stored);
          })
  ]

  pub deleted-Stocked :
      (p : Blob → Bool) (blobs : List Blob) (fs : List File)
      → Stocked blobs fs
      → Stocked (delete p blobs) fs
  deleted-Stocked p blobs fs k = record {
    unique = Unique-delete has_key p blobs k.unique;
    stored =
        All-map _ (HasFile fs) (delete p blobs) (λ b q. q.0)
          (All-delete (HasFile fs) p blobs k.stored);
  }

  -- The row that a query finds has a file that is read.
  pub Stocked-read :
      (v id : String) (blobs : List Blob) (fs : List File)
      → Stocked blobs fs
      → exists (is_blob v id) blobs ≡ true
      → (row : Blob) × (content : Bytes) × (find (is_blob v id) blobs ≡ some row)
        × (read_file base_dir v id fs ≡ ok content)
  unfolding file_exists read_file
  Stocked-read v id blobs fs k there = elim (Option-cases (find (is_blob v id) blobs)) [
    | inl absent ↦
        let no : is_some (find (is_blob v id) blobs) ≡ false = rw absent refl in
        cc (no, there, is_some-find (is_blob v id) blobs)
    | inr (row, found) ↦
        let hit = find_sound (is_blob v id) blobs row found in
        let e_v = ==→≡ row.vault_id v (ground (arith, hit)) in
        let e_id = ==→≡ row.blob_id id (ground (arith, hit)) in
        let has = find_All (HasFile fs) (is_blob v id) blobs row k.stored found in
        let file = rw (e_v, e_id) at has in
        elim (Option-cases (find (is_at (path_of base_dir v id)) fs)) [
          | inl gone ↦ let no = rw gone at file in cc
          | inr (f, at_path) ↦ (row, f.content, found, rw (read_file, at_path) refl)
        ]
  ]
