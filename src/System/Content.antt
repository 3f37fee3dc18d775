-- ===== src/System/Content.antt =====
-- The requests and the jobs that write items, blobs or files.
use familycards.Prelude.{
  ℕ, ℤ, ◌≤◌, String, ◌∙◌, inl, inr, Bool, List, [], ◌∷◌, ◌++◌, All-map, Pairwise, arith, Bool-cases,
}
use native.Mathlib.Nat.{le_trans}
use familycards.Prelude.Table.{exists, delete, All-delete, exists-append, find-append}
use familycards.Http.{Bytes, Result, ok, err}
use familycards.Store.{Vault, Item, Blob, Db}
use familycards.Auth.Context.{Context, current_identity}
use familycards.Sync.Repository.{
  is_vault, is_blob, is_old_tombstone, get_vault_rev, delete_tombstones_older_than,
}
use familycards.Sync.Revisions.{Distinct, last_rev, IsRevisioned}
use familycards.Sync.Backed.{is_marked, HasMarked, ItemBacked, IsBacked}
use familycards.Blobs.Repository.{
  is_blob_live, insert_if_absent, delete_meta, delete_meta_if_unreferenced,
}
use familycards.Blobs.Files.{File, delete_file}
use familycards.Blobs.Handlers.{
  Server, ReadBody, check_upload, store_file, record_meta, store_checked, finish_upload, upload,
}
use familycards.Blobs.Handlers.Content.{IsContentAddressed, delete-IsContentAddressed}
use familycards.Blobs.Gc.{delete_if_orphaned, remove_file_best_effort}
use familycards.Blobs.Gc.Pass.{IsSpared}
use familycards.System.Blind.{IsBlind, Grows}

pub IsRevisioned-IsBlind : IsBlind IsRevisioned
unfolding get_vault_rev
IsRevisioned-IsBlind = record {
  keep = λ us ds is ks ts db h. record { below = h.below; distinct = h.distinct };
}

pub IsBacked-IsBlind : IsBlind IsBacked
IsBacked-IsBlind = record { keep = λ us ds is ks ts db h. record { backed = h.backed } }

-- A new vault has no items yet, and an old one keeps its counter.
last_rev-append :
    (u : String) (v : Vault) (db : Db)
    → last_rev u db ≤ last_rev u (record db { vaults = db.vaults ++ v ∷ [] })
unfolding get_vault_rev
last_rev-append u v db = ground (arith, find-append (is_vault u) db.vaults (v ∷ []))

pub IsRevisioned-Grows : Grows IsRevisioned
IsRevisioned-Grows = record {
  new_vault = λ v db h. record {
    below =
        All-map (λ (it : Item). it.rev ≤ last_rev it.vault_id db) _ db.items
          (λ it b. le_trans b (last_rev-append it.vault_id v db)) h.below;
    distinct = h.distinct;
  };
}

pub IsBacked-Grows : Grows IsBacked
IsBacked-Grows = record { new_vault = λ v db h. record { backed = h.backed } }

blobs-IsRevisioned :
    (bs : List Blob) (db : Db) → IsRevisioned db → IsRevisioned (record db { blobs = bs })
unfolding get_vault_rev
blobs-IsRevisioned bs db h = record { below = h.below; distinct = h.distinct }

Pairwise-delete :
    (p : Item → Bool) (rows : List Item)
    → Pairwise Distinct rows
    → Pairwise Distinct (delete p rows)
unfolding delete
Pairwise-delete p [] h = tt
Pairwise-delete p (x ∷ rows) h = elim (Bool-cases (p x)) [
  | inl hit ↦ rw hit (Pairwise-delete p rows h.1)
  | inr miss ↦ rw miss (
    All-map _ (Distinct x) (delete p rows) (λ y q. q.0) (All-delete (Distinct x) p rows h.0),
    Pairwise-delete p rows h.1,
  )
]

-- The purge of tombstones.
pub purge-IsRevisioned :
    (cutoff : ℤ) (db : Db)
    → IsRevisioned db
    → IsRevisioned (delete_tombstones_older_than cutoff db).0
unfolding delete_tombstones_older_than get_vault_rev
purge-IsRevisioned cutoff db h = record {
  below =
      All-map _ (λ (it : Item). it.rev ≤ last_rev it.vault_id db)
        (delete (is_old_tombstone cutoff) db.items) (λ it q. q.0)
        (All-delete _ (is_old_tombstone cutoff) db.items h.below);
  distinct = Pairwise-delete (is_old_tombstone cutoff) db.items h.distinct;
}

pub purge-IsBacked :
    (cutoff : ℤ) (db : Db) → IsBacked db → IsBacked (delete_tombstones_older_than cutoff db).0
unfolding delete_tombstones_older_than
purge-IsBacked cutoff db h = record {
  backed =
      All-map _ (ItemBacked db.blobs) (delete (is_old_tombstone cutoff) db.items) (λ it q. q.0)
        (All-delete _ (is_old_tombstone cutoff) db.items h.backed);
}

-- The row of an upload.
insert_if_absent-IsRevisioned :
    (v id : String) (size now : ℕ) (db : Db)
    → IsRevisioned db
    → IsRevisioned (insert_if_absent v id size now db).1
unfolding insert_if_absent
insert_if_absent-IsRevisioned v id size now db h =
    elim (Bool-cases (exists (is_blob v id) db.blobs)) [
      | inl there ↦ rw there h
      | inr absent ↦ rw absent (blobs-IsRevisioned _ db h)
    ]

ItemBacked-append :
    (b : Blob) (it : Item) (blobs : List Blob)
    → ItemBacked blobs it
    → ItemBacked (blobs ++ b ∷ []) it
ItemBacked-append b it blobs h live =
    All-map (HasMarked blobs it.vault_id) _ it.blob_refs
      (λ id m. exists-append (is_marked it.vault_id id) blobs (b ∷ []) ∙ ground arith) (h live)

insert_if_absent-IsBacked :
    (v id : String) (size now : ℕ) (db : Db)
    → IsBacked db
    → IsBacked (insert_if_absent v id size now db).1
unfolding insert_if_absent
insert_if_absent-IsBacked v id size now db h = elim (Bool-cases (exists (is_blob v id) db.blobs)) [
  | inl there ↦ rw there h
  | inr absent ↦ rw absent (record {
    backed =
        All-map (ItemBacked db.blobs) _ db.items (λ it. ItemBacked-append _ it db.blobs) h.backed;
  })
]

-- The deletions of a collection.
delete_if_orphaned-IsRevisioned :
    (v id : String) (db : Db) → IsRevisioned db → IsRevisioned (delete_if_orphaned v id db).1
unfolding delete_if_orphaned delete_meta
delete_if_orphaned-IsRevisioned v id db h = elim (Bool-cases (is_blob_live v id db)) [
  | inl live ↦ rw live h
  | inr dead ↦ rw dead (blobs-IsRevisioned _ db h)
]

module _ (base_dir : String) where
  pub IsRevisioned-IsSpared :
      (fails : Blob → Bool) → IsSpared base_dir fails (λ s. IsRevisioned s.db)
  unfolding remove_file_best_effort delete_meta_if_unreferenced
  IsRevisioned-IsSpared fails = record {
    unreferenced = λ v id s h. blobs-IsRevisioned _ s.db h;
    orphaned = λ v id s h. delete_if_orphaned-IsRevisioned v id s.db h;
    removed = λ m s h. h;
  }

  remove_file-IsContentAddressed :
      (sha256_hex : Bytes → String) (fails : Blob → Bool) (m : Blob) (s : Server)
      → IsContentAddressed base_dir sha256_hex s.files
      → IsContentAddressed base_dir sha256_hex (remove_file_best_effort base_dir fails m s).files
  unfolding remove_file_best_effort delete_file
  remove_file-IsContentAddressed sha256_hex fails m s h = elim (Bool-cases (fails m)) [
    | inl broken ↦ rw broken h
    | inr works ↦ rw works (delete-IsContentAddressed base_dir sha256_hex _ s.files h)
  ]

  pub IsContentAddressed-IsSpared :
      (sha256_hex : Bytes → String) (fails : Blob → Bool)
      → IsSpared base_dir fails (λ s. IsContentAddressed base_dir sha256_hex s.files)
  IsContentAddressed-IsSpared sha256_hex fails = record {
    unreferenced = λ v id s h. h;
    orphaned = λ v id s h. h;
    removed = remove_file-IsContentAddressed sha256_hex fails;
  }

  module _ (sha256_hex : Bytes → String) (P : Db → Type 0)
      (inserted : (v id : String) (size now : ℕ) (db : Db)
        → P db
        → P (insert_if_absent v id size now db).1) where
    finish_upload_keeps :
        (now : ℕ) (v : String) (content : Bytes) (r : Result (List File)) (s : Server)
        → P s.db
        → P (finish_upload base_dir sha256_hex now v content r s).1.db
    unfolding record_meta
    finish_upload_keeps now v content (err e) s h = h
    finish_upload_keeps now v content (ok fs) s h = inserted v _ _ now s.db h

    store_checked_keeps :
        (fails : Bool) (now : ℕ) (r : Result (String × Bytes)) (s : Server)
        → P s.db
        → P (store_checked base_dir sha256_hex fails now r s).1.db
    store_checked_keeps fails now (err e) s h = h
    store_checked_keeps fails now (ok (v, content)) s h =
        finish_upload_keeps now v content (store_file base_dir sha256_hex fails v content s.files) s
          h

    pub upload_keeps :
        (fails : Bool) (now : ℕ) (ctx : Context) (claimed_id : String) (body : ReadBody)
        (s : Server)
        → P s.db
        → P (upload base_dir sha256_hex fails now ctx claimed_id body s).1.db
    unfolding upload
    upload_keeps fails now ctx claimed_id body s h =
        store_checked_keeps fails now
          (check_upload base_dir sha256_hex (current_identity ctx) claimed_id body) s h

  module _ (sha256_hex : Bytes → String) (fails : Bool) (now : ℕ) (ctx : Context)
      (claimed_id : String) (body : ReadBody) (s : Server) where
    pub upload-IsRevisioned :
        IsRevisioned s.db
        → IsRevisioned (upload base_dir sha256_hex fails now ctx claimed_id body s).1.db
    upload-IsRevisioned =
        upload_keeps sha256_hex IsRevisioned insert_if_absent-IsRevisioned fails now ctx claimed_id
          body s

    pub upload-IsBacked :
        IsBacked s.db → IsBacked (upload base_dir sha256_hex fails now ctx claimed_id body s).1.db
    upload-IsBacked =
        upload_keeps sha256_hex IsBacked insert_if_absent-IsBacked fails now ctx claimed_id body s
