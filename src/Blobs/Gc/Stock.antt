-- ===== src/Blobs/Gc/Stock.antt =====
-- The rows and the files of the blobs under the passes of server/internal/blobs/gc.go.
use familycards.Prelude.{
  ◌+◌, ◌≤◌, String, ◌≡◌, refl, inl, inr, Bool, true, false, List, [], ◌∷◌, All, All-map, arith,
  Bool-cases,
}
use familycards.Prelude.Table.{count, delete, exists, All-delete}
use familycards.Prelude.Unique.{count-delete}
use familycards.Store.{Blob}
use familycards.Sync.Repository.{is_blob}
use familycards.Blobs.Repository.{
  is_unreferenced, is_blob_live, delete_meta, delete_meta_if_unreferenced,
}
use familycards.Blobs.Handlers.{Server}
use familycards.Blobs.Gc.{delete_if_orphaned}
use familycards.Blobs.Gc.Pass.{IsSwept, swept_after}
use familycards.Blobs.Stocked.{HasFile, IsStocked, removed-IsStocked, deleted-Stocked}

-- Where the only row with a key is deleted, no row has the key.
count-deleted :
    (v id : String) (blobs : List Blob)
    → exists (is_unreferenced v id) blobs ≡ true
    → count (is_blob v id) (delete (is_unreferenced v id) blobs) + 1 ≤ count (is_blob v id) blobs
unfolding count delete exists
count-deleted v id [] h = cc
count-deleted v id (b ∷ blobs) h =
    ground
      (arith, count-deleted v id blobs, count-delete (is_blob v id) (is_unreferenced v id) blobs)

count-zero :
    (v id : String) (blobs : List Blob)
    → count (is_blob v id) blobs ≤ 0
    → All (λ b. is_blob v id b ≡ false) blobs
unfolding count
count-zero v id [] h = tt
count-zero v id (b ∷ blobs) h = (ground (arith, h), count-zero v id blobs (ground (arith, h)))

module _ (base_dir : String) (fails : Blob → Bool) where
  unreferenced_gone :
      (m : Blob) (s : Server)
      → IsStocked base_dir s
      → exists (is_unreferenced m.vault_id m.blob_id) s.db.blobs ≡ true
      → All
          (λ b. is_blob m.vault_id m.blob_id b ≡ false)
          (delete (is_unreferenced m.vault_id m.blob_id) s.db.blobs)
  unreferenced_gone m s k there = count-zero m.vault_id m.blob_id _ (
      omega (
        arith,
        count-deleted m.vault_id m.blob_id s.db.blobs there,
        k.unique (m.vault_id, m.blob_id),
      ))

  pub IsStocked-IsSwept : IsSwept base_dir fails (IsStocked base_dir)
  unfolding delete_meta_if_unreferenced delete_if_orphaned delete_meta
  IsStocked-IsSwept =
      swept_after base_dir fails (IsStocked base_dir)
        (λ m s k. (
          λ gone.
              removed-IsStocked base_dir fails m _ _ refl (unreferenced_gone m s k gone)
                (deleted-Stocked base_dir _ s.db.blobs s.files k),
          λ stays. deleted-Stocked base_dir _ s.db.blobs s.files k,
        ))
        (λ m s k. elim (Bool-cases (is_blob_live m.vault_id m.blob_id s.db)) [
          | inl live ↦ rw live (λ gone. cc, λ stays. k)
          | inr dead ↦ rw dead (
            λ gone.
                removed-IsStocked base_dir fails m _ _ refl
                  (All-map _ _ _ (λ b q. q.1)
                    (All-delete (HasFile base_dir s.files) (is_blob m.vault_id m.blob_id) s.db.blobs
                      k.stored))
                  (deleted-Stocked base_dir _ s.db.blobs s.files k),
            λ stays. deleted-Stocked base_dir _ s.db.blobs s.files k,
          )
        ])
