-- ===== src/Blobs/Gc/Safety.antt =====
-- What the collection of server/internal/blobs/gc.go does to the blobs of live items.
use familycards.Prelude.{
  ℕ, String, ◌==◌, ◌≡◌, ◌⊎◌, inl, inr, Bool, false, List, [], ◌∷◌, All, All-map, All-zip, arith,
  eq_iff, Bool-cases,
}
use familycards.Prelude.Table.{exists, delete, exists-delete}
use familycards.Store.{Item, Blob, Db}
use familycards.Sync.Repository.{is_blob, contains}
use familycards.Sync.Backed.{is_marked, HasMarked, ItemBacked, IsBacked}
use familycards.Blobs.Repository.{
  delete_meta_if_unreferenced, is_blob_live, is_unreferenced, refers_to,
}
use familycards.Blobs.Handlers.{Server}
use familycards.Blobs.Gc.Pass.{IsSpared, swept, run_gc_keeps}
use familycards.Blobs.Gc.{remove_file_best_effort, delete_if_orphaned, run_gc}

-- Deleting what is not referenced keeps what is marked.
pub delete_meta_if_unreferenced-IsBacked :
    (v id : String) (db : Db) → IsBacked db → IsBacked (delete_meta_if_unreferenced v id db).1
unfolding delete_meta_if_unreferenced
delete_meta_if_unreferenced-IsBacked v id db b = record {
  backed =
      All-map (ItemBacked db.blobs) _ db.items
        (λ it h live.
          All-map (HasMarked db.blobs it.vault_id) _ it.blob_refs
            (λ ref m.
              exists-delete (is_marked it.vault_id ref) (is_unreferenced v id) db.blobs
                (λ x e. ground arith) m)
            (h live))
        b.backed;
}

-- A live item of the vault that refers to the id makes it live.
not-live :
    (v id : String) (items : List Item)
    → exists (refers_to v id) items ≡ false
    → All (λ it. refers_to v id it ≡ false) items
unfolding exists
not-live v id [] h = tt
not-live v id (it ∷ items) h = (ground arith, not-live v id items (ground arith))

contains-ne :
    (id : String) (refs : List String)
    → contains id refs ≡ false
    → All (λ ref. (ref == id) ≡ false) refs
contains-ne id [] h = tt
contains-ne id (x ∷ refs) h = (ground arith, contains-ne id refs (ground arith))

-- The row of another blob, or of a blob of another vault, stays.
HasMarked-delete :
    (v id u ref : String) (blobs : List Blob)
    → ((u == v) ≡ false) ⊎ ((ref == id) ≡ false)
    → HasMarked blobs u ref
    → HasMarked (delete (is_blob v id) blobs) u ref
HasMarked-delete v id u ref blobs h m =
    exists-delete (is_marked u ref) (is_blob v id) blobs
      (λ x e. ground (
        arith,
        eq_iff x.vault_id u,
        eq_iff x.vault_id v,
        eq_iff u v,
        eq_iff x.blob_id ref,
        eq_iff x.blob_id id,
        eq_iff ref id,
        h,
      ))
      m

ItemBacked-delete :
    (v id : String) (it : Item) (blobs : List Blob)
    → refers_to v id it ≡ false
    → ItemBacked blobs it
    → ItemBacked (delete (is_blob v id) blobs) it
ItemBacked-delete v id it blobs h b live = elim (Bool-cases (it.vault_id == v)) [
  | inl same ↦
      All-map _ _ it.blob_refs (λ ref p. HasMarked-delete v id it.vault_id ref blobs (inr p.1) p.0)
        (All-zip _ _ it.blob_refs (b live) (contains-ne id it.blob_refs (ground arith)))
  | inr other ↦
      All-map _ _ it.blob_refs (λ ref. HasMarked-delete v id it.vault_id ref blobs (inl other))
        (b live)
]

pub delete_if_orphaned-IsBacked :
    (v id : String) (db : Db) → IsBacked db → IsBacked (delete_if_orphaned v id db).1
unfolding delete_if_orphaned
delete_if_orphaned-IsBacked v id db b = elim (Bool-cases (is_blob_live v id db)) [
  | inl live ↦ rw live b
  | inr dead ↦ rw dead (record {
    backed =
        All-map _ _ db.items (λ it p. ItemBacked-delete v id it db.blobs p.0 p.1)
          (All-zip _ _ db.items (not-live v id db.items dead) b.backed);
  })
]

-- Neither deletion takes the row of a blob that a live item refers to.
IsBacked-spared :
    (base_dir : String) (fails : Blob → Bool) → IsSpared base_dir fails (λ s. IsBacked s.db)
unfolding remove_file_best_effort
IsBacked-spared base_dir fails = record {
  unreferenced = λ v id s h. delete_meta_if_unreferenced-IsBacked v id s.db h;
  orphaned = λ v id s h. delete_if_orphaned-IsBacked v id s.db h;
  removed = λ m s h. h;
}

-- If before a collection every blob that an item other than a tombstone refers to has a row in the
-- item's vault that is marked as referenced, then so it is after it.
pub run_gc-IsBacked :
    (base_dir : String) (fails : Blob → Bool) (trim_space : String → String) (now : ℕ) (s : Server)
    → IsBacked s.db
    → IsBacked (run_gc base_dir fails trim_space now s).0.db
run_gc-IsBacked base_dir fails trim_space now s h =
    run_gc_keeps base_dir fails (swept base_dir fails (IsBacked-spared base_dir fails)) trim_space
      now s h
