-- ===== src/Sync/Backed.antt =====
-- An invariant of the items and the blobs: every blob id that an item refers to, unless the item is a tombstone,
-- has a row in the vault that is marked as referenced.
use familycards.Prelude.{
  ltb, String, ◌==◌, ◌≡◌, refl, inl, inr, Bool, true, false, ◌&&◌, List, [], ◌∷◌, length, All,
  All-map, All-zip, ==→≡, subst, arith, eq_refl, Bool-cases,
}
use familycards.Prelude.Table.{select, exists, update, exists-update_mono, exists-update_new}
use familycards.Store.{Item, Blob, Db}
use familycards.Sync.Repository.{is_blob, contains, in_vault_list, mark, missing_blob_refs}

abbrev pub is_marked : String → String → Blob → Bool
is_marked v id b = is_blob v id b && b.referenced

abbrev pub HasBlob : List Blob → String → String → Type 0
HasBlob blobs v id = exists (is_blob v id) blobs ≡ true

abbrev pub HasMarked : List Blob → String → String → Type 0
HasMarked blobs v id = exists (is_marked v id) blobs ≡ true

abbrev pub ItemBacked : List Blob → Item → Type 0
ItemBacked blobs it = it.deleted ≡ false → All (HasMarked blobs it.vault_id) it.blob_refs

pub record IsBacked (db : Db) : Type 0 where
  pub backed : All (ItemBacked db.blobs) db.items

-- Marking keeps what is there and what is marked.
pub HasBlob-mark :
    (v u id : String) (refs : List String) (blobs : List Blob)
    → HasBlob blobs u id
    → HasBlob (update (in_vault_list v refs) mark blobs) u id
HasBlob-mark v u id refs blobs h =
    exists-update_mono (is_blob u id) (in_vault_list v refs) mark blobs (λ b e. e) h

pub HasMarked-mark_mono :
    (v u id : String) (refs : List String) (blobs : List Blob)
    → HasMarked blobs u id
    → HasMarked (update (in_vault_list v refs) mark blobs) u id
HasMarked-mark_mono v u id refs blobs h =
    exists-update_mono (is_marked u id) (in_vault_list v refs) mark blobs (λ b e. ground arith) h

-- A blob of the vault that is on the list is marked.
HasMarked-mark :
    (v id : String) (refs : List String) (blobs : List Blob)
    → contains id refs ≡ true
    → HasBlob blobs v id
    → HasMarked (update (in_vault_list v refs) mark blobs) v id
HasMarked-mark v id refs blobs c h =
    exists-update_new (is_blob v id) (is_marked v id) (in_vault_list v refs) mark blobs
      (λ b e. (
        rw (==→≡ b.vault_id v (ground arith), ==→≡ b.blob_id id (ground arith))
            (ground (arith, eq_refl v)),
        ground arith,
      ))
      h

contains-cons :
    (id x : String) (refs : List String) → contains id refs ≡ true → contains id (x ∷ refs) ≡ true
contains-cons id x refs h = ground arith

pub All-contains : (refs : List String) → All (λ id. contains id refs ≡ true) refs
All-contains [] = tt
All-contains (x ∷ refs) =
    (rw eq_refl refl, All-map _ _ refs (λ id h. contains-cons id x refs h) (All-contains refs))

-- After marking, an item all of whose blobs are in its vault is backed.
pub All-HasMarked-mark :
    (v : String) (refs : List String) (blobs : List Blob)
    → All (HasBlob blobs v) refs
    → All (HasMarked (update (in_vault_list v refs) mark blobs) v) refs
All-HasMarked-mark v refs blobs h =
    All-map _ _ refs (λ id p. HasMarked-mark v id refs blobs p.0 p.1)
      (All-zip _ (HasBlob blobs v) refs (All-contains refs) h)

-- No id is missing: each on the list has a row.
pub HasBlob-missing :
    (v id : String) (refs : List String) (db : Db)
    → ltb 0 (length (missing_blob_refs v refs db)) ≡ false
    → contains id refs ≡ true
    → HasBlob db.blobs v id
unfolding missing_blob_refs select
HasBlob-missing v id [] db m c = cc
HasBlob-missing v id (x ∷ refs) db m c = elim (Bool-cases (x == id)) [
  | inl same ↦
      let there : HasBlob db.blobs v x = ground arith in
      subst (HasBlob db.blobs v) (==→≡ x id same) there
  | inr other ↦ HasBlob-missing v id refs db (ground arith) (rw other at c)
]
