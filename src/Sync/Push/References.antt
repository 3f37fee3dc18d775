-- ===== src/Sync/Push/References.antt =====
-- The blobs of live items under a round of the loop of `Push`.
use familycards.Prelude.{
  ℕ, ◌+◌, String, ◌≡◌, refl, inl, inr, true, List, [], ◌∷◌, ◌++◌, All, All-map, arith, eq_refl,
  Bool-cases, if◌then◌else◌,
}
use familycards.Store.{Blob, Db}
use familycards.Sync.Repository.{upsert_item, mark_blobs_referenced, contains}
use familycards.Sync.Wire.{Decoded}
use familycards.Sync.Backed.{
  HasBlob, ItemBacked, IsBacked, HasBlob-mark, HasMarked-mark_mono, All-HasMarked-mark,
}
use familycards.Sync.Revisions.{All-upsert}
use familycards.Sync.Push.{store_at, add_refs, all_blob_refs}
use familycards.Sync.Push.Step.{stored_db}
use familycards.Sync.Push.Loop.{Keeps}

-- The item is in the vault, and its blobs were there when the transaction began.
abbrev pub Uploaded : String → List Blob → Decoded → Type 0
Uploaded v blobs it = (it.vault_id ≡ v) × All (HasBlob blobs v) it.blob_refs

-- Since then no blob has gone, and the live items are backed.
pub record Referenced (blobs : List Blob) (db : Db) : Type 0 where
  pub stay : (u id : String) → HasBlob blobs u id → HasBlob db.blobs u id
  pub is_backed : IsBacked db

module _ (v : String) (blobs : List Blob) where
  stored_db-Referenced :
      (n : ℕ) (it : Decoded) (db : Db)
      → Uploaded v blobs it
      → Referenced blobs db
      → Referenced blobs (stored_db v n it db)
  unfolding upsert_item mark_blobs_referenced
  stored_db-Referenced n it db (e, here) r = record {
    stay = λ u id h. HasBlob-mark v u id it.blob_refs db.blobs (r.stay u id h);
    is_backed = record {
      backed =
          All-upsert _ (store_at it (n + 1)) db.items
            (λ live. rw e (
              All-HasMarked-mark v it.blob_refs db.blobs
                (All-map _ _ it.blob_refs (r.stay v) here)))
            (All-map (ItemBacked db.blobs) _ db.items
              (λ x b live.
                All-map _ _ x.blob_refs
                  (λ id. HasMarked-mark_mono v x.vault_id id it.blob_refs db.blobs) (b live))
              r.is_backed.backed);
    };
  }

  pub Keeps-Referenced : Keeps v (Uploaded v blobs) (λ n. Referenced blobs)
  Keeps-Referenced = record { stores = λ n it db q h w r. stored_db-Referenced n it db q r }

-- The union of the items' refs holds each of them.
contains-append :
    (id : String) (xs ys : List String) → contains id xs ≡ true → contains id (xs ++ ys) ≡ true
contains-append id [] ys h = cc
contains-append id (x ∷ xs) ys h = ground (arith, contains-append id xs ys)

contains-last : (id : String) (xs : List String) → contains id (xs ++ id ∷ []) ≡ true
contains-last id [] = rw eq_refl refl
contains-last id (x ∷ xs) = ground (arith, contains-last id xs)

contains-next :
    (b : String) (refs : List String)
    → contains b (if contains b refs then refs else refs ++ b ∷ []) ≡ true
contains-next b refs = ground (arith, contains-last b refs)

add_refs_mono :
    (id : String) (bs refs : List String)
    → contains id refs ≡ true
    → contains id (add_refs bs refs) ≡ true
add_refs_mono id [] refs h = h
add_refs_mono id (b ∷ bs) refs h = elim (Bool-cases (contains b refs)) [
  | inl old ↦ rw old (add_refs_mono id bs refs h)
  | inr new ↦ rw new (add_refs_mono id bs _ (contains-append id refs (b ∷ []) h))
]

All-add_refs : (bs refs : List String) → All (λ id. contains id (add_refs bs refs) ≡ true) bs
All-add_refs [] refs = tt
All-add_refs (b ∷ bs) refs = (add_refs_mono b bs _ (contains-next b refs), All-add_refs bs _)

all_blob_refs_mono :
    (id : String) (its : List Decoded) (refs : List String)
    → contains id refs ≡ true
    → contains id (all_blob_refs its refs) ≡ true
unfolding all_blob_refs
all_blob_refs_mono id [] refs h = h
all_blob_refs_mono id (it ∷ its) refs h =
    all_blob_refs_mono id its _ (add_refs_mono id it.blob_refs refs h)

pub All-all_blob_refs :
    (its : List Decoded) (refs : List String)
    → All
        (λ (it : Decoded). All (λ id. contains id (all_blob_refs its refs) ≡ true) it.blob_refs)
        its
unfolding all_blob_refs
All-all_blob_refs [] refs = tt
All-all_blob_refs (it ∷ its) refs = (
  All-map _ _ it.blob_refs (λ id. all_blob_refs_mono id its _) (All-add_refs it.blob_refs refs),
  All-all_blob_refs its _,
)
