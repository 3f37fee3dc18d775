-- ===== src/Sync/Push/Invariant.antt =====
-- The revisions of the vaults under a round of the loop of `Push`.
use familycards.Prelude.{◌+◌, List, String, ◌≡◌, refl}
use familycards.Store.{Db}
use familycards.Sync.Repository.{get_vault_rev, mark_blobs_referenced}
use familycards.Sync.Revisions.{IsRevisioned, upsert_item-IsRevisioned}
use familycards.Sync.Push.{store_at}
use familycards.Sync.Push.Step.{get_vault_rev-bump}
use familycards.Sync.Push.Loop.{Keeps}

-- Marking blobs leaves the vaults and the items alone.
mark-IsRevisioned :
    (v : String) (refs : List String) (db : Db)
    → IsRevisioned db
    → IsRevisioned (mark_blobs_referenced v refs db)
unfolding mark_blobs_referenced get_vault_rev
mark-IsRevisioned v refs db r = record { below = r.below; distinct = r.distinct }

pub Keeps-IsRevisioned : (v : String) → Keeps v (λ it. it.vault_id ≡ v) (λ n db. IsRevisioned db)
Keeps-IsRevisioned v = record {
  stores = λ n it db q h w r. mark-IsRevisioned v it.blob_refs _ (
      upsert_item-IsRevisioned v n db h (store_at it (n + 1)) q refl
        (get_vault_rev-bump v n db db.vaults h) r);
}
