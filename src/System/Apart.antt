-- ===== src/System/Apart.antt =====
-- Predicates on the database that do not look at the items and the blobs, nor at the counters of the
-- vaults.
use familycards.Prelude.{ℕ, String, inl, inr, Bool, List, Bool-cases}
use familycards.Prelude.Table.{exists}
use familycards.Http.{Base64, Body}
use familycards.Store.{Item, Blob, Db, empty_db}
use familycards.Auth.Context.{Context}
use familycards.Sync.Repository.{
  is_blob, bump_vault, upsert_item, mark_blobs_referenced, delete_tombstones_older_than,
}
use familycards.Sync.Wire.{PushRequest}
use familycards.Sync.Push.{push}
use familycards.Sync.Push.Loop.{Keeps}
use familycards.Sync.Push.Contract.{push_keeps, All-Unit}
use familycards.Blobs.Repository.{
  is_blob_live, insert_if_absent, delete_meta, delete_meta_if_unreferenced,
}
use familycards.Blobs.Handlers.{Server}
use familycards.Blobs.Gc.{delete_if_orphaned, remove_file_best_effort}
use familycards.Blobs.Gc.Pass.{IsSpared, swept, run_gc_keeps}
use familycards.System.{Setup, Step, request, uploaded, collected, purged, Reach, start, later}
use familycards.System.Kept.{IsKept}
use familycards.System.Content.{upload_keeps}
use familycards.System.Requests.{handle_keeps}

pub record IsApart (P : Db → Type 0) : Type 0 where
  pub content :
      (items : List Item) (blobs : List Blob) (db : Db)
      → P db
      → P (record db { items = items; blobs = blobs })
  pub bumped : (v : String) (db : Db) → P db → P (bump_vault v db)

module _ {P : Db → Type 0} (apart : IsApart P) where
  stored_keeps : (v : String) → Keeps v (λ it. Unit {0}) (λ n. P)
  unfolding upsert_item mark_blobs_referenced
  stored_keeps v = record { stores = λ n it db q h w p. apart.content _ _ _ (apart.bumped v db p) }

  pub pushed_keeps :
      (b64 : Base64) (ctx : Context) (body : Body PushRequest) (db : Db)
      → P db
      → P (push b64 ctx body db).1
  pushed_keeps b64 ctx body db = push_keeps b64 ctx body db stored_keeps (λ v its q m. All-Unit its)

  inserted_keeps :
      (v id : String) (size now : ℕ) (db : Db) → P db → P (insert_if_absent v id size now db).1
  unfolding insert_if_absent
  inserted_keeps v id size now db p = elim (Bool-cases (exists (is_blob v id) db.blobs)) [
    | inl there ↦ rw there p
    | inr absent ↦ rw absent (apart.content db.items _ db p)
  ]

  orphaned_keeps : (v id : String) (db : Db) → P db → P (delete_if_orphaned v id db).1
  unfolding delete_if_orphaned delete_meta
  orphaned_keeps v id db p = elim (Bool-cases (is_blob_live v id db)) [
    | inl live ↦ rw live p
    | inr dead ↦ rw dead (apart.content db.items _ db p)
  ]

  apart-IsSpared : (base_dir : String) (fails : Blob → Bool) → IsSpared base_dir fails (λ s. P s.db)
  unfolding remove_file_best_effort delete_meta_if_unreferenced
  apart-IsSpared base_dir fails = record {
    unreferenced = λ v id s p. apart.content s.db.items _ s.db p;
    orphaned = λ v id s p. orphaned_keeps v id s.db p;
    removed = λ m s p. p;
  }

  module _ (setup : Setup) (kept : IsKept P) where
    open setup use {base_dir, sha256_hex, trim_space}

    Step_keeps : {s t : Server} → Step setup s t → P s.db → P t.db
    unfolding delete_tombstones_older_than
    Step_keeps (request r s) p = handle_keeps setup kept r s.db p
    Step_keeps (uploaded fails now ctx claimed_id body s) p =
        upload_keeps base_dir sha256_hex P inserted_keeps fails now ctx claimed_id body s p
    Step_keeps (collected fails now s) p =
        run_gc_keeps base_dir fails (swept base_dir fails (apart-IsSpared base_dir fails))
          trim_space now s p
    Step_keeps (purged cutoff s) p = apart.content _ s.db.blobs s.db p

    -- Such a predicate holds in every state that the server gets to, if it holds at the start.
    pub Reach_keeps : {s : Server} → P empty_db → Reach setup s → P s.db
    Reach_keeps p start = p
    Reach_keeps p (later reach step) = Step_keeps step (Reach_keeps p reach)
