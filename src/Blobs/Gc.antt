-- ===== src/Blobs/Gc.antt =====
-- The garbage collection of blobs: server/internal/blobs/gc.go. The environment says of each file
-- whether its removal fails.
pub mod Pass
pub mod Safety
pub mod Stock
use familycards.Prelude.{
  ℕ, suc, ◌+◌, ◌*◌, ltb, String, ◌==◌, Bool, true, false, not, ◌&&◌, Option, none, some, List, [],
  ◌∷◌, ◌++◌, if◌then◌else◌,
}
use familycards.Prelude.Table.{select}
use familycards.Http.{Result, ok, err}
use familycards.Store.{Blob, Db}
use familycards.Sync.Repository.{contains}
use familycards.Blobs.Repository.{
  list_unreferenced_older_than, list_referenced_older_than, delete_meta,
  delete_meta_if_unreferenced, is_blob_live, live_blob_refs, distinct_vaults,
}
use familycards.Blobs.Files.{File, delete_file}
use familycards.Blobs.Handlers.{Server}

abbrev pub unreferenced_grace_seconds : ℕ
unreferenced_grace_seconds = 24 * 60 * 60

abbrev pub orphan_grace_seconds : ℕ
orphan_grace_seconds = 7 * 24 * 60 * 60

-- The transaction of the second pass.
unfoldable pub delete_if_orphaned : String → String → Db → Bool × Db
unfolding is_blob_live delete_meta
delete_if_orphaned vault_id blob_id db =
    if is_blob_live vault_id blob_id db
    then (false, db)
    else (true, delete_meta vault_id blob_id db)

-- A pass over candidates, which counts what it removed.
unfoldable pub each : (Blob → Server → Server × Bool) → List Blob → Server × ℕ → Server × ℕ
each step [] out = out
each step (m ∷ ms) (s, removed) =
    let (s', gone) = step m s in each step ms (s', if gone then suc removed else removed)

module _ (base_dir : String) (fails : Blob → Bool) where
  abbrev pub or_same : List File → Result (List File) → List File
  or_same files (ok files') = files'
  or_same files (err e) = files

  unfoldable pub remove_file_best_effort : Blob → Server → Server
  unfolding delete_file
  remove_file_best_effort m s = record s {
    files = or_same s.files (delete_file base_dir (fails m) m.vault_id m.blob_id s.files);
  }

  abbrev pub after_delete : Blob → Bool × Db → Server → Server × Bool
  after_delete m (deleted, db) s =
      if deleted
      then (remove_file_best_effort m (record s { db = db }), true)
      else (record s { db = db }, false)

  -- One candidate of the first pass: its transaction and its file. Tells whether it went.
  unfoldable pub collect_unreferenced_one : Blob → Server → Server × Bool
  unfolding delete_meta_if_unreferenced remove_file_best_effort
  collect_unreferenced_one m s =
      after_delete m (delete_meta_if_unreferenced m.vault_id m.blob_id s.db) s

  unfoldable pub collect_orphaned_one : List String → Blob → Server → Server × Bool
  unfolding delete_if_orphaned remove_file_best_effort
  collect_orphaned_one live m s =
      if contains m.blob_id live
      then (s, false)
      else after_delete m (delete_if_orphaned m.vault_id m.blob_id s.db) s

  unfoldable pub collect_unreferenced : ℕ → Server → Server × ℕ
  unfolding each collect_unreferenced_one list_unreferenced_older_than
  collect_unreferenced now s =
      each collect_unreferenced_one
        (list_unreferenced_older_than now unreferenced_grace_seconds s.db) (s, 0)

  module _ (trim_space : String → String) where
    -- The candidates vault by vault, each vault with the ids that are live when its turn comes.
    unfoldable pub each_vault : List Blob → List String → Server × ℕ → Server × ℕ
    unfolding each collect_orphaned_one live_blob_refs
    each_vault candidates [] out = out
    each_vault candidates (v ∷ vs) (s, removed) = each_vault candidates vs (
        each (collect_orphaned_one (live_blob_refs trim_space v s.db.items))
          (select (λ m. m.vault_id == v) candidates) (s, removed))

    unfoldable pub collect_orphaned : ℕ → Server → Server × ℕ
    unfolding each_vault list_referenced_older_than distinct_vaults
    collect_orphaned now s =
        let candidates = list_referenced_older_than now orphan_grace_seconds s.db in
        each_vault candidates (distinct_vaults candidates []) (s, 0)

    -- The server after a pass, with what was removed as unreferenced and as orphaned.
    unfoldable pub run_gc : ℕ → Server → Server × ℕ × ℕ
    unfolding collect_unreferenced collect_orphaned
    run_gc now s =
        let (s', unreferenced_removed) = collect_unreferenced now s in
        let (s'', orphaned_removed) = collect_orphaned now s' in
        (s'', unreferenced_removed, orphaned_removed)
