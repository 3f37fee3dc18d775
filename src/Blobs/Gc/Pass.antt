-- ===== src/Blobs/Gc/Pass.antt =====
-- A predicate on the server that the single deletions keep is kept by the passes of
-- server/internal/blobs/gc.go.
use familycards.Prelude.{
  ℕ, String, ◌==◌, ◌≡◌, refl, inl, inr, Bool, true, false, List, [], ◌∷◌, Bool-cases,
}
use familycards.Prelude.Table.{select}
use familycards.Store.{Blob, Db}
use familycards.Sync.Repository.{contains}
use familycards.Blobs.Repository.{
  delete_meta_if_unreferenced, live_blob_refs, list_unreferenced_older_than,
  list_referenced_older_than, distinct_vaults,
}
use familycards.Blobs.Handlers.{Server}
use familycards.Blobs.Gc.{
  unreferenced_grace_seconds, orphan_grace_seconds, delete_if_orphaned, each,
  remove_file_best_effort, after_delete, collect_unreferenced_one, collect_orphaned_one,
  collect_unreferenced, each_vault, collect_orphaned, run_gc,
}

each_keeps :
    (P : Server → Type 0) (step : Blob → Server → Server × Bool)
    → ((m : Blob) (s : Server) → P s → P (step m s).0)
    → (ms : List Blob) (out : Server × ℕ) → P out.0
    → P (each step ms out).0
unfolding each
each_keeps P step keep [] out h = h
each_keeps P step keep (m ∷ ms) (s, removed) h = each_keeps P step keep ms _ (keep m s h)

module _ (base_dir : String) (fails : Blob → Bool) where
  -- The deletions of the two passes and the removal of a file keep it.
  pub record IsSpared (P : Server → Type 0) : Type 0 where
    pub unreferenced :
        (v id : String) (s : Server)
        → P s
        → P (record s { db = (delete_meta_if_unreferenced v id s.db).1 })
    pub orphaned :
        (v id : String) (s : Server) → P s → P (record s { db = (delete_if_orphaned v id s.db).1 })
    pub removed : (m : Blob) (s : Server) → P s → P (remove_file_best_effort base_dir fails m s)

  -- A candidate of either pass keeps it.
  pub record IsSwept (P : Server → Type 0) : Type 0 where
    pub first : (m : Blob) (s : Server) → P s → P (collect_unreferenced_one base_dir fails m s).0
    pub second :
        (live : List String) (m : Blob) (s : Server)
        → P s
        → P (collect_orphaned_one base_dir fails live m s).0

  after_delete_keeps :
      (P : Server → Type 0) (m : Blob) (r : Bool × Db) (s : Server)
      → (r.0 ≡ true → P (remove_file_best_effort base_dir fails m (record s { db = r.1 })))
      → (r.0 ≡ false → P (record s { db = r.1 }))
      → P (after_delete base_dir fails m r s).0
  after_delete_keeps P m (true, db) s gone stays = gone refl
  after_delete_keeps P m (false, db) s gone stays = stays refl

  -- It is enough to look at the transactions, and at the removal of the file after one that deletes.
  pub swept_after :
      (P : Server → Type 0)
      → ((m : Blob) (s : Server)
          → P s
          → (let r = delete_meta_if_unreferenced m.vault_id m.blob_id s.db in
              (r.0 ≡ true → P (remove_file_best_effort base_dir fails m (record s { db = r.1 })))
              × (r.0 ≡ false → P (record s { db = r.1 }))))
      → ((m : Blob) (s : Server)
          → P s
          → (let r = delete_if_orphaned m.vault_id m.blob_id s.db in
              (r.0 ≡ true → P (remove_file_best_effort base_dir fails m (record s { db = r.1 })))
              × (r.0 ≡ false → P (record s { db = r.1 }))))
      → IsSwept P
  unfolding collect_unreferenced_one collect_orphaned_one
  swept_after P unreferenced orphaned = record {
    first = λ m s p. after_delete_keeps P m _ s (unreferenced m s p).0 (unreferenced m s p).1;
    second = λ live m s p. elim (Bool-cases (contains m.blob_id live)) [
      | inl on ↦ rw on p
      | inr off ↦ rw off (after_delete_keeps P m _ s (orphaned m s p).0 (orphaned m s p).1)
    ];
  }

  pub swept : {P : Server → Type 0} → IsSpared P → IsSwept P
  swept {P} spared =
      swept_after P
        (λ m s p.
          let q = spared.unreferenced m.vault_id m.blob_id s p in
          (λ gone. spared.removed m _ q, λ stays. q))
        (λ m s p.
          let q = spared.orphaned m.vault_id m.blob_id s p in
          (λ gone. spared.removed m _ q, λ stays. q))

  module _ {P : Server → Type 0} (kept : IsSwept P) where
    each_vault_keeps :
        (trim_space : String → String) (candidates : List Blob) (vs : List String)
        (out : Server × ℕ)
        → P out.0
        → P (each_vault base_dir fails trim_space candidates vs out).0
    unfolding each_vault
    each_vault_keeps trim_space candidates [] out h = h
    each_vault_keeps trim_space candidates (v ∷ vs) (s, removed) h =
        let live = live_blob_refs trim_space v s.db.items in
        let step = collect_orphaned_one base_dir fails live in
        let ms = select (λ (m : Blob). m.vault_id == v) candidates in
        each_vault_keeps trim_space candidates vs (each step ms (s, removed))
          (each_keeps P step (kept.second live) ms (s, removed) h)

    collect_unreferenced_keeps :
        (now : ℕ) (s : Server) → P s → P (collect_unreferenced base_dir fails now s).0
    unfolding collect_unreferenced
    collect_unreferenced_keeps now s h =
        each_keeps P (collect_unreferenced_one base_dir fails) kept.first
          (list_unreferenced_older_than now unreferenced_grace_seconds s.db) (s, 0) h

    collect_orphaned_keeps :
        (trim_space : String → String) (now : ℕ) (s : Server)
        → P s
        → P (collect_orphaned base_dir fails trim_space now s).0
    unfolding collect_orphaned
    collect_orphaned_keeps trim_space now s h =
        let candidates = list_referenced_older_than now orphan_grace_seconds s.db in
        each_vault_keeps trim_space candidates (distinct_vaults candidates []) (s, 0) h

    pub run_gc_keeps :
        (trim_space : String → String) (now : ℕ) (s : Server)
        → P s
        → P (run_gc base_dir fails trim_space now s).0
    unfolding run_gc
    run_gc_keeps trim_space now s h =
        collect_orphaned_keeps trim_space now (collect_unreferenced base_dir fails now s).0
          (collect_unreferenced_keeps now s h)
