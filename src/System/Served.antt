-- ===== src/System/Served.antt =====
-- What the clients are promised, in every state of the server: the blobs of the live items can be
-- downloaded, and the changes of the vault can be read page by page.
use familycards.Prelude.{
  ℕ, ◌≤◌, ℤ, String, ◌==◌, ◌≡◌, refl, subst, inl, inr, true, false, some, List, [], ◌∷◌, length,
  All, arith, ==→≡, Bool-cases,
}
use familycards.Prelude.Table.{find, count, exists, All-update}
use familycards.Prelude.Unique.{Unique-update}
use familycards.Http.{Base64, Bytes, ok, json}
use familycards.Store.{Blob, Item, Db}
use familycards.Auth.Context.{Identity, Context, current_identity}
use familycards.Sync.Repository.{
  get_vault_rev, contains, is_blob, in_vault_list, mark, upsert_item, mark_blobs_referenced,
  delete_tombstones_older_than,
}
use familycards.Sync.Wire.{to_item_dtos}
use familycards.Sync.Changes.Remaining.{all_changes}
use familycards.Sync.Changes.Paging.{pull_all, pull_all_complete}
use familycards.Sync.Push.Loop.{Keeps}
use familycards.Sync.Push.Contract.{push_keeps, All-Unit}
use familycards.Blobs.Files.{File, read_file}
use familycards.Blobs.Handlers.{Server, get_for, get}
use familycards.Blobs.Stocked.{Stocked-read, has_key, HasFile, Stocked, IsStocked, upload-IsStocked}
use familycards.Blobs.Repository.{get_meta}
use familycards.Blobs.Handlers.Content.{read_file-digest}
use familycards.Sync.Changes.Page.{In, All-In}
use familycards.Sync.Backed.{is_marked, HasMarked, ItemBacked}
use familycards.Blobs.Gc.Pass.{run_gc_keeps}
use familycards.Blobs.Gc.Stock.{IsStocked-IsSwept}
use familycards.System.{Setup, Step, request, uploaded, collected, purged, Reach, start, later}
use familycards.System.Kept.{IsKept}
use familycards.System.Stepwise.{IsStepwise-IsKept}
use familycards.System.Blind.{IsBlind, Grows, IsBlind-IsStepwise}
use familycards.System.Requests.{handle_keeps}
use familycards.System.Sound.{Reach-IsSound}

module _ (base_dir : String) (files : List File) where
  abbrev StockedDb : Db → Type 0
  StockedDb db = Stocked base_dir db.blobs files

  StockedDb-IsBlind : IsBlind StockedDb
  StockedDb-IsBlind = record { keep = λ us ds is ks ts db k. k }

  StockedDb-Grows : Grows StockedDb
  StockedDb-Grows = record { new_vault = λ v db k. k }

  -- A push marks rows and leaves the files alone.
  stocked_keeps : (v : String) → Keeps v (λ it. Unit {0}) (λ n. StockedDb)
  unfolding upsert_item mark_blobs_referenced
  stocked_keeps v = record {
    stores = λ n it db q h w k. record {
      unique =
          Unique-update has_key (in_vault_list v it.blob_refs) mark db.blobs (λ key b. refl)
            k.unique;
      stored =
          All-update (HasFile base_dir files) (in_vault_list v it.blob_refs) mark db.blobs
            (λ b hit f. f) k.stored;
    };
  }

  StockedDb-IsKept : IsKept StockedDb
  StockedDb-IsKept = IsStepwise-IsKept (
      IsBlind-IsStepwise StockedDb-IsBlind StockedDb-Grows
        (λ b64 ctx body db. push_keeps b64 ctx body db stocked_keeps (λ v its q m. All-Unit its)))

module _ (setup : Setup) where
  open setup use {base_dir, sha256_hex, trim_space}

  Step-IsStocked : {s t : Server} → Step setup s t → IsStocked base_dir s → IsStocked base_dir t
  unfolding delete_tombstones_older_than
  Step-IsStocked (request r s) k = handle_keeps setup (StockedDb-IsKept base_dir s.files) r s.db k
  Step-IsStocked (uploaded fails now ctx claimed_id body s) k =
      upload-IsStocked base_dir sha256_hex fails now ctx claimed_id body s k
  Step-IsStocked (collected fails now s) k =
      run_gc_keeps base_dir fails (IsStocked-IsSwept base_dir fails) trim_space now s k
  Step-IsStocked (purged cutoff s) k = k

  Reach-IsStocked : {s : Server} → Reach setup s → IsStocked base_dir s
  unfolding count
  Reach-IsStocked start = record { unique = λ key. omega arith; stored = tt }
  Reach-IsStocked (later reach step) = Step-IsStocked step (Reach-IsStocked reach)

  marked_blob :
      (v id : String) (blobs : List Blob)
      → exists (is_marked v id) blobs ≡ true
      → exists (is_blob v id) blobs ≡ true
  unfolding exists
  marked_blob v id [] h = cc
  marked_blob v id (b ∷ blobs) h = ground (arith, marked_blob v id blobs)

  All-contains_at :
      (P : String → Type 0) (id : String) (refs : List String)
      → All P refs
      → contains id refs ≡ true
      → P id
  All-contains_at P id [] h c = cc
  All-contains_at P id (x ∷ refs) h c = elim (Bool-cases (x == id)) [
    | inl same ↦ subst P (==→≡ x id same) h.0
    | inr other ↦ All-contains_at P id refs h.1 (rw other at c)
  ]

  get_served :
      (ctx : Context) (caller : Identity) (id : String) (s : Server) (row : Blob) (content : Bytes)
      → current_identity ctx ≡ some caller
      → find (is_blob caller.vault_id id) s.db.blobs ≡ some row
      → read_file base_dir caller.vault_id id s.files ≡ ok content
      → get base_dir ctx id s ≡ json 200 content
  unfolding get get_meta
  get_served ctx caller id s row content known found read_back =
      rw (known, get_for, found, read_back) refl

  -- In every state that the server gets to from an empty data directory, by whatever requests and
  -- timers one after another: a blob that an item of the caller's vault refers to, where the item is
  -- not a tombstone, is downloaded with 200 and a content that has the digest asked for.
  pub live_blob_served :
      (s : Server) (ctx : Context) (caller : Identity) (x : Item) (id : String)
      → Reach setup s
      → current_identity ctx ≡ some caller
      → In x s.db.items
      → (x.vault_id == caller.vault_id) ≡ true
      → x.deleted ≡ false
      → contains id x.blob_refs ≡ true
      → (content : Bytes) × (get base_dir ctx id s ≡ json 200 content) × (sha256_hex content ≡ id)
  live_blob_served s ctx caller x id reach known i here live refers =
      let sound = Reach-IsSound setup s reach in
      let backed = All-In (ItemBacked s.db.blobs) x s.db.items sound.backed.backed i live in
      let marked = All-contains_at (HasMarked s.db.blobs x.vault_id) id x.blob_refs backed refers in
      let v = ==→≡ x.vault_id caller.vault_id here in
      let there : exists (is_blob caller.vault_id id) s.db.blobs ≡ true =
        subst (λ u. exists (is_blob u id) s.db.blobs ≡ true) v
          (marked_blob x.vault_id id s.db.blobs marked) in
      let (row, content, found, read_back) =
        Stocked-read base_dir caller.vault_id id s.db.blobs s.files (Reach-IsStocked reach) there in
      (
        content,
        get_served ctx caller id s row content known found read_back,
        read_file-digest base_dir sha256_hex caller.vault_id id content s.files sound.addressed
            read_back,
      )

  -- In every state that the server gets to from an empty data directory, by whatever requests and
  -- timers one after another, reading the changes of a vault page by page, as long as nothing is written in between, gives all items of the vault after
  -- the cursor in the order of their revisions, each of them once: for every page size that is not
  -- zero, and as many requests as there are such items at least.
  pub changes_served :
      (b64 : Base64) (v : String) (limit n fuel : ℕ) (since : ℤ) (s : Server)
      → Reach setup s
      → get_vault_rev v s.db ≡ some n
      → 1 ≤ limit
      → length (all_changes v since s.db) ≤ fuel
      → (pull_all b64 v limit fuel since s.db).0 ≡ to_item_dtos b64 (all_changes v since s.db)
  changes_served b64 v limit n fuel since s reach counter some_room enough =
      pull_all_complete b64 v limit n s.db (Reach-IsSound setup s reach).revisioned counter
        some_room fuel since enough
