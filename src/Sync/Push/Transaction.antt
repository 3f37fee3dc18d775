-- ===== src/Sync/Push/Transaction.antt =====
-- The transaction of `Push` of server/internal/sync/handlers.go, branch by branch.
use familycards.Prelude.{
  ℕ, ◌+◌, ltb, String, ◌≡◌, refl, ◌⊎◌, inl, inr, Bool, true, false, none, some, List, [], ◌∷◌,
  length, All, arith, Bool-cases, Option-cases,
}
use familycards.Prelude.Table.{find, update}
use familycards.Http.{Base64, Error, other, not_found, conflict}
use familycards.Store.{Vault, Db}
use familycards.Store.Tx.{ran, aborted, with_immediate_tx}
use familycards.Sync.Resolve.{resolve}
use familycards.Sync.Repository.{
  bump_vault, is_vault, bump, get_item, get_vault_rev, increment_vault_rev, missing_blob_refs,
}
use familycards.Sync.Wire.{ItemDto, AcceptedDto, Decoded}
use familycards.Sync.Push.{current_item, incoming_of, accept_item, push_item, push_loop, push_tx}
use familycards.Sync.Push.Step.{push_item-conflicted}
use familycards.Sync.Push.Loop.{Keeps, push_loop-Looped}

abbrev pub refs_missing : String → List String → Db → Bool
refs_missing v refs db = ltb 0 (length (missing_blob_refs v refs db))

get_vault_rev-none :
    (v : String) (db : Db) (vs : List Vault)
    → get_vault_rev v (record db { vaults = vs }) ≡ none
    → get_vault_rev v (record db { vaults = update (is_vault v) bump vs }) ≡ none
unfolding get_vault_rev find update
get_vault_rev-none v db [] h = refl
get_vault_rev-none v db (x ∷ vs) h = ground (arith, get_vault_rev-none v db vs)

module _ (b64 : Base64) (v : String) where
  push_item-no_vault :
      (it : Decoded) (db : Db)
      → get_vault_rev v db ≡ none
      → resolve (current_item (get_item v it.item_id db)) (incoming_of it) ≡ true
      → push_item b64 v it db ≡ aborted (other, bump_vault v db)
  unfolding push_item accept_item increment_vault_rev
  push_item-no_vault it db h w = rw (w, get_vault_rev-none v db db.vaults h, get_vault_rev)

  -- Without the vault the loop fails, or has stored nothing.
  push_loop-no_vault :
      (its : List Decoded) (out : List AcceptedDto × List ItemDto) (db : Db)
      → get_vault_rev v db ≡ none
      → ((left : Db) × (push_loop b64 v its out db ≡ aborted (other, left)))
        ⊎ ((end : List AcceptedDto × List ItemDto) × (push_loop b64 v its out db ≡ ran (end, db)))
  unfolding push_loop
  push_loop-no_vault [] out db h = inr (out, refl)
  push_loop-no_vault (it ∷ its) out db h =
      elim (Bool-cases (resolve (current_item (get_item v it.item_id db)) (incoming_of it))) [
        | inl w ↦ inl (bump_vault v db, rw (push_item-no_vault it db h w))
        | inr w ↦ rw (push_item-conflicted b64 v 0 it db w) (push_loop-no_vault its _ db h)
      ]

  module _ (its : List Decoded) (refs : List String) (db : Db) where
    -- A blob that was not uploaded refuses the whole batch.
    pub push_tx-missing :
        refs_missing v refs db ≡ true
        → push_tx b64 v its refs db
          ≡ aborted (conflict "references blobs that were not uploaded", db)
    unfolding push_tx
    push_tx-missing m = rw m

    pub push_tx-ok :
        {out : List AcceptedDto × List ItemDto} {after : Db} (n : ℕ)
        → refs_missing v refs db ≡ false
        → push_loop b64 v its ([], []) db ≡ ran (out, after)
        → get_vault_rev v after ≡ some n
        → push_tx b64 v its refs db
          ≡ ran (record { server_rev = n; accepted = out.0; conflicts = out.1 }, after)
    unfolding push_tx
    push_tx-ok n m l h = rw (m, l, h)

    pub push_tx-no_vault :
        refs_missing v refs db ≡ false
        → get_vault_rev v db ≡ none
        → (e : Error × Db) × (push_tx b64 v its refs db ≡ aborted e)
    unfolding push_tx
    push_tx-no_vault m h = elim (push_loop-no_vault its ([], []) db h) [
      | inl (left, e) ↦ ((other, left), rw (m, e))
      | inr (end, e) ↦ ((not_found, db), rw (m, e, h))
    ]

    -- The transaction keeps what the rounds keep, if it commits and if it does not.
    pub push_tx_keeps :
        {Q : Decoded → Type 0} {P : Db → Type 0}
        → Keeps v Q (λ n. P)
        → (refs_missing v refs db ≡ false → All Q its)
        → P db
        → P (with_immediate_tx (push_tx b64 v its refs) db).1
    unfolding with_immediate_tx
    push_tx_keeps {P} keeps q p = elim (Bool-cases (refs_missing v refs db)) [
      | inl m ↦ rw (push_tx-missing m) p
      | inr m ↦ elim (Option-cases (get_vault_rev v db)) [
        | inl absent ↦ let (e, failed) = push_tx-no_vault m absent in rw failed p
        | inr (n, there) ↦
            let l = push_loop-Looped b64 v keeps n its [] [] db (q m) there p in
            rw (push_tx-ok (n + length l.added) m l.result l.pushed.vault_rev) l.kept
      ]
    ]
