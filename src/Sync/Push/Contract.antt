-- ===== src/Sync/Push/Contract.antt =====
-- What a request to POST /v1/sync/push gets and does: the theorems on the whole handler.
use familycards.Prelude.{
  ℕ, ◌+◌, String, ◌≡◌, refl, sym, subst, ◌≤◌, ◌∙◌, arith, All-zip, ◌⊎◌, inl, inr, true, false, some,
  List, [], ◌∷◌, length, All, All-map,
}
use familycards.Http.{Base64, Result, ok, err, Reply, json, Body}
use familycards.Store.{Item, Db}
use familycards.Store.Tx.{with_immediate_tx}
use familycards.Auth.Context.{Context, current_identity}
use familycards.Sync.Repository.{get_item, get_vault_rev, contains}
use familycards.Sync.Wire.{AcceptedDto, PushRequest, PushResponse, Decoded}
use familycards.Sync.Revisions.{IsRevisioned}
use familycards.Sync.Backed.{HasBlob, IsBacked, HasBlob-missing}
use familycards.Sync.Push.{
  push, check_push, push_checked, push_reply, push_loop, store_at, all_blob_refs,
}
use familycards.Sync.Push.Checks.{check_push-vault}
use familycards.Sync.Push.Transaction.{refs_missing, push_tx-ok, push_tx_keeps}
use familycards.Sync.Push.Loop.{Consecutive, Answered, Looped, Keeps, push_loop-Looped}
use familycards.Sync.Push.Replay.{Shelf, Shows, replay}
use familycards.Sync.Push.Held.{Held, replay-Held, before, response, push_replayed}
use familycards.Sync.Push.Invariant.{Keeps-IsRevisioned}
use familycards.Sync.Push.References.{Referenced, Keeps-Referenced, All-all_blob_refs}

push_reply_db : (r : Result PushResponse × Db) → (push_reply r).1 ≡ r.1
push_reply_db (ok resp, db) = refl
push_reply_db (err e, db) = refl

Keeps-nothing : (v : String) → Keeps v (λ it. Unit {0}) (λ n db. Unit {0})
Keeps-nothing v = record { stores = λ n it db q h w p. tt }

pub All-Unit : (its : List Decoded) → All (λ it. Unit {0}) its
All-Unit [] = tt
All-Unit (it ∷ its) = (tt, All-Unit its)

-- An item of the batch.
abbrev pub Among : List Decoded → Decoded → Type 0
Among [] it = ⊥
Among (x ∷ xs) it = (x ≡ it) ⊎ Among xs it

pub All-Among : (its : List Decoded) → All (Among its) its
All-Among [] = tt
All-Among (it ∷ its) = (inl refl, All-map _ _ its (λ x. inr) (All-Among its))

-- The row of an accepted item: one of the batch, at the revision of the reply or a later one.
pub record Stored (v : String) (its : List Decoded) (db : Db) (a : AcceptedDto) : Type 0 where
  pub row : Item
  pub there : get_item v a.item_id db ≡ some row
  pub recent : a.rev ≤ row.rev
  pub source : Decoded
  pub sent : Among its source
  pub content : row ≡ store_at source row.rev

module _ (b64 : Base64) where
  -- What holds of every database that a push can leave.
  pub push_keeps :
      {P : Db → Type 0} {Q : String → Decoded → Type 0} (ctx : Context) (body : Body PushRequest)
      (db : Db)
      → ((v : String) → Keeps v (Q v) (λ n. P))
      → ((v : String) (its : List Decoded)
          → All (λ (it : Decoded). it.vault_id ≡ v) its
          → refs_missing v (all_blob_refs its []) db ≡ false
          → All (Q v) its)
      → P db
      → P (push b64 ctx body db).1
  unfolding push push_checked
  push_keeps {P} {Q} ctx body db keeps q p = go (check_push b64 (current_identity ctx) body) refl
    where
      go :
          (r : Result (String × List Decoded))
          → check_push b64 (current_identity ctx) body ≡ r
          → P (push_checked b64 r db).1
      go (err e) eq = p
      go (ok (v, its)) eq = subst P (sym (push_reply_db _)) (
          push_tx_keeps b64 v its _ db (keeps v) (q v its (check_push-vault b64 _ body v its eq)) p)

  -- Whatever the reply, a push keeps the revisions of all items at or below the counters of their
  -- vaults, and the ids and the revisions of the items of a vault pairwise different, if that was so
  -- before.
  pub push-IsRevisioned :
      (ctx : Context) (body : Body PushRequest) (db : Db)
      → IsRevisioned db
      → IsRevisioned (push b64 ctx body db).1
  push-IsRevisioned ctx body db = push_keeps ctx body db Keeps-IsRevisioned (λ v its q m. q)

  -- Whatever the reply, after a push every blob that an item other than a tombstone refers to has a
  -- row in the item's vault that is marked as referenced, if that was so before.
  pub push-IsBacked :
      (ctx : Context) (body : Body PushRequest) (db : Db)
      → IsBacked db
      → IsBacked (push b64 ctx body db).1
  push-IsBacked ctx body db b =
      (push_keeps {P = Referenced db.blobs} ctx body db (λ v. Keeps-Referenced v db.blobs)
        (λ v its q m.
          All-zip _ _ its q
            (All-map _ _ its (λ it. refs_there v its it m) (All-all_blob_refs its [])))
        (record { stay = λ u id h. h; is_backed = b })).is_backed
    where
      refs_there :
          (v : String) (its : List Decoded) (it : Decoded)
          → refs_missing v (all_blob_refs its []) db ≡ false
          → All (λ id. contains id (all_blob_refs its []) ≡ true) it.blob_refs
          → All (HasBlob db.blobs v) it.blob_refs
      refs_there v its it m h =
          All-map _ _ it.blob_refs (λ id. HasBlob-missing v id (all_blob_refs its []) db m) h

  same_reply :
      (a b : PushResponse) (d e : Db)
      → ◌≡◌ {A = Reply PushResponse × Db} (json 200 a, d) (json 200 b, e)
      → (a ≡ b) × (d ≡ e)
  same_reply a b d e h = (cc, cc)

  -- What the shelf holds is in the tables.
  Held-Stored :
      (v : String) (n : ℕ) (its : List Decoded) (s : Shelf) (after : Db) (a : AcceptedDto)
      → Shows v after s
      → Held v n (Among its) s a
      → Stored v its after a
  Held-Stored v n its s after a shows h = record {
    row = h.item;
    there = shows.same_items v a.item_id ∙ h.there;
    recent = h.recent;
    source = h.source;
    sent = h.sent;
    content = h.content;
  }

  module _ (ctx : Context) (body : Body PushRequest) (db : Db) (v : String) (its : List Decoded)
      (n : ℕ) where
    all-Stored :
        check_push b64 (current_identity ctx) body ≡ ok (v, its)
        → refs_missing v (all_blob_refs its []) db ≡ false
        → get_vault_rev v db ≡ some n
        → (resp : PushResponse) (after : Db) → push b64 ctx body db ≡ (json 200 resp, after)
        → All (Stored v its after) resp.accepted
    all-Stored checked m h resp after e =
        let r = push_replayed b64 ctx body db v its n checked m h in
        let vaults = check_push-vault b64 (current_identity ctx) body v its checked in
        let start = before b64 ctx body db v its n in
        let held =
          replay-Held b64 v n (Among its) its ([], []) start vaults (All-Among its) (omega arith)
            tt in
        let (same, left) = same_reply _ resp r.after after (sym r.result ∙ e) in
        subst (λ (p : PushResponse). All (Stored v its after) p.accepted) same
          (subst (λ d. All (Stored v its d) (response b64 ctx body db v its n).accepted) left
            (All-map _ _ _
              (λ a. Held-Stored v n its (replay b64 its ([], []) start).1 r.after a r.shows) held))

    abbrev LoopedBatch : Type 0
    LoopedBatch = Looped v n its (λ m d. Unit {0}) ([], []) (push_loop b64 v its ([], []) db)

    pushed_as :
        (l : LoopedBatch)
        → check_push b64 (current_identity ctx) body ≡ ok (v, its)
        → refs_missing v (all_blob_refs its []) db ≡ false
        → push b64 ctx body db ≡ (
          json 200 (record {
            server_rev = n + length l.added;
            accepted = l.added;
            conflicts = l.refused;
          }),
          l.after,
        )
    unfolding push push_checked with_immediate_tx
    pushed_as l checked m =
        rw (checked, push_tx-ok b64 v its _ db (n + length l.added) m l.result l.pushed.vault_rev)
          refl

    -- A push that passes the checks, refers to no blob that is missing, and is for a vault at
    -- revision `n`, is answered with 200. The accepted items have the revisions n + 1, n + 2 and so
    -- on; each item of the batch has its id among the accepted or the conflicting ones, and there are
    -- as many of these together as items in the batch; for each accepted item there is a row of its
    -- id, which is an item of the batch stored at its revision or a later one; and the revision in
    -- the reply, which is the vault's afterwards, is `n` plus the number of accepted items.
    pub push_completes :
        check_push b64 (current_identity ctx) body ≡ ok (v, its)
        → refs_missing v (all_blob_refs its []) db ≡ false
        → get_vault_rev v db ≡ some n
        → (resp : PushResponse) × ((push b64 ctx body db).0 ≡ json 200 resp)
          × Consecutive n resp.accepted
          × (length resp.accepted + length resp.conflicts ≡ length its)
          × All (Answered resp.accepted resp.conflicts) its
          × All (Stored v its (push b64 ctx body db).1) resp.accepted
          × (resp.server_rev ≡ n + length resp.accepted)
          × (get_vault_rev v (push b64 ctx body db).1 ≡ some resp.server_rev)
    push_completes checked m h =
        let l = push_loop-Looped b64 v (Keeps-nothing v) n its [] [] db (All-Unit its) h tt in
        let done = pushed_as l checked m in
        let stored = all-Stored checked m h _ l.after done in
        rw done (
          _, refl, l.pushed.revisions, l.pushed.all_answered, l.pushed.by_id, stored, refl,
          l.pushed.vault_rev,
        )
