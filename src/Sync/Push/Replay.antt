-- ===== src/Sync/Push/Replay.antt =====
-- What the transaction of `Push` of server/internal/sync/handlers.go promises, told without tables: a
-- vault is a revision and a map from ids to items, and a batch is replayed on it.
use familycards.Prelude.{
  ℕ, ◌+◌, String, ◌≡◌, refl, sym, ap, subst, ◌∙◌, inl, inr, Bool, true, false, Option, some, List,
  [], ◌∷◌, All, if◌then◌else◌, arith, eq_iff, Bool-cases,
}
use familycards.Prelude.Table.{find}
use familycards.Http.{Base64}
use familycards.Store.Tx.{ran}
use familycards.Store.{Item, Db}
use familycards.Sync.Resolve.{resolve}
use familycards.Sync.Repository.{
  is_item, get_item, upsert, upsert_item, get_vault_rev, mark_blobs_referenced,
}
use familycards.Sync.Wire.{ItemDto, AcceptedDto, Decoded}
use familycards.Sync.Push.{
  Outcome, accepted, conflicted, add_outcome, current_item, incoming_of, store_at, conflict_dto,
  push_loop, push_tx,
}
use familycards.Sync.Push.Step.{
  stored_db, get_vault_rev-stored_db, push_item-accepted, push_item-conflicted,
}
use familycards.Sync.Push.Transaction.{refs_missing, push_tx-ok}

-- The revision of the vault that is pushed to, and the items by vault and id.
pub record Shelf : Type 0 where
  pub rev : ℕ
  pub item_at : String → String → Option Item

-- The map with an item put at its place.
abbrev pub put : Item → (String → String → Option Item) → String → String → Option Item
put z m u id = if is_item u id z then some z else m u id

abbrev pub replay_with : Base64 → Decoded → Bool → Shelf → Outcome × Shelf
replay_with b64 it true s = (
  accepted (record { item_id = it.item_id; rev = s.rev + 1 }),
  record { rev = s.rev + 1; item_at = put (store_at it (s.rev + 1)) s.item_at },
)
replay_with b64 it false s =
    (conflicted (conflict_dto b64 (s.item_at it.vault_id it.item_id) it), s)

-- One item of the batch.
abbrev pub replay_item : Base64 → Decoded → Shelf → Outcome × Shelf
replay_item b64 it s =
    replay_with b64 it (resolve (current_item (s.item_at it.vault_id it.item_id)) (incoming_of it))
      s

abbrev pub replay :
    Base64
    → List Decoded
    → List AcceptedDto × List ItemDto
    → Shelf
    → (List AcceptedDto × List ItemDto) × Shelf
replay b64 [] out s = (out, s)
replay b64 (it ∷ its) out s =
    let (o, s') = replay_item b64 it s in replay b64 its (add_outcome o out) s'

-- The tables hold what the shelf holds.
pub record Shows (v : String) (db : Db) (s : Shelf) : Type 0 where
  pub same_rev : get_vault_rev v db ≡ some s.rev
  pub same_items : (u id : String) → get_item u id db ≡ s.item_at u id

find-upsert :
    (z : Item) (u id : String) (rows : List Item)
    → find (is_item u id) (upsert z rows)
      ≡ (if is_item u id z then some z else find (is_item u id) rows)
unfolding find upsert
find-upsert z u id [] = refl
find-upsert z u id (x ∷ rows) = ground (
  arith,
  find-upsert z u id rows,
  eq_iff x.vault_id z.vault_id,
  eq_iff x.item_id z.item_id,
  eq_iff x.vault_id u,
  eq_iff x.item_id id,
  eq_iff z.vault_id u,
  eq_iff z.item_id id,
)

Shows-stored :
    (v : String) (it : Decoded) (db : Db) (s : Shelf)
    → Shows v db s
    → Shows v
        (stored_db v s.rev it db)
        (record { rev = s.rev + 1; item_at = put (store_at it (s.rev + 1)) s.item_at })
unfolding get_item upsert_item mark_blobs_referenced
Shows-stored v it db s h = record {
  same_rev = get_vault_rev-stored_db v s.rev it db h.same_rev;
  same_items = λ u id.
      find-upsert (store_at it (s.rev + 1)) u id db.items
      ∙ ap
          (λ o.
            if is_item u id (store_at it (s.rev + 1)) then some (store_at it (s.rev + 1)) else o)
          (h.same_items u id);
}

module _ (b64 : Base64) (v : String) where
  record Replayed (its : List Decoded) (out : List AcceptedDto × List ItemDto) (db : Db)
      (end : (List AcceptedDto × List ItemDto) × Shelf) : Type 0 where
    after : Db
    result : push_loop b64 v its out db ≡ ran (end.0, after)
    shows : Shows v after end.1

  pub replay-cons :
      (it : Decoded) (its : List Decoded) (out : List AcceptedDto × List ItemDto) (s : Shelf)
      (b : Bool)
      → resolve (current_item (s.item_at it.vault_id it.item_id)) (incoming_of it) ≡ b
      → replay b64 (it ∷ its) out s
        ≡ replay b64 its (add_outcome (replay_with b64 it b s).0 out) (replay_with b64 it b s).1
  replay-cons it its out s b w =
      ap
        (λ b.
          replay b64 its (add_outcome (replay_with b64 it b s).0 out) (replay_with b64 it b s).1)
        w

  push_loop-Replayed :
      (its : List Decoded) (out : List AcceptedDto × List ItemDto) (s : Shelf) (db : Db)
      → All (λ (it : Decoded). it.vault_id ≡ v) its
      → Shows v db s
      → Replayed its out db (replay b64 its out s)
  unfolding push_loop
  push_loop-Replayed [] out s db q h = record { after = db; result = refl; shows = h }
  push_loop-Replayed (it ∷ its) out s db q h =
      let decision : Option Item → Bool = λ cur. resolve (current_item cur) (incoming_of it) in
      let here : get_item v it.item_id db ≡ s.item_at it.vault_id it.item_id =
        h.same_items v it.item_id ∙ ap (λ u. s.item_at u it.item_id) (sym q.0) in
      elim (Bool-cases (decision (s.item_at it.vault_id it.item_id))) [
        | inl w ↦
            let (o, s') = replay_with b64 it true s in
            let r =
              push_loop-Replayed its (add_outcome o out) s' (stored_db v s.rev it db) q.1
                (Shows-stored v it db s h) in
            subst (Replayed (it ∷ its) out db) (sym (replay-cons it its out s true w)) (record {
              after = r.after;
              result =
                  rw (push_item-accepted b64 v s.rev it db h.same_rev (ap decision here ∙ w))
                    r.result;
              shows = r.shows;
            })
        | inr w ↦
            let (o, s') = replay_with b64 it false s in
            let r = push_loop-Replayed its (add_outcome o out) s' db q.1 h in
            subst (Replayed (it ∷ its) out db) (sym (replay-cons it its out s false w)) (record {
              after = r.after;
              result =
                  rw (push_item-conflicted b64 v s.rev it db (ap decision here ∙ w), here) r.result;
              shows = r.shows;
            })
      ]

  -- The transaction of a push on a batch of items of vault `v`, none of whose blobs is missing, commits
  -- where the vault is there, and implements the replay: if the database shows a revision of the vault
  -- and a map of the items of all vaults, then the revision in the response, the accepted and the
  -- conflicting items are those of the replay on that map, and the new database shows its result.
  pub push_tx_replays :
      (its : List Decoded) (refs : List String) (s : Shelf) (db : Db)
      → All (λ (it : Decoded). it.vault_id ≡ v) its
      → refs_missing v refs db ≡ false
      → Shows v db s
      → (after : Db) × (push_tx b64 v its refs db
          ≡ ran (
            record {
              server_rev = (replay b64 its ([], []) s).1.rev;
              accepted = (replay b64 its ([], []) s).0.0;
              conflicts = (replay b64 its ([], []) s).0.1;
            },
            after,
          ))
        × Shows v after (replay b64 its ([], []) s).1
  push_tx_replays its refs s db q m h =
      let r = push_loop-Replayed its ([], []) s db q h in
      (r.after, push_tx-ok b64 v its refs db _ m r.result r.shows.same_rev, r.shows)
