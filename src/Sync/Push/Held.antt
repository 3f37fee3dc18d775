-- ===== src/Sync/Push/Held.antt =====
-- What a push leaves of the items that it accepts, by the replay of its batch: `Push` of
-- server/internal/sync/handlers.go.
use familycards.Prelude.{
  ℕ, ◌+◌, ◌≤◌, ◌<◌, String, ◌≡◌, refl, sym, subst, ◌∙◌, inl, inr, true, false, some, List, [], ◌∷◌,
  All, All-append, All-map, arith, eq_refl, Bool-cases,
}
use familycards.Http.{Base64, ok, json, Body}
use familycards.Store.{Item, Db}
use familycards.Store.Tx.{with_immediate_tx}
use familycards.Auth.Context.{Context, current_identity}
use familycards.Sync.Resolve.{resolve}
use familycards.Sync.Repository.{is_item, get_item, get_vault_rev}
use familycards.Sync.Wire.{ItemDto, PushRequest, AcceptedDto, PushResponse, Decoded}
use familycards.Sync.Push.{
  current_item, incoming_of, store_at, all_blob_refs, check_push, push_checked, push,
}
use familycards.Sync.Push.Checks.{check_push-vault}
use familycards.Sync.Push.Replay.{Shelf, put, replay, Shows, replay-cons, push_tx_replays}
use familycards.Sync.Push.Transaction.{refs_missing}

-- An accepted item is on the shelf, at its revision or at a later one, as an item of the batch for
-- which `Q` holds.
pub record Held (v : String) (n : ℕ) (Q : Decoded → Type 0) (s : Shelf) (a : AcceptedDto)
    : Type 0 where
  pub past : n < a.rev
  pub reached : a.rev ≤ s.rev
  pub item : Item
  pub there : s.item_at v a.item_id ≡ some item
  pub recent : a.rev ≤ item.rev
  pub source : Decoded
  pub sent : Q source
  pub content : item ≡ store_at source item.rev

put_hit : (z : Item) (m : _) (u id : String) → is_item u id z ≡ true → put z m u id ≡ some z
put_hit z m u id h = rw h refl

put_miss : (z : Item) (m : _) (u id : String) → is_item u id z ≡ false → put z m u id ≡ m u id
put_miss z m u id h = rw h refl

module _ (b64 : Base64) (v : String) (n : ℕ) (Q : Decoded → Type 0) where
  abbrev stocked : Decoded → Shelf → Shelf
  stocked it s = record { rev = s.rev + 1; item_at = put (store_at it (s.rev + 1)) s.item_at }

  Held-later :
      (it : Decoded) (s : Shelf) (a : AcceptedDto)
      → Q it
      → Held v n Q s a
      → Held v n Q (stocked it s) a
  Held-later it s a q h =
      let z = store_at it (s.rev + 1) in
      elim (Bool-cases (is_item v a.item_id z)) [
        | inl hit ↦ record {
          past = h.past;
          reached = omega (arith, h.reached);
          item = z;
          there = put_hit z s.item_at v a.item_id hit;
          recent = omega (arith, h.reached);
          source = it;
          sent = q;
          content = refl;
        }
        | inr miss ↦ record {
          past = h.past;
          reached = omega (arith, h.reached);
          item = h.item;
          there = put_miss z s.item_at v a.item_id miss ∙ h.there;
          recent = h.recent;
          source = h.source;
          sent = h.sent;
          content = h.content;
        }
      ]

  Held-new :
      (it : Decoded) (s : Shelf)
      → it.vault_id ≡ v
      → n ≤ s.rev
      → Q it
      → Held v n Q (stocked it s) (record { item_id = it.item_id; rev = s.rev + 1 })
  Held-new it s e late q = record {
    past = omega (arith, late);
    reached = omega arith;
    item = store_at it (s.rev + 1);
    there =
        put_hit (store_at it (s.rev + 1)) s.item_at v it.item_id
          (rw e (ground (arith, eq_refl v, eq_refl it.item_id)));
    recent = omega arith;
    source = it;
    sent = q;
    content = refl;
  }

  pub replay-Held :
      (its : List Decoded) (out : List AcceptedDto × List ItemDto) (s : Shelf)
      → All (λ (it : Decoded). it.vault_id ≡ v) its
      → All Q its
      → n ≤ s.rev
      → All (Held v n Q s) out.0
      → All (Held v n Q (replay b64 its out s).1) (replay b64 its out s).0.0
  replay-Held [] out s q qs late h = h
  replay-Held (it ∷ its) out s q qs late h =
      elim (Bool-cases
        (resolve (current_item (s.item_at it.vault_id it.item_id)) (incoming_of it))) [
          | inl w ↦
              subst (λ (e : (List AcceptedDto × List ItemDto) × Shelf). All (Held v n Q e.1) e.0.0)
                (sym (replay-cons b64 v it its out s true w))
                (replay-Held its _ (stocked it s) q.1 qs.1 (omega (arith, late)) (
                  All-append (Held v n Q (stocked it s)) out.0 _
                    (All-map (Held v n Q s) _ out.0 (λ a. Held-later it s a qs.0) h)
                    (Held-new it s q.0 late qs.0, tt)))
          | inr w ↦
              subst (λ (e : (List AcceptedDto × List ItemDto) × Shelf). All (Held v n Q e.1) e.0.0)
                (sym (replay-cons b64 v it its out s false w)) (replay-Held its _ s q.1 qs.1 late h)
        ]

module _ (b64 : Base64) where
  module _ (ctx : Context) (body : Body PushRequest) (db : Db) (v : String) (its : List Decoded)
      (n : ℕ) where
    abbrev pub before : Shelf
    before = record { rev = n; item_at = λ u id. get_item u id db }

    abbrev pub end : (List AcceptedDto × List ItemDto) × Shelf
    end = replay b64 its ([], []) before

    abbrev pub response : PushResponse
    response = record { server_rev = end.1.rev; accepted = end.0.0; conflicts = end.0.1 }

    pub record PushedOn : Type 0 where
      pub after : Db
      pub result : push b64 ctx body db ≡ (json 200 response, after)
      pub shows : Shows v after end.1

    pub push_replayed :
        check_push b64 (current_identity ctx) body ≡ ok (v, its)
        → refs_missing v (all_blob_refs its []) db ≡ false
        → get_vault_rev v db ≡ some n
        → PushedOn
    unfolding push push_checked with_immediate_tx
    push_replayed checked m counter =
        let vaults = check_push-vault b64 (current_identity ctx) body v its checked in
        let (after, result, shows) =
          push_tx_replays b64 v its (all_blob_refs its []) before db vaults m
            (record { same_rev = counter; same_items = λ u id. refl }) in
        record { after = after; result = rw (checked, result) refl; shows = shows }
