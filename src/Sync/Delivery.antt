-- ===== src/Sync/Delivery.antt =====
-- From a push to the readers: `Push` and then `GetChanges` of server/internal/sync/handlers.go.
use familycards.Prelude.{
  ℕ, ◌≤◌, ◌<◌, leb, pos, String, ◌==◌, ◌≡◌, refl, sym, ap, subst, ◌∙◌, inl, inr, Bool, true, false,
  ◌&&◌, some, List, [], ◌∷◌, length, All, All-map, arith, Bool-cases,
}
use familycards.Prelude.Table.{find, exists, find_sound}
use familycards.Http.{Base64, Reply, ok, json, Body}
use familycards.Store.{Item, Db}
use familycards.Auth.Context.{Context, current_identity}
use familycards.Sync.Repository.{is_item, is_change, get_item, get_vault_rev}
use familycards.Sync.Wire.{
  ItemDto, PushRequest, AcceptedDto, PushResponse, Decoded, item_dto_from, to_item_dtos,
}
use familycards.Sync.Revisions.{IsRevisioned}
use familycards.Sync.Push.{all_blob_refs, check_push, push}
use familycards.Sync.Push.Checks.{check_push-vault}
use familycards.Sync.Push.Contract.{push-IsRevisioned}
use familycards.Sync.Push.Held.{Held, replay-Held, before, response, push_replayed}
use familycards.Sync.Push.Replay.{Shelf, replay, Shows}
use familycards.Sync.Push.Transaction.{refs_missing}
use familycards.Sync.Changes.Page.{In, In-select, In-sort}
use familycards.Sync.Changes.Remaining.{all_changes}
use familycards.Sync.Changes.Paging.{pull_all, pull_all_complete}

find-In : (p : Item → Bool) (xs : List Item) (x : Item) → find p xs ≡ some x → In x xs
unfolding find
find-In p [] x h = cc
find-In p (y ∷ ys) x h = elim (Bool-cases (p y)) [
  | inl hit ↦ let e = rw hit at h in inl cc
  | inr miss ↦ inr (find-In p ys x (rw miss at h))
]

-- The dto is of the item that was accepted, at its revision or a later one.
abbrev pub delivers : AcceptedDto → ItemDto → Bool
delivers a d = d.item_id == a.item_id && leb a.rev d.rev

module _ (b64 : Base64) where
  exists-dto :
      (a : AcceptedDto) (x : Item) (xs : List Item)
      → In x xs
      → (x.item_id == a.item_id) ≡ true
      → a.rev ≤ x.rev
      → exists (delivers a) (to_item_dtos b64 xs) ≡ true
  unfolding exists to_item_dtos item_dto_from
  exists-dto a x [] i same recent = absurd i
  exists-dto a x (y ∷ ys) i same recent = elim i [
    | inl e ↦
        let hit : delivers a (item_dto_from b64 y) ≡ true =
          subst (λ z. delivers a (item_dto_from b64 z) ≡ true) e (ground (arith, same, recent)) in
        ground (arith, hit)
    | inr j ↦ ground (arith, exists-dto a x ys j same recent)
  ]

  -- What is on the shelf is among the changes after the old revision.
  Held-delivered :
      (v : String) (n : ℕ) (Q : Decoded → Type 0) (s : Shelf) (after : Db) (a : AcceptedDto)
      → Shows v after s
      → Held v n Q s a
      → exists (delivers a) (to_item_dtos b64 (all_changes v (pos n) after)) ≡ true
  unfolding get_item
  Held-delivered v n Q s after a shows h =
      let found = shows.same_items v a.item_id ∙ h.there in
      let is_it = find_sound (is_item v a.item_id) after.items h.item found in
      let recent : a.rev ≤ h.item.rev = h.recent in
      let past : n < a.rev = h.past in
      let changed : is_change v (pos n) h.item ≡ true = ground (arith, is_it, recent, past) in
      exists-dto a h.item _
        (In-sort h.item _ (
          In-select h.item (is_change v (pos n)) after.items changed
            (find-In (is_item v a.item_id) after.items h.item found)))
        (ground (arith, is_it)) recent

  module _ (ctx : Context) (body : Body PushRequest) (db : Db) (v : String) (its : List Decoded)
      (n : ℕ) where
    -- What a push accepts reaches the readers: after a push to a vault at revision `n` that passes the
    -- checks and misses no blob, a reader whose cursor was at `n` and who reads all pages, while
    -- nothing else is written, gets every item that was accepted, at the revision in the reply or at a
    -- later one of the same batch.
    pub pushed_is_pulled :
        (limit fuel : ℕ)
        → IsRevisioned db
        → check_push b64 (current_identity ctx) body ≡ ok (v, its)
        → refs_missing v (all_blob_refs its []) db ≡ false
        → get_vault_rev v db ≡ some n
        → 1 ≤ limit
        → length (all_changes v (pos n) (push b64 ctx body db).1) ≤ fuel
        → (resp : PushResponse) × ((push b64 ctx body db).0 ≡ json 200 resp)
          × All
              (λ a.
                exists (delivers a) (pull_all b64 v limit fuel (pos n) (push b64 ctx body db).1).0
                ≡ true)
              resp.accepted
    pushed_is_pulled limit fuel revisioned checked m counter some_room enough =
        let r = push_replayed b64 ctx body db v its n checked m counter in
        let end = replay b64 its ([], []) (before b64 ctx body db v its n) in
        let ofv : Decoded → Type 0 = λ it. it.vault_id ≡ v in
        let vaults = check_push-vault b64 (current_identity ctx) body v its checked in
        let held =
          replay-Held b64 v n ofv its ([], []) (before b64 ctx body db v its n) vaults vaults
            (omega arith) tt in
        let pulled =
          pull_all_complete b64 v limit end.1.rev r.after
            (subst (λ (out : Reply PushResponse × Db). IsRevisioned out.1) r.result
              (push-IsRevisioned b64 ctx body db revisioned))
            r.shows.same_rev some_room fuel (pos n)
            (subst (λ (out : Reply PushResponse × Db). length (all_changes v (pos n) out.1) ≤ fuel)
              r.result enough) in
        subst
          (λ (out : Reply PushResponse × Db).
            (resp : PushResponse) × (out.0 ≡ json 200 resp)
            × All (λ a. exists (delivers a) (pull_all b64 v limit fuel (pos n) out.1).0 ≡ true)
                resp.accepted)
          (sym r.result)
          (
            response b64 ctx body db v its n,
            refl,
            All-map (Held v n ofv end.1) _ _
                (λ a h.
                  ap (exists (delivers a)) pulled
                  ∙ Held-delivered v n ofv end.1 r.after a r.shows h)
                held,
          )
