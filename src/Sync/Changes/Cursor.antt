-- ===== src/Sync/Changes/Cursor.antt =====
-- The cursor and `has_more` of GET /v1/sync/changes.
use familycards.Prelude.{
  ℕ, zero, suc, ◌≤◌, ℤ, pos, ltb_ℤ, String, ◌==◌, ◌≡◌, refl, subst, ◌⊎◌, inl, inr, ◌↔◌, true, some,
  List, [], ◌∷◌, take, All, arith, ==→≡,
}
use familycards.Prelude.Table.{select, delete}
use familycards.Http.{Base64, ok}
use familycards.Store.{Item, Db}
use familycards.Sync.Repository.{
  is_change, list_changes, get_vault_rev, is_old_tombstone, delete_tombstones_older_than,
}
use familycards.Sync.Wire.{to_item_dtos}
use familycards.Sync.Revisions.{IsRevisioned, last_rev, rev_or_zero}
use familycards.Sync.Changes.{next_since, changes_of, changes_response}
use familycards.Sync.Changes.Page.{In, Before, All-In, list_changes_complete}

-- In a page in the order of the revisions the last revision is the greatest.
next_since_after :
    (v : String) (z : Item) (since : ℤ) (page : List Item)
    → is_change v since z ≡ true
    → All (λ y. Before y z) page
    → is_change v (next_since since page) z ≡ true
next_since_after v z since [] c h = c
next_since_after v z since (y ∷ ys) c h = next_since_after v z (pos y.rev) ys (ground arith) h.1

-- With the revisions of a vault bounded by its counter and distinct, the cursor of a reply loses
-- nothing for the next request: an item of the vault that is after the old cursor is on the page,
-- or it is after the new cursor.
pub cursor_complete :
    (v : String) (since : ℤ) (limit : ℕ) (db : Db) (x : Item)
    → IsRevisioned db
    → In x db.items
    → is_change v since x ≡ true
    → In x (list_changes v since limit db)
      ⊎ (is_change v (next_since since (list_changes v since limit db)) x ≡ true)
cursor_complete v since limit db x r i c = elim (list_changes_complete v since limit db r x i c) [
  | inl on ↦ inl on
  | inr off ↦ inr (next_since_after v x since _ c off)
]

-- The vault's counter is the revision of one of its items.
pub record IsTopped (v : String) (n : ℕ) (db : Db) : Type 0 where
  pub top : Item
  pub stored : In top db.items
  pub in_vault : (top.vault_id == v) ≡ true
  pub at_counter : top.rev ≡ n

-- For a vault at a counter that is the revision of one of its items, with revisions that are bounded
-- by the counter and distinct, `has_more` is set exactly where some item of the vault is after the
-- cursor of the reply.
pub has_more_exact :
    (b64 : Base64) (v : String) (since : ℤ) (n : ℕ) (page : List Item) (db : Db)
    → IsRevisioned db
    → get_vault_rev v db ≡ some n
    → IsTopped v n db
    → ((changes_response b64 since n page).has_more ≡ true)
      ↔ ((x : Item) × In x db.items × (is_change v (next_since since page) x ≡ true))
has_more_exact b64 v since n page db r h t = (
  λ more. (t.top, t.stored, ground (arith, t.in_vault, t.at_counter)),
  λ (x, i, c).
      let b : x.rev ≤ last_rev x.vault_id db =
        All-In (λ y. y.rev ≤ last_rev y.vault_id db) x db.items r.below i in
      let same : x.vault_id ≡ v = ==→≡ x.vault_id v (ground arith) in
      let b' : x.rev ≤ rev_or_zero (get_vault_rev v db) =
        subst (λ u. x.rev ≤ last_rev u db) same b in
      ground (arith, b'),
)

-- Nothing passes the filter.
select-empty :
    (v : String) (since cutoff : ℤ) (items : List Item)
    → All (λ x. is_change v since x ≡ true → is_old_tombstone cutoff x ≡ true) items
    → select (is_change v since) (delete (is_old_tombstone cutoff) items) ≡ []
unfolding select delete
select-empty v since cutoff [] h = refl
select-empty v since cutoff (x ∷ items) h =
    ground (arith, select-empty v since cutoff items h.1, h.0)

take-nil : (k : ℕ) → take {A = Item} k [] ≡ []
take-nil zero = refl
take-nil (suc k) = refl

list_changes-purged :
    (v : String) (since cutoff : ℤ) (limit : ℕ) (db : Db)
    → All (λ x. is_change v since x ≡ true → is_old_tombstone cutoff x ≡ true) db.items
    → list_changes v since limit (delete_tombstones_older_than cutoff db).0 ≡ []
unfolding list_changes delete_tombstones_older_than
list_changes-purged v since cutoff limit db old =
    rw (select-empty v since cutoff db.items old) (take-nil limit)

get_vault_rev-purged :
    (v : String) (cutoff : ℤ) (db : Db)
    → get_vault_rev v (delete_tombstones_older_than cutoff db).0 ≡ get_vault_rev v db
unfolding delete_tombstones_older_than get_vault_rev
get_vault_rev-purged v cutoff db = refl

-- Let a vault's counter be past a cursor, and let all of its items after the cursor be tombstones
-- that are old enough to be purged. After the purge the reply at that cursor has no items, repeats
-- the cursor and has `has_more` set.
pub has_more_stuck :
    (b64 : Base64) (v : String) (since cutoff : ℤ) (n limit : ℕ) (db : Db)
    → get_vault_rev v db ≡ some n
    → ltb_ℤ since (pos n) ≡ true
    → All (λ x. is_change v since x ≡ true → is_old_tombstone cutoff x ≡ true) db.items
    → changes_of b64 v since limit (delete_tombstones_older_than cutoff db).0
      ≡ ok (record { server_rev = n; next_since = since; has_more = true; items = [] })
unfolding changes_of to_item_dtos
has_more_stuck b64 v since cutoff n limit db h behind old =
    rw
      (list_changes-purged v since cutoff limit db old, get_vault_rev-purged v cutoff db, h, behind)
