-- ===== src/Sync/Changes/Remaining.antt =====
-- What is left of a vault's changes after a page of GET /v1/sync/changes.
use familycards.Prelude.{
  ℕ, zero, suc, ◌≤◌, ◌<◌, ℤ, pos, ltb, ltb_ℤ, String, ◌==◌, ◌≡◌, ◌≢◌, refl, sym, ap, ◌∙◌, subst,
  inl, inr, Bool, true, false, some, List, [], ◌∷◌, take, drop, All, All-map, Pairwise, arith, ==→≡,
  Bool-cases,
}
use familycards.Prelude.Table.{select, All-select}
use familycards.Store.{Item, Db}
use familycards.Sync.Repository.{insert_by_rev, sort_by_rev, is_change, list_changes, get_vault_rev}
use familycards.Sync.Revisions.{IsRevisioned, last_rev, rev_or_zero}
use familycards.Sync.Changes.{next_since}
use familycards.Sync.Changes.Page.{
  Before, All-sort_by_rev, All-any, Sorted-sort, changes_distinct, changes_sorted,
}

abbrev pub after : ℤ → Item → Bool
after since x = ltb_ℤ since (pos x.rev)

-- All changes after the cursor, in the order of their revisions.
abbrev pub all_changes : String → ℤ → Db → List Item
all_changes v since db = sort_by_rev (select (is_change v since) db.items)

-- A page and what is left: the list is cut at the cursor of the page.
select-none : (p : Item → Bool) (xs : List Item) → All (λ x. p x ≡ false) xs → select p xs ≡ []
unfolding select
select-none p [] h = refl
select-none p (x ∷ xs) h = ground (arith, h.0, select-none p xs h.1)

select-all : (p : Item → Bool) (xs : List Item) → All (λ x. p x ≡ true) xs → select p xs ≡ xs
unfolding select
select-all p [] h = refl
select-all p (x ∷ xs) h = ground (arith, h.0, select-all p xs h.1)

-- In a sorted list the cursor is at or after where it began.
next_since-le :
    (k n : ℕ) (xs : List Item)
    → All (λ (x : Item). n < x.rev) xs
    → Pairwise Before xs
    → ltb_ℤ (next_since (pos n) (take k xs)) (pos n) ≡ false
next_since-le zero n xs h s = ground arith
next_since-le (suc k) n [] h s = ground arith
next_since-le (suc k) n (x ∷ xs) h s = ground (arith, h.0, next_since-le k x.rev xs s.0 s.1)

take_cursor :
    (k : ℕ) (since : ℤ) (xs : List Item)
    → All (λ x. after since x ≡ true) xs
    → Pairwise Before xs
    → select (after (next_since since (take k xs))) xs ≡ drop k xs
unfolding select
take_cursor zero since xs h s = select-all (after since) xs h
take_cursor (suc k) since [] h s = refl
take_cursor (suc k) since (x ∷ xs) h s =
    let at_or_after = next_since-le k x.rev xs s.0 s.1 in
    let miss : after (next_since (pos x.rev) (take k xs)) x ≡ false = at_or_after in
    rw miss (take_cursor k (pos x.rev) xs (All-map _ _ xs (λ y b. ground (arith, b)) s.0) s.1)

-- Sorting and filtering commute.
insert-front :
    (x : Item) (zs : List Item)
    → All (λ (z : Item). ltb z.rev x.rev ≡ false) zs
    → insert_by_rev x zs ≡ x ∷ zs
unfolding insert_by_rev
insert-front x [] h = refl
insert-front x (z ∷ zs) h = rw h.0 refl

All-select_only :
    (P : Item → Type 0) (p : Item → Bool) (xs : List Item) → All P xs → All P (select p xs)
All-select_only P p xs h = All-map _ P (select p xs) (λ x q. q.0) (All-select P p xs h)

select-insert_hit :
    (p : Item → Bool) (x : Item) (ys : List Item)
    → p x ≡ true
    → Pairwise Before ys
    → select p (insert_by_rev x ys) ≡ insert_by_rev x (select p ys)
unfolding select insert_by_rev
select-insert_hit p x [] hit s = rw hit refl
select-insert_hit p x (y ∷ ys) hit s = elim (Bool-cases (ltb y.rev x.rev)) [
  | inl first ↦ ground (arith, first, select-insert_hit p x ys hit s.1)
  | inr last ↦
      let front : All (λ (z : Item). ltb z.rev x.rev ≡ false) (y ∷ ys) =
        (last, All-map _ _ ys (λ z b. ground (arith, last, b)) s.0) in
      rw (last, hit) (sym (insert-front x _ (All-select_only _ p (y ∷ ys) front)))
]

select-insert_miss :
    (p : Item → Bool) (x : Item) (ys : List Item)
    → p x ≡ false
    → select p (insert_by_rev x ys) ≡ select p ys
unfolding select insert_by_rev
select-insert_miss p x [] miss = rw miss refl
select-insert_miss p x (y ∷ ys) miss = elim (Bool-cases (ltb y.rev x.rev)) [
  | inl first ↦ ground (arith, first, select-insert_miss p x ys miss)
  | inr last ↦ rw (last, miss) refl
]

select-sort :
    (p : Item → Bool) (xs : List Item)
    → Pairwise (λ (x y : Item). x.rev ≢ y.rev) xs
    → select p (sort_by_rev xs) ≡ sort_by_rev (select p xs)
unfolding select sort_by_rev
select-sort p [] h = refl
select-sort p (x ∷ xs) h = elim (Bool-cases (p x)) [
  | inl hit ↦ rw hit (
      select-insert_hit p x (sort_by_rev xs) hit (Sorted-sort xs h.1)
      ∙ ap (insert_by_rev x) (select-sort p xs h.1))
  | inr miss ↦ rw miss (select-insert_miss p x (sort_by_rev xs) miss ∙ select-sort p xs h.1)
]

-- A later cursor filters what an earlier one has left.
select-select :
    (v : String) (since c : ℤ) (xs : List Item)
    → ltb_ℤ c since ≡ false
    → select (after c) (select (is_change v since) xs) ≡ select (is_change v c) xs
unfolding select
select-select v since c [] h = refl
select-select v since c (x ∷ xs) h = ground (arith, h, select-select v since c xs h)

next_since-ge :
    (k : ℕ) (since : ℤ) (xs : List Item)
    → All (λ x. after since x ≡ true) xs
    → Pairwise Before xs
    → ltb_ℤ (next_since since (take k xs)) since ≡ false
next_since-ge zero since xs h s = ground arith
next_since-ge (suc k) since [] h s = ground arith
next_since-ge (suc k) since (x ∷ xs) h s = ground (arith, h.0, next_since-le k x.rev xs s.0 s.1)

module _ (v : String) (limit : ℕ) (db : Db) (r : IsRevisioned db) where
  all_changes-after : (since : ℤ) → All (λ x. after since x ≡ true) (all_changes v since db)
  all_changes-after since = All-sort_by_rev _ _ (
      All-map _ _ _ (λ x h. ground (arith, h.1))
        (All-select (λ x. Unit {0}) (is_change v since) db.items (All-any db.items)))

  -- After a page the rest of the changes is what is left.
  pub all_changes-next :
      (since : ℤ)
      → all_changes v (next_since since (list_changes v since limit db)) db
        ≡ drop limit (all_changes v since db)
  unfolding list_changes
  all_changes-next since =
      let sorted = changes_sorted v since limit db r in
      let late = all_changes-after since in
      let c = next_since since (take limit (all_changes v since db)) in
      ap sort_by_rev
        (sym (select-select v since c db.items (next_since-ge limit since _ late sorted)))
      ∙ sym (select-sort (after c) _ (changes_distinct v since limit db r))
      ∙ take_cursor limit since _ late sorted

  -- At or past the vault's counter nothing is left.
  pub all_changes-end :
      (since : ℤ) (n : ℕ)
      → get_vault_rev v db ≡ some n
      → ltb_ℤ since (pos n) ≡ false
      → all_changes v since db ≡ []
  unfolding sort_by_rev
  all_changes-end since n h past =
      rw (select-none (is_change v since) db.items (All-map _ _ db.items none_after r.below)) refl
    where
      none_after : (x : Item) → x.rev ≤ last_rev x.vault_id db → is_change v since x ≡ false
      none_after x b = elim (Bool-cases (x.vault_id == v)) [
        | inl same ↦
            let at : x.rev ≤ rev_or_zero (get_vault_rev v db) =
              subst (λ u. x.rev ≤ last_rev u db) (==→≡ x.vault_id v same) b in
            let small : x.rev ≤ n = subst (λ o. x.rev ≤ rev_or_zero o) h at in
            ground (arith, past, small)
        | inr other ↦ rw other refl
      ]

  pub list_changes-take :
      (since : ℤ) → list_changes v since limit db ≡ take limit (all_changes v since db)
  unfolding list_changes
  list_changes-take since = refl
