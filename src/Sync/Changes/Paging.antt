-- ===== src/Sync/Changes/Paging.antt =====
-- Reading all changes page by page, as docs/SYNC.md tells a client to do it with
-- GET /v1/sync/changes: each request starts at the `next_since` of the reply before it, until
-- `has_more` is false. Nothing is written between the requests.
use familycards.Prelude.{
  ℕ, zero, suc, ◌-◌, ◌≤◌, ◌<◌, ℤ, pos, ltb_ℤ, String, ◌≡◌, refl, sym, ap, ◌∙◌, inl, inr, Bool, true,
  false, some, List, [], ◌∷◌, ◌++◌, length, take, drop, arith, Bool-cases,
}
use mathlib.Core.List.{append-nil}
use familycards.Http.{Base64, Result, ok, err}
use familycards.Store.{Item, Db}
use familycards.Sync.Repository.{is_change, list_changes, get_vault_rev}
use familycards.Sync.Wire.{ItemDto, ChangesResponse, item_dto_from, to_item_dtos}
use familycards.Sync.Revisions.{IsRevisioned}
use familycards.Sync.Changes.{next_since, changes_of, changes_response}
use familycards.Sync.Changes.Page.{In, In-sort, In-select}
use familycards.Sync.Changes.Cursor.{IsTopped, has_more_exact}
use familycards.Sync.Changes.Remaining.{
  all_changes, all_changes-next, all_changes-end, list_changes-take,
}

-- What a client does with a reply, where `go_on` is what it gets from the cursor on.
abbrev pub follow : Result ChangesResponse → (ℤ → List ItemDto × Bool) → List ItemDto × Bool
follow (err e) go_on = ([], false)
follow (ok r) go_on = elim r.has_more [
  | true ↦ let rest = go_on r.next_since in (r.items ++ rest.0, rest.1)
  | false ↦ (r.items, true)
]

-- What the pages have together, and whether the last one said that there is no more.
unfoldable pub pull_all : Base64 → String → ℕ → ℕ → ℤ → Db → List ItemDto × Bool
unfolding changes_of
pull_all b64 v limit zero since db = ([], false)
pull_all b64 v limit (suc fuel) since db =
    follow (changes_of b64 v since limit db) (λ c. pull_all b64 v limit fuel c db)

take-drop : (k : ℕ) (xs : List Item) → take k xs ++ drop k xs ≡ xs
take-drop zero xs = refl
take-drop (suc k) [] = refl
take-drop (suc k) (x ∷ xs) = ap (λ ys. x ∷ ys) (take-drop k xs)

length-drop : (k : ℕ) (xs : List Item) → 1 ≤ k → length (drop k xs) ≤ length xs - 1
length-drop zero xs h = absurd (omega (arith, h))
length-drop (suc k) [] h = omega arith
length-drop (suc zero) (x ∷ xs) h = omega arith
length-drop (suc (suc k)) (x ∷ xs) h = omega (arith, length-drop (suc k) xs (omega arith))

In-length : (x : Item) (xs : List Item) → In x xs → 1 ≤ length xs
In-length x [] i = absurd i
In-length x (y ∷ ys) i = omega arith

length-zero : (xs : List Item) → length xs ≤ 0 → xs ≡ []
length-zero [] h = refl
length-zero (x ∷ xs) h = absurd (omega (arith, h))

module _ (b64 : Base64) (v : String) (limit n : ℕ) (db : Db) (r : IsRevisioned db)
    (counter : get_vault_rev v db ≡ some n) (some_room : 1 ≤ limit) where
  changes_of-page :
      (since : ℤ)
      → changes_of b64 v since limit db
        ≡ ok (changes_response b64 since n (list_changes v since limit db))
  unfolding changes_of
  changes_of-page since = rw counter refl

  dtos-append :
      (xs ys : List Item) → to_item_dtos b64 xs ++ to_item_dtos b64 ys ≡ to_item_dtos b64 (xs ++ ys)
  unfolding to_item_dtos
  dtos-append [] ys = refl
  dtos-append (x ∷ xs) ys = ap (λ zs. item_dto_from b64 x ∷ zs) (dtos-append xs ys)

  -- One request, where `more` is what its reply says in `has_more`.
  pull_all-more :
      (fuel : ℕ) (since : ℤ)
      → ltb_ℤ (next_since since (list_changes v since limit db)) (pos n) ≡ true
      → pull_all b64 v limit (suc fuel) since db ≡ (
          let rest =
            pull_all b64 v limit fuel (next_since since (list_changes v since limit db)) db in
          (to_item_dtos b64 (list_changes v since limit db) ++ rest.0, rest.1))
  unfolding pull_all
  pull_all-more fuel since more = rw (changes_of-page since, more) refl

  pull_all-last :
      (fuel : ℕ) (since : ℤ)
      → ltb_ℤ (next_since since (list_changes v since limit db)) (pos n) ≡ false
      → pull_all b64 v limit (suc fuel) since db
        ≡ (to_item_dtos b64 (list_changes v since limit db), true)
  unfolding pull_all
  pull_all-last fuel since last = rw (changes_of-page since, last) refl

  left_less :
      (since : ℤ)
      → length (all_changes v (next_since since (list_changes v since limit db)) db)
        ≤ length (all_changes v since db) - 1
  left_less since =
      rw (all_changes-next v limit db r since)
        (length-drop limit (all_changes v since db) some_room)

  -- A page and what is left.
  page_and_rest :
      (since : ℤ)
      → list_changes v since limit db
          ++ all_changes v (next_since since (list_changes v since limit db)) db
        ≡ all_changes v since db
  page_and_rest since =
      rw (all_changes-next v limit db r since, list_changes-take v limit db r since)
        (take-drop limit (all_changes v since db))

  -- Reading page by page gives all changes after the cursor: with revisions that are bounded by the
  -- vault's counter and distinct, and as many requests as there are changes at least, the pages one
  -- after another are the items of the vault after the cursor in the order of their revisions, each
  -- of them once.
  pub pull_all_complete :
      (fuel : ℕ) (since : ℤ)
      → length (all_changes v since db) ≤ fuel
      → (pull_all b64 v limit fuel since db).0 ≡ to_item_dtos b64 (all_changes v since db)
  unfolding pull_all to_item_dtos
  pull_all_complete zero since few = rw (length-zero (all_changes v since db) few) refl
  pull_all_complete (suc fuel) since few =
      let c = next_since since (list_changes v since limit db) in
      elim (Bool-cases (ltb_ℤ c (pos n))) [
        | inl more ↦
            ap (λ (p : List ItemDto × Bool). p.0) (pull_all-more fuel since more)
            ∙ ap (λ ys. to_item_dtos b64 (list_changes v since limit db) ++ ys)
                (pull_all_complete fuel c (omega (arith, left_less since, few)))
            ∙ dtos-append (list_changes v since limit db) (all_changes v c db)
            ∙ ap (to_item_dtos b64) (page_and_rest since)
        | inr last ↦
            ap (λ (p : List ItemDto × Bool). p.0) (pull_all-last fuel since last)
            ∙ ap (to_item_dtos b64) (
                sym (append-nil (list_changes v since limit db))
                ∙ ap (λ ys. list_changes v since limit db ++ ys)
                    (sym (all_changes-end v limit db r c n counter last))
                ∙ page_and_rest since)
      ]

  some_left :
      (since : ℤ) (x : Item)
      → In x db.items
      → is_change v since x ≡ true
      → 1 ≤ length (all_changes v since db)
  some_left since x i c = In-length x _ (In-sort x _ (In-select x (is_change v since) db.items c i))

  -- The reading ends: where in addition the vault's counter is the revision of one of its items, one
  -- request more than there are changes is enough to get a reply whose `has_more` is not set.
  pub pull_all_ends :
      (fuel : ℕ) (since : ℤ)
      → IsTopped v n db
      → length (all_changes v since db) < fuel
      → (pull_all b64 v limit fuel since db).1 ≡ true
  pull_all_ends zero since t few = absurd (omega (arith, few))
  pull_all_ends (suc fuel) since t few =
      let page = list_changes v since limit db in
      let c = next_since since page in
      elim (Bool-cases (ltb_ℤ c (pos n))) [
        | inl more ↦
            let (x, i, later) = (has_more_exact b64 v since n page db r counter t).0 more in
            ap (λ (p : List ItemDto × Bool). p.1) (pull_all-more fuel since more)
            ∙ pull_all_ends fuel c t (omega (arith, left_less since, some_left c x i later, few))
        | inr last ↦ ap (λ (p : List ItemDto × Bool). p.1) (pull_all-last fuel since last)
      ]
