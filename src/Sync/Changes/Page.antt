-- ===== src/Sync/Changes/Page.antt =====
-- The page that `ListChanges` of server/internal/sync/repository.go selects.
use familycards.Prelude.{
  ℕ, zero, suc, ◌<◌, ℤ, ltb, String, ◌≡◌, ◌≢◌, refl, sym, ap, ◌∙◌, subst, ◌⊎◌, inl, inr, Bool, true,
  List, [], ◌∷◌, take, All, All-map, Pairwise, arith, eq_iff, Bool-cases,
}
use mathlib.Core.Bool.{false≢true}
use familycards.Prelude.Table.{select, All-select}
use familycards.Store.{Item, Db}
use familycards.Sync.Repository.{insert_by_rev, sort_by_rev, is_change, list_changes}
use familycards.Sync.Revisions.{Distinct, IsRevisioned}

abbrev pub In : Item → List Item → Type 0
In x [] = ⊥
In x (y ∷ ys) = (x ≡ y) ⊎ In x ys

abbrev pub Before : Item → Item → Type 0
Before x y = x.rev < y.rev

All-take : (P : Item → Type 0) (k : ℕ) (xs : List Item) → All P xs → All P (take k xs)
All-take P zero xs h = tt
All-take P (suc k) [] h = tt
All-take P (suc k) (x ∷ xs) h = (h.0, All-take P k xs h.1)

Pairwise-take :
    (R : Item → Item → Type 0) (k : ℕ) (xs : List Item) → Pairwise R xs → Pairwise R (take k xs)
Pairwise-take R zero xs h = tt
Pairwise-take R (suc k) [] h = tt
Pairwise-take R (suc k) (x ∷ xs) h = (All-take (R x) k xs h.0, Pairwise-take R k xs h.1)

pub All-In : (P : Item → Type 0) (x : Item) (xs : List Item) → All P xs → In x xs → P x
All-In P x [] h i = absurd i
All-In P x (y ∷ ys) h i = elim i [ inl e ↦ subst P (sym e) h.0 | inr j ↦ All-In P x ys h.1 j ]

All-insert_by_rev :
    (P : Item → Type 0) (x : Item) (xs : List Item) → P x → All P xs → All P (insert_by_rev x xs)
unfolding insert_by_rev
All-insert_by_rev P x [] p h = (p, tt)
All-insert_by_rev P x (y ∷ ys) p h = elim (Bool-cases (ltb y.rev x.rev)) [
  | inl first ↦ rw first (h.0, All-insert_by_rev P x ys p h.1)
  | inr last ↦ rw last (p, h)
]

pub All-sort_by_rev : (P : Item → Type 0) (xs : List Item) → All P xs → All P (sort_by_rev xs)
unfolding sort_by_rev
All-sort_by_rev P [] h = tt
All-sort_by_rev P (x ∷ xs) h = All-insert_by_rev P x _ h.0 (All-sort_by_rev P xs h.1)

-- `x` comes before all that `y`, which is after it, comes before.
All-Before : (x y : Item) (ys : List Item) → x.rev < y.rev → All (Before y) ys → All (Before x) ys
All-Before x y ys h a = All-map _ _ ys (λ z b. omega arith) a

Sorted-insert :
    (x : Item) (xs : List Item)
    → All (λ (y : Item). x.rev ≢ y.rev) xs
    → Pairwise Before xs
    → Pairwise Before (insert_by_rev x xs)
unfolding insert_by_rev
Sorted-insert x [] d s = (tt, tt)
Sorted-insert x (y ∷ ys) d s = elim (Bool-cases (ltb y.rev x.rev)) [
  | inl first ↦
      rw first (All-insert_by_rev (Before y) x ys (ground arith) s.0, Sorted-insert x ys d.1 s.1)
  | inr last ↦ let b : x.rev < y.rev = ground arith in rw last ((b, All-Before x y ys b s.0), s)
]

pub Sorted-sort :
    (xs : List Item)
    → Pairwise (λ (x y : Item). x.rev ≢ y.rev) xs
    → Pairwise Before (sort_by_rev xs)
unfolding sort_by_rev
Sorted-sort [] h = tt
Sorted-sort (x ∷ xs) h = Sorted-insert x _ (All-sort_by_rev _ xs h.0) (Sorted-sort xs h.1)

Pairwise-select :
    (R S : Item → Item → Type 0) (p : Item → Bool) (xs : List Item)
    → ((x y : Item) → p x ≡ true → p y ≡ true → R x y → S x y)
    → Pairwise R xs
    → Pairwise S (select p xs)
unfolding select
Pairwise-select R S p [] f h = tt
Pairwise-select R S p (x ∷ xs) f h = elim (Bool-cases (p x)) [
  | inl hit ↦ rw hit (
    All-map _ (S x) (select p xs) (λ y r. f x y hit r.1 r.0) (All-select (R x) p xs h.0),
    Pairwise-select R S p xs f h.1,
  )
  | inr miss ↦ rw miss (Pairwise-select R S p xs f h.1)
]

In-insert_by_rev_self : (x : Item) (xs : List Item) → In x (insert_by_rev x xs)
unfolding insert_by_rev
In-insert_by_rev_self x [] = inl refl
In-insert_by_rev_self x (y ∷ ys) = elim (Bool-cases (ltb y.rev x.rev)) [
  | inl first ↦ rw first (inr (In-insert_by_rev_self x ys))
  | inr last ↦ rw last (inl refl)
]

In-insert_by_rev : (z x : Item) (xs : List Item) → In z xs → In z (insert_by_rev x xs)
unfolding insert_by_rev
In-insert_by_rev z x [] i = absurd i
In-insert_by_rev z x (y ∷ ys) i = elim (Bool-cases (ltb y.rev x.rev)) [
  | inl first ↦ rw first (elim i [ inl e ↦ inl e | inr j ↦ inr (In-insert_by_rev z x ys j) ])
  | inr last ↦ rw last (inr i)
]

pub In-sort : (z : Item) (xs : List Item) → In z xs → In z (sort_by_rev xs)
unfolding sort_by_rev
In-sort z [] i = absurd i
In-sort z (x ∷ xs) i = elim i [
  | inl e ↦ subst (λ y. In z (insert_by_rev y (sort_by_rev xs))) e (In-insert_by_rev_self z _)
  | inr j ↦ In-insert_by_rev z x _ (In-sort z xs j)
]

pub In-select :
    (z : Item) (p : Item → Bool) (xs : List Item) → p z ≡ true → In z xs → In z (select p xs)
unfolding select
In-select z p [] h i = absurd i
In-select z p (x ∷ xs) h i = elim (Bool-cases (p x)) [
  | inl hit ↦ rw hit (elim i [ inl e ↦ inl e | inr j ↦ inr (In-select z p xs h j) ])
  | inr miss ↦ rw miss (elim i [
    | inl e ↦ absurd (false≢true (sym miss ∙ ap p (sym e) ∙ h))
    | inr j ↦ In-select z p xs h j
  ])
]

-- What does not fit on the page comes after all of it.
In-take :
    (z : Item) (k : ℕ) (xs : List Item)
    → Pairwise Before xs
    → In z xs
    → In z (take k xs) ⊎ All (λ y. Before y z) (take k xs)
In-take z zero xs s i = inr tt
In-take z (suc k) [] s i = absurd i
In-take z (suc k) (x ∷ xs) s i = elim i [
  | inl e ↦ inl (inl e)
  | inr j ↦ elim (In-take z k xs s.1 j) [
    | inl on ↦ inl (inr on)
    | inr off ↦ inr (All-In (Before x) z xs s.0 j, off)
  ]
]

pub All-any : (xs : List Item) → All (λ x. Unit {0}) xs
All-any [] = tt
All-any (x ∷ xs) = (tt, All-any xs)

module _ (v : String) (since : ℤ) (limit : ℕ) (db : Db) (r : IsRevisioned db) where
  pub changes_distinct :
      Pairwise (λ (x y : Item). x.rev ≢ y.rev) (select (is_change v since) db.items)
  changes_distinct =
      Pairwise-select Distinct _ (is_change v since) db.items
        (λ x y hx hy d.
          (ground
            (arith, eq_iff x.vault_id v, eq_iff y.vault_id v, eq_iff x.vault_id y.vault_id, d)))
        r.distinct

  pub changes_sorted : Pairwise Before (sort_by_rev (select (is_change v since) db.items))
  changes_sorted = Sorted-sort _ changes_distinct

  -- With bounded and distinct revisions, an item of the vault after the cursor is on the page, or it
  -- comes after the whole page.
  pub list_changes_complete :
      (x : Item)
      → In x db.items
      → is_change v since x ≡ true
      → In x (list_changes v since limit db) ⊎ All (λ y. Before y x) (list_changes v since limit db)
  unfolding list_changes
  list_changes_complete x i c =
      In-take x limit _ changes_sorted (In-sort x _ (In-select x (is_change v since) db.items c i))
