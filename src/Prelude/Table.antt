-- ===== src/Prelude/Table.antt =====
-- A database table as the list of its rows in rowid order, and the statements that the
-- repositories run on it. A condition of a WHERE clause is a Boolean function of the row.
use Prim.Native.Nat.{ℕ, suc, ◌+◌}
use mathlib.Core.Path.{◌≡◌, refl, subst}
use mathlib.Core.Logic.{inl, inr}
use mathlib.Core.Bool.{Bool, true, false, ◌||◌}
use mathlib.Core.Option.{Option, none, some, none-ne-some}
use mathlib.Core.List.{List, [], ◌∷◌, ◌++◌}
use native.Mathlib.Omega.{arith}
use familycards.Prelude.Tests.{if◌then◌else◌, is_some, Bool-cases}
use familycards.Prelude.Lists.{All}

module _ {ℓ} {A : Type ℓ} where
  -- SELECT … WHERE p, one row
  unfoldable pub find : (A → Bool) → List A → Option A
  find p [] = none
  find p (x ∷ xs) = if p x then some x else find p xs

  -- SELECT … WHERE p
  unfoldable pub select : (A → Bool) → List A → List A
  select p [] = []
  select p (x ∷ xs) = let rest = select p xs in if p x then x ∷ rest else rest

  -- SELECT COUNT(*) … WHERE p
  unfoldable pub count : (A → Bool) → List A → ℕ
  count p [] = 0
  count p (x ∷ xs) = let rest = count p xs in if p x then suc rest else rest

  -- INSERT
  abbrev pub insert : A → List A → List A
  insert x xs = xs ++ x ∷ []

  -- UPDATE … SET f WHERE p
  unfoldable pub update : (A → Bool) → (A → A) → List A → List A
  update p f [] = []
  update p f (x ∷ xs) = (if p x then f x else x) ∷ update p f xs

  -- DELETE … WHERE p
  unfoldable pub delete : (A → Bool) → List A → List A
  delete p [] = []
  delete p (x ∷ xs) = let rest = delete p xs in if p x then rest else x ∷ rest

  -- EXISTS … WHERE p
  unfoldable pub exists : (A → Bool) → List A → Bool
  exists p [] = false
  exists p (x ∷ xs) = let rest = exists p xs in if p x then true else rest

module _ {ℓ} {A : Type ℓ} where
  abbrev pub when : (A → Bool) → (A → A) → A → A
  when p f x = if p x then f x else x

  abbrev pub Option-map : (A → A) → Option A → Option A
  Option-map f none = none
  Option-map f (some x) = some (f x)

  -- An update that leaves a condition alone is seen by the query for that condition.
  pub find-update :
      (q p : A → Bool) (f : A → A) (xs : List A)
      → ((x : A) → q (f x) ≡ q x)
      → find q (update p f xs) ≡ Option-map (when p f) (find q xs)
  unfolding find update
  find-update q p f [] h = refl
  find-update q p f (x ∷ xs) h = ground (arith, h x, find-update q p f xs h)

  pub count-update :
      (q p : A → Bool) (f : A → A) (xs : List A)
      → ((x : A) → q (f x) ≡ q x)
      → count q (update p f xs) ≡ count q xs
  unfolding count update
  count-update q p f [] h = refl
  count-update q p f (x ∷ xs) h = ground (arith, h x, count-update q p f xs h)

  pub count-append : (p : A → Bool) (xs ys : List A) → count p (xs ++ ys) ≡ count p xs + count p ys
  unfolding count
  count-append p [] ys = omega arith
  count-append p (x ∷ xs) ys = ground (arith, count-append p xs ys)

  pub find-append :
      (p : A → Bool) (xs ys : List A)
      → find p (xs ++ ys) ≡ (if is_some (find p xs) then find p xs else find p ys)
  unfolding find
  find-append p [] ys = refl
  find-append p (x ∷ xs) ys = ground (arith, find-append p xs ys)

  -- What a query finds satisfies its condition.
  pub find_sound : (p : A → Bool) (xs : List A) (a : A) → find p xs ≡ some a → p a ≡ true
  unfolding find
  find_sound p [] a h = cc
  find_sound p (x ∷ xs) a h = ground (arith, find_sound p xs a)

  pub find_All {κ} :
      (P : A → Type κ) (p : A → Bool) (xs : List A) (a : A) → All P xs → find p xs ≡ some a → P a
  unfolding find
  find_All P p [] a h e = absurd (none-ne-some _ e)
  find_All P p (y ∷ xs) a h e = elim (Bool-cases (p y)) [
    | inl hit ↦ let same : y ≡ a = ground arith in subst P same h.0
    | inr miss ↦ find_All P p xs a h.1 (rw miss at e)
  ]

  pub All-update {κ} :
      (P : A → Type κ) (p : A → Bool) (f : A → A) (xs : List A)
      → ((x : A) → p x ≡ true → P x → P (f x))
      → All P xs
      → All P (update p f xs)
  unfolding update
  All-update P p f [] h a = tt
  All-update P p f (x ∷ xs) h a = (
    elim (Bool-cases (p x)) [ inl hit ↦ rw hit (h x hit a.0) | inr miss ↦ rw miss a.0 ],
    All-update P p f xs h a.1,
  )

  pub All-select {κ} :
      (P : A → Type κ) (p : A → Bool) (xs : List A)
      → All P xs
      → All (λ x. P x × (p x ≡ true)) (select p xs)
  unfolding select
  All-select P p [] a = tt
  All-select P p (x ∷ xs) a = elim (Bool-cases (p x)) [
    | inl hit ↦ rw hit ((a.0, hit), All-select P p xs a.1)
    | inr miss ↦ rw miss (All-select P p xs a.1)
  ]

  pub All-delete {κ} :
      (P : A → Type κ) (p : A → Bool) (xs : List A)
      → All P xs
      → All (λ x. P x × (p x ≡ false)) (delete p xs)
  unfolding delete
  All-delete P p [] a = tt
  All-delete P p (x ∷ xs) a = elim (Bool-cases (p x)) [
    | inl hit ↦ rw hit (All-delete P p xs a.1)
    | inr miss ↦ rw miss ((a.0, miss), All-delete P p xs a.1)
  ]

module _ {ℓ} {A : Type ℓ} where
  pub exists-update :
      (q p : A → Bool) (f : A → A) (xs : List A)
      → ((x : A) → q (f x) ≡ q x)
      → exists q (update p f xs) ≡ exists q xs
  unfolding exists update
  exists-update q p f [] h = refl
  exists-update q p f (x ∷ xs) h = ground (arith, h x, exists-update q p f xs h)

  -- A condition that an update never breaks.
  pub exists-update_mono :
      (q p : A → Bool) (f : A → A) (xs : List A)
      → ((x : A) → q x ≡ true → q (f x) ≡ true)
      → exists q xs ≡ true
      → exists q (update p f xs) ≡ true
  unfolding exists update
  exists-update_mono q p f [] h e = e
  exists-update_mono q p f (x ∷ xs) h e = ground (arith, h x, exists-update_mono q p f xs h)

  -- An update establishes `r` of what satisfied `q`.
  pub exists-update_new :
      (q r p : A → Bool) (f : A → A) (xs : List A)
      → ((x : A) → q x ≡ true → (p x ≡ true) × (r (f x) ≡ true))
      → exists q xs ≡ true
      → exists r (update p f xs) ≡ true
  unfolding exists update
  exists-update_new q r p f [] h e = cc
  exists-update_new q r p f (x ∷ xs) h e = ground (arith, h x, exists-update_new q r p f xs h)

  pub exists-append :
      (p : A → Bool) (xs ys : List A) → exists p (xs ++ ys) ≡ (exists p xs || exists p ys)
  unfolding exists
  exists-append p [] ys = refl
  exists-append p (x ∷ xs) ys = ground (arith, exists-append p xs ys)

  -- A row that a deletion does not touch stays.
  pub exists-delete :
      (q p : A → Bool) (xs : List A)
      → ((x : A) → q x ≡ true → p x ≡ false)
      → exists q xs ≡ true
      → exists q (delete p xs) ≡ true
  unfolding exists delete
  exists-delete q p [] h e = e
  exists-delete q p (x ∷ xs) h e = ground (arith, h x, exists-delete q p xs h)

  pub is_some-find : (p : A → Bool) (xs : List A) → is_some (find p xs) ≡ exists p xs
  unfolding find exists
  is_some-find p [] = refl
  is_some-find p (x ∷ xs) = ground (arith, is_some-find p xs)
