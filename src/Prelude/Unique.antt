-- ===== src/Prelude/Unique.antt =====
-- Tables in which no two rows have the same key.
use Prim.Native.Nat.{◌≤◌}
use mathlib.Core.Path.{◌≡◌, refl, ◌∙◌}
use mathlib.Core.Logic.{inl, inr}
use mathlib.Core.Bool.{Bool, true, false}
use mathlib.Core.List.{List, [], ◌∷◌, ◌++◌}
use native.Mathlib.Omega.{arith}
use familycards.Prelude.Tests.{Bool-cases}
use familycards.Prelude.Table.{count, update, delete, exists, count-append, count-update}

module _ {ℓ} {A : Type ℓ} where
  pub count-none : (p : A → Bool) (xs : List A) → exists p xs ≡ false → count p xs ≡ 0
  unfolding count exists
  count-none p [] h = refl
  count-none p (x ∷ xs) h = ground (arith, count-none p xs)

  pub count-same : (p q : A → Bool) (xs : List A) → ((x : A) → p x ≡ q x) → count p xs ≡ count q xs
  unfolding count
  count-same p q [] h = refl
  count-same p q (x ∷ xs) h = ground (arith, h x, count-same p q xs h)

  pub count-delete : (p q : A → Bool) (xs : List A) → count p (delete q xs) ≤ count p xs
  unfolding count delete
  count-delete p q [] = omega arith
  count-delete p q (x ∷ xs) = ground (arith, count-delete p q xs)

  pub count_miss : (p : A → Bool) (x : A) → p x ≡ false → count p (x ∷ []) ≡ 0
  unfolding count
  count_miss p x h = rw h refl

  pub count_hit : (p : A → Bool) (x : A) → p x ≡ true → count p (x ∷ []) ≡ 1
  unfolding count
  count_hit p x h = rw h refl

module _ {ℓ κ} {A : Type ℓ} {K : Type κ} (has : K → A → Bool) where
  -- At most one row has each key.
  abbrev pub Unique : List A → Type κ
  Unique rows = (k : K) → count (has k) rows ≤ 1

  -- A row with a key that no row has is added.
  pub Unique-insert :
      (key : K) (x : A) (rows : List A)
      → ((k : K) → has k x ≡ true → (y : A) → has k y ≡ has key y)
      → exists (has key) rows ≡ false
      → Unique rows
      → Unique (rows ++ x ∷ [])
  Unique-insert key x rows same fresh unique k = elim (Bool-cases (has k x)) [
    | inl hit ↦
        let none_yet = count-same (has k) (has key) rows (same k hit) ∙ count-none _ rows fresh in
        omega (arith, count-append (has k) rows (x ∷ []), none_yet, count_hit (has k) x hit)
    | inr miss ↦
        omega (arith, count-append (has k) rows (x ∷ []), unique k, count_miss (has k) x miss)
  ]

  pub Unique-update :
      (p : A → Bool) (f : A → A) (rows : List A)
      → ((k : K) (x : A) → has k (f x) ≡ has k x)
      → Unique rows
      → Unique (update p f rows)
  Unique-update p f rows same unique k =
      omega (arith, unique k, count-update (has k) p f rows (same k))

  pub Unique-delete : (p : A → Bool) (rows : List A) → Unique rows → Unique (delete p rows)
  Unique-delete p rows unique k = omega (arith, unique k, count-delete (has k) p rows)
