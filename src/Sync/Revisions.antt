-- ===== src/Sync/Revisions.antt =====
-- The revisions of a vault's items: bounded by the vault's counter, and no two alike, as an
-- invariant of the tables of server/internal/sync/repository.go.
use familycards.Prelude.{
  ℕ, suc, ◌+◌, ◌≤◌, String, ◌==◌, ◌≡◌, ◌≢◌, ◌∙◌, inl, inr, true, false, Option, none, some, List,
  [], ◌∷◌, All, All-map, All-zip, Pairwise, subst, arith, eq_iff, ==→≡, Bool-cases,
}
use native.Mathlib.Nat.{le_trans}
use familycards.Prelude.Table.{find, update}
use familycards.Store.{Vault, Item, Db}
use familycards.Sync.Repository.{
  is_vault, is_item, bump, bump_vault, upsert, upsert_item, get_vault_rev,
}

abbrev pub rev_or_zero : Option ℕ → ℕ
rev_or_zero none = 0
rev_or_zero (some n) = n

-- The vault's revision counter; 0 where there is no such vault.
abbrev pub last_rev : String → Db → ℕ
last_rev v db = rev_or_zero (get_vault_rev v db)

-- Two items of one vault have different ids and different revisions.
abbrev pub Distinct : Item → Item → Type 0
Distinct x y =
    (x.vault_id == y.vault_id) ≡ true → (x.rev ≢ y.rev) × ((x.item_id == y.item_id) ≡ false)

pub record IsRevisioned (db : Db) : Type 0 where
  pub below : All (λ (it : Item). it.rev ≤ last_rev it.vault_id db) db.items
  pub distinct : Pairwise Distinct db.items

last_rev-update :
    (u v : String) (db : Db) (vs : List Vault)
    → last_rev u (record db { vaults = vs })
      ≤ last_rev u (record db { vaults = update (is_vault v) bump vs })
unfolding get_vault_rev find update
last_rev-update u v db [] = omega arith
last_rev-update u v db (x ∷ vs) = ground (arith, last_rev-update u v db vs)

pub All-upsert :
    (P : Item → Type 0) (z : Item) (rows : List Item) → P z → All P rows → All P (upsert z rows)
unfolding upsert
All-upsert P z [] p h = (p, tt)
All-upsert P z (x ∷ rows) p h = elim (Bool-cases (is_item z.vault_id z.item_id x)) [
  | inl hit ↦ rw hit (p, h.1)
  | inr miss ↦ rw miss (h.0, All-upsert P z rows p h.1)
]

-- `x` does not stand in the way of `z`: it has an older revision, if it is in the same vault.
abbrev Older : Item → Item → Type 0
Older z x = (x.vault_id == z.vault_id) ≡ true → suc x.rev ≤ z.rev

Distinct-replaced :
    (z x y : Item) → is_item z.vault_id z.item_id x ≡ true → Older z y × Distinct x y → Distinct z y
Distinct-replaced z x y hit (older, d) same = ground (
  arith,
  eq_iff x.vault_id z.vault_id,
  eq_iff x.item_id z.item_id,
  eq_iff z.vault_id y.vault_id,
  eq_iff y.vault_id z.vault_id,
  eq_iff x.vault_id y.vault_id,
  eq_iff z.item_id y.item_id,
  eq_iff x.item_id y.item_id,
  older,
  d,
)

Distinct-kept : (z x : Item) → is_item z.vault_id z.item_id x ≡ false → Older z x → Distinct x z
Distinct-kept z x miss older same = ground (arith, older)

Pairwise-upsert :
    (z : Item) (rows : List Item)
    → All (Older z) rows
    → Pairwise Distinct rows
    → Pairwise Distinct (upsert z rows)
unfolding upsert
Pairwise-upsert z [] o h = (tt, tt)
Pairwise-upsert z (x ∷ rows) o h = elim (Bool-cases (is_item z.vault_id z.item_id x)) [
  | inl hit ↦ rw hit (
    All-map _ (Distinct z) rows (λ y. Distinct-replaced z x y hit)
        (All-zip (Older z) (Distinct x) rows o.1 h.0),
    h.1,
  )
  | inr miss ↦ rw miss (
    All-upsert (Distinct x) z rows (Distinct-kept z x miss o.0) h.0,
    Pairwise-upsert z rows o.1 h.1,
  )
]

module _ (v : String) (n : ℕ) (db : Db) (h : get_vault_rev v db ≡ some n) (z : Item)
    (in_vault : z.vault_id ≡ v) (next : z.rev ≡ n + 1) where
  Older-next : (x : Item) → x.rev ≤ last_rev x.vault_id db → Older z x
  Older-next x b same =
      let e : x.vault_id ≡ v = ==→≡ x.vault_id z.vault_id same ∙ in_vault in
      let m : x.rev ≤ rev_or_zero (get_vault_rev v db) = subst (λ u. x.rev ≤ last_rev u db) e b in
      rw next (ground (arith, m))

  -- Storing an item of the vault at its next revision keeps the revisions bounded and distinct.
  pub upsert_item-IsRevisioned :
      get_vault_rev v (bump_vault v db) ≡ some (n + 1)
      → IsRevisioned db
      → IsRevisioned (upsert_item z (bump_vault v db))
  unfolding upsert_item get_vault_rev
  upsert_item-IsRevisioned h' r = record {
    below = All-upsert _ z db.items (rw in_vault (ground arith)) (
        All-map (λ x. x.rev ≤ last_rev x.vault_id db) _ db.items
          (λ x b. le_trans b (last_rev-update x.vault_id v db db.vaults)) r.below);
    distinct =
        Pairwise-upsert z db.items
          (All-map (λ x. x.rev ≤ last_rev x.vault_id db) (Older z) db.items Older-next r.below)
          r.distinct;
  }
