-- ===== src/Sync/Push/Loop.antt =====
-- The loop over the batch in `Push` of server/internal/sync/handlers.go.
use familycards.Prelude.{
  ℕ, ◌+◌, String, ◌≡◌, refl, ap, subst, ◌∙◌, inl, inr, Bool, true, ◌||◌, ◌==◌, Option, none, some,
  eq_refl, All-map, List, [], ◌∷◌, ◌++◌, length, All, arith, Bool-cases,
}
use mathlib.Core.List.{append-nil, append_assoc}
use familycards.Http.{Base64}
use familycards.Prelude.Table.{find, exists, find_sound}
use familycards.Store.{Item, Db}
use familycards.Store.Tx.{Ran, ran}
use familycards.Sync.Resolve.{resolve}
use familycards.Sync.Repository.{is_item, get_item, get_vault_rev}
use familycards.Sync.Wire.{ItemDto, AcceptedDto, Decoded, item_dto_from, gone_conflict_dto}
use familycards.Sync.Push.{current_item, incoming_of, conflict_dto, push_loop}
use familycards.Sync.Push.Step.{
  stored_db, get_vault_rev-stored_db, push_item-accepted, push_item-conflicted,
}

abbrev pub accepts : Decoded → AcceptedDto → Bool
accepts it a = a.item_id == it.item_id

abbrev pub refuses : Decoded → ItemDto → Bool
refuses it x = x.item_id == it.item_id

-- The revisions are `n + 1`, `n + 2` and so on.
abbrev pub Consecutive : ℕ → List AcceptedDto → Type 0
Consecutive n [] = Unit {0}
Consecutive n (a ∷ rest) = (a.rev ≡ n + 1) × Consecutive (n + 1) rest

-- The item is in one of the two lists.
abbrev pub Answered : List AcceptedDto → List ItemDto → Decoded → Type 0
Answered added refused it = (exists (accepts it) added || exists (refuses it) refused) ≡ true

-- What a finished loop has added to its two lists, and the vault's revision after it.
pub record Pushed (v : String) (n : ℕ) (its : List Decoded) (db : Db) (added : List AcceptedDto)
    (refused : List ItemDto) : Type 0 where
  pub revisions : Consecutive n added
  pub all_answered : length added + length refused ≡ length its
  pub by_id : All (Answered added refused) its
  pub vault_rev : get_vault_rev v db ≡ some (n + length added)

-- `P n db` is kept by the rounds of the loop, where `n` is the vault's revision.
pub record Keeps (v : String) (Q : Decoded → Type 0) (P : ℕ → Db → Type 0) : Type 0 where
  pub stores :
      (n : ℕ) (it : Decoded) (db : Db)
      → Q it
      → get_vault_rev v db ≡ some n
      → resolve (current_item (get_item v it.item_id db)) (incoming_of it) ≡ true
      → P n db
      → P (n + 1) (stored_db v n it db)

pub record Looped (v : String) (n : ℕ) (its : List Decoded) (P : ℕ → Db → Type 0)
    (out : List AcceptedDto × List ItemDto) (r : Ran (List AcceptedDto × List ItemDto))
    : Type 0 where
  pub added : List AcceptedDto
  pub refused : List ItemDto
  pub after : Db
  pub result : r ≡ ran ((out.0 ++ added, out.1 ++ refused), after)
  pub pushed : Pushed v n its after added refused
  pub kept : P (n + length added) after

module _ (it : Decoded) (a : AcceptedDto) (added : List AcceptedDto) (refused : List ItemDto) where
  Answered-here : accepts it a ≡ true → Answered (a ∷ added) refused it
  unfolding exists
  Answered-here same = ground (arith, same)

  Answered-accepted : Answered added refused it → Answered (a ∷ added) refused it
  unfolding exists
  Answered-accepted h = ground (arith, h)

module _ (it : Decoded) (x : ItemDto) (added : List AcceptedDto) (refused : List ItemDto) where
  Answered-there : refuses it x ≡ true → Answered added (x ∷ refused) it
  unfolding exists
  Answered-there same = ground (arith, same)

  Answered-refused : Answered added refused it → Answered added (x ∷ refused) it
  unfolding exists
  Answered-refused h = ground (arith, h)

-- The conflict names the item.
conflict_dto-id :
    (b64 : Base64) (v : String) (it : Decoded) (db : Db)
    → refuses it (conflict_dto b64 (get_item v it.item_id db) it) ≡ true
unfolding get_item conflict_dto item_dto_from gone_conflict_dto
conflict_dto-id b64 v it db = go (find (is_item v it.item_id) db.items) refl
  where
    go :
        (o : Option Item)
        → find (is_item v it.item_id) db.items ≡ o
        → refuses it (conflict_dto b64 o it) ≡ true
    go none e = eq_refl it.item_id
    go (some z) e = ground (arith, find_sound (is_item v it.item_id) db.items z e)

module _ (v : String) (n : ℕ) (it : Decoded) (its : List Decoded) (P : ℕ → Db → Type 0)
    (d : List AcceptedDto) (c : List ItemDto) {r : Ran (List AcceptedDto × List ItemDto)} where
  -- A round that stores its item, before the rest of the loop.
  Looped-accepted :
      (a : AcceptedDto)
      → a.rev ≡ n + 1
      → accepts it a ≡ true
      → Looped v (n + 1) its P (d ++ a ∷ [], c) r
      → Looped v n (it ∷ its) P (d, c) r
  Looped-accepted a e same l = record {
    added = a ∷ l.added;
    refused = l.refused;
    after = l.after;
    result = l.result ∙ rw (append_assoc d (a ∷ []) l.added);
    pushed = record {
      revisions = (e, l.pushed.revisions);
      all_answered = omega (arith, l.pushed.all_answered);
      by_id = (
        Answered-here it a l.added l.refused same,
        All-map _ _ its (λ x. Answered-accepted x a l.added l.refused) l.pushed.by_id,
      );
      vault_rev = l.pushed.vault_rev ∙ ap some (omega arith);
    };
    kept = subst (λ m. P m l.after) (omega arith) l.kept;
  }

  -- A round that refuses its item.
  Looped-refused :
      (x : ItemDto)
      → refuses it x ≡ true
      → Looped v n its P (d, c ++ x ∷ []) r
      → Looped v n (it ∷ its) P (d, c) r
  Looped-refused x same l = record {
    added = l.added;
    refused = x ∷ l.refused;
    after = l.after;
    result = l.result ∙ rw (append_assoc c (x ∷ []) l.refused);
    pushed = record {
      revisions = l.pushed.revisions;
      all_answered = omega (arith, l.pushed.all_answered);
      by_id = (
        Answered-there it x l.added l.refused same,
        All-map _ _ its (λ y. Answered-refused y x l.added l.refused) l.pushed.by_id,
      );
      vault_rev = l.pushed.vault_rev;
    };
    kept = l.kept;
  }

module _ (b64 : Base64) (v : String) {Q : Decoded → Type 0} {P : ℕ → Db → Type 0}
    (keeps : Keeps v Q P) where
  pub push_loop-Looped :
      (n : ℕ) (its : List Decoded) (d : List AcceptedDto) (c : List ItemDto) (db : Db)
      → All Q its
      → get_vault_rev v db ≡ some n
      → P n db
      → Looped v n its P (d, c) (push_loop b64 v its (d, c) db)
  unfolding push_loop
  push_loop-Looped n [] d c db q h p = record {
    added = [];
    refused = [];
    after = db;
    result = rw (append-nil d, append-nil c);
    pushed = record {
      revisions = tt;
      all_answered = refl;
      by_id = tt;
      vault_rev = h ∙ ap some (omega arith);
    };
    kept = subst (λ m. P m db) (omega arith) p;
  }
  push_loop-Looped n (it ∷ its) d c db q h p =
      elim (Bool-cases (resolve (current_item (get_item v it.item_id db)) (incoming_of it))) [
        | inl w ↦ rw (push_item-accepted b64 v n it db h w) (
            Looped-accepted v n it its P d c _ refl (eq_refl it.item_id) (
              push_loop-Looped (n + 1) its _ c (stored_db v n it db) q.1
                (get_vault_rev-stored_db v n it db h) (keeps.stores n it db q.0 h w p)))
        | inr w ↦ rw (push_item-conflicted b64 v n it db w) (
            Looped-refused v n it its P d c _ (conflict_dto-id b64 v it db)
              (push_loop-Looped n its d _ db q.1 h p))
      ]
