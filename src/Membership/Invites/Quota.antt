-- ===== src/Membership/Invites/Quota.antt =====
-- The member quota in `CreateInvite` of server/internal/membership/handlers.go.
use familycards.Prelude.{
  ℕ, ◌+◌, ◌≤◌, leb, String, ◌≡◌, sym, Bool, false, some, [], ◌∷◌, ◌++◌, arith,
}
use familycards.Prelude.Table.{count, exists, count-append}
use familycards.Http.{not_found, other}
use familycards.Store.{Vault, Invite, Db}
use familycards.Store.Tx.{ran, writes, fail_if_passed, or_fail_passed, ran-inj}
use familycards.Auth.Repository.{get_vault, count_active_users}
use familycards.Membership.Repository.{
  has_code, is_open_in, count_active_invites, create_invite_row,
}
use familycards.Membership.Invites.{create_invite_tx}

-- The database with one more invite.
abbrev pub with_invite : Invite → Db → Db
with_invite i db = record db { invites = db.invites ++ i ∷ [] }

count-one : (p : Invite → Bool) (i : Invite) → count p (i ∷ []) ≤ 1
unfolding count
count-one p i = ground arith

pub create_invite_row-ok :
    (i : Invite) (t : Unit {0}) (db after : Db)
    → create_invite_row i db ≡ ran (t, after)
    → (exists (has_code i.code_hash) db.invites ≡ false) × (after ≡ with_invite i db)
unfolding create_invite_row
create_invite_row-ok i t db after h =
    let (free, h1) =
      fail_if_passed (exists (has_code i.code_hash) db.invites) other
        (writes λ d. record d { invites = d.invites ++ i ∷ [] }) db _ h in
    (free, sym (ran-inj tt t (with_invite i db) after h1).1)

module _ (now : ℕ) (i : Invite) (db : Db) where
  -- The invites that are open afterwards: one more at most.
  count_active_invites-with_invite :
      (v : String)
      → count_active_invites v now (with_invite i db) ≤ count_active_invites v now db + 1
  unfolding count_active_invites
  count_active_invites-with_invite v =
      ground
        (arith, count-append (is_open_in v now) db.invites (i ∷ []), count-one (is_open_in v now) i)

  pub create_invite_tx-room :
      (after : Db)
      → create_invite_tx now i db ≡ ran (tt, after)
      → (vault : Vault) × (get_vault i.vault_id db ≡ some vault)
        × (leb vault.max_users
              (count_active_users i.vault_id db + count_active_invites i.vault_id now db)
            ≡ false)
        × (after ≡ with_invite i db)
  unfolding create_invite_tx
  create_invite_tx-room after h =
      let (vault, there, h1) = or_fail_passed not_found (get_vault i.vault_id db) _ db _ h in
      let (room, h2) = fail_if_passed _ _ (create_invite_row i) db _ h1 in
      (vault, there, room, (create_invite_row-ok i tt db after h2).1)

  -- If the transaction of an invite commits, then the members of the vault that are not disabled
  -- and its open invites together are no more than the vault may have, the new invite included.
  pub create_invite_tx_fits :
      (after : Db)
      → create_invite_tx now i db ≡ ran (tt, after)
      → (vault : Vault) × (get_vault i.vault_id after ≡ some vault)
        × (count_active_users i.vault_id after + count_active_invites i.vault_id now after
            ≤ vault.max_users)
  unfolding get_vault count_active_users
  create_invite_tx_fits after h =
      let (vault, there, room, e) = create_invite_tx-room after h in
      (vault, rw e there, rw e (ground (arith, room, count_active_invites-with_invite i.vault_id)))
