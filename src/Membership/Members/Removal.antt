-- ===== src/Membership/Members/Removal.antt =====
-- The database after `RemoveMember` of server/internal/membership/handlers.go.
use familycards.Prelude.{
  ℕ, ◌+◌, ◌≤◌, String, ◌==◌, ◌≡◌, refl, sym, subst, ◌∙◌, inl, inr, true, false, not, Option, none,
  some, List, [], ◌∷◌, arith, ==→≡, Bool-cases,
}
use familycards.Prelude.Table.{find, count, update, when, Option-map, find-update, find_sound}
use familycards.Http.{ok, missing}
use familycards.Store.{User, Db}
use familycards.Store.Tx.{ran, fail_if_passed, or_fail_passed, ran-inj, writes, ◌>>◌}
use familycards.Auth.Context.{Identity}
use familycards.Auth.Services.{Services}
use familycards.Auth.Repository.{
  is_user, is_active_in, get_user_by_id, count_active_users, set_user_disabled,
  revoke_all_user_devices,
}
use familycards.Auth.Middleware.{Authorization, require_auth}
use familycards.Auth.Middleware.Sound.{require_auth-IsAuthenticated}
use familycards.Membership.Members.{is_last, remove_member_tx}

-- The database after a removal.
abbrev pub without_member : String → Db → Db
without_member target_id db =
    revoke_all_user_devices target_id (set_user_disabled target_id true db)

abbrev disable : User → User
disable u = record u { disabled = true }

disabled-of :
    (target_id : String) (o : Option User) (u : User)
    → Option-map (when (is_user target_id) disable) o ≡ some u
    → (u.id == target_id) ≡ true
    → u.disabled ≡ true
disabled-of target_id none u h same = cc
disabled-of target_id (some x) u h same = ground (arith, h, same)

-- Disabling takes from the active members those who have the id.
count-disable :
    (v target_id : String) (us : List User)
    → count (is_active_in v) us
      ≤ count (is_active_in v) (update (is_user target_id) disable us)
        + count (is_user target_id) us
unfolding count update
count-disable v target_id [] = omega arith
count-disable v target_id (u ∷ us) = ground (arith, count-disable v target_id us)

-- Disabling no one, or one who is disabled, changes no count.
count-disable_none :
    (v target_id : String) (us : List User)
    → count (is_user target_id) us ≤ 0
    → count (is_active_in v) (update (is_user target_id) disable us) ≡ count (is_active_in v) us
unfolding count update
count-disable_none v target_id [] h = refl
count-disable_none v target_id (u ∷ us) h = ground (arith, count-disable_none v target_id us)

count-disable_again :
    (v target_id : String) (us : List User) (u : User)
    → find (is_user target_id) us ≡ some u
    → is_active_in v u ≡ false
    → count (is_user target_id) us ≤ 1
    → count (is_active_in v) (update (is_user target_id) disable us) ≡ count (is_active_in v) us
unfolding count update find
count-disable_again v target_id [] u found off one = cc
count-disable_again v target_id (x ∷ us) u found off one =
    ground
      (arith, count-disable_none v target_id us, count-disable_again v target_id us u, found, off)

-- Nobody becomes active by it.
count-disable_le :
    (v target_id : String) (us : List User)
    → count (is_active_in v) (update (is_user target_id) disable us) ≤ count (is_active_in v) us
unfolding count update
count-disable_le v target_id [] = omega arith
count-disable_le v target_id (u ∷ us) = ground (arith, count-disable_le v target_id us)

module _ (v target_id : String) (db after : Db) where
  pub record Removed : Type 0 where
    target : User
    found : get_user_by_id target_id db ≡ some target
    of_vault : (target.vault_id == v) ≡ true
    spared : is_last target (count_active_users v db) ≡ false
    pub written : after ≡ without_member target_id db

  pub remove_member_tx-Removed : remove_member_tx v target_id db ≡ ran (tt, after) → Removed
  unfolding remove_member_tx
  remove_member_tx-Removed h =
      let (target, found, h1) =
        or_fail_passed (missing "member not found") (get_user_by_id target_id db) _ db _ h in
      let (of_vault, h2) = fail_if_passed (not (target.vault_id == v)) _ _ db _ h1 in
      let (spared, h3) =
        fail_if_passed (is_last target (count_active_users v db)) _
          (writes (set_user_disabled target_id true) >> writes (revoke_all_user_devices target_id))
          db _ h2 in
      record {
        target = target;
        found = found;
        of_vault = ground (arith, of_vault);
        spared = spared;
        written = sym (ran-inj tt tt _ after h3).1;
      }

  disabled_after :
      (u : User)
      → after ≡ without_member target_id db
      → get_user_by_id target_id after ≡ some u
      → u.disabled ≡ true
  unfolding get_user_by_id set_user_disabled revoke_all_user_devices
  disabled_after u e h =
      let k = find-update (is_user target_id) (is_user target_id) disable db.users (λ x. refl) in
      let w = rw (e, k) at h in
      disabled-of target_id _ u w (find_sound (is_user target_id) after.users u h)

  -- In the database that a committed removal of a member leaves, no request passes the bearer check as
  -- that member, whatever token it carries and at whatever time.
  pub remove_member_locks_out :
      (services : Services) (secret : String) (now : ℕ) (header : Authorization) (id : Identity)
      → remove_member_tx v target_id db ≡ ran (tt, after)
      → require_auth services secret now header after ≡ ok id
      → (id.user_id == target_id) ≡ false
  remove_member_locks_out services secret now header id h k =
      let r = remove_member_tx-Removed h in
      let a = require_auth-IsAuthenticated services secret now header after id k in
      elim (Bool-cases (id.user_id == target_id)) [
        | inl same ↦
            let there : get_user_by_id target_id after ≡ some a.user =
              rw (← ==→≡ id.user_id target_id same) a.known_user in
            cc (a.not_disabled, disabled_after a.user r.written there)
        | inr differs ↦ differs
      ]

  -- No vault loses its last active member, or gets another one.
  pub remove_member_tx-bounds :
      (w : String)
      → remove_member_tx v target_id db ≡ ran (tt, after)
      → count (is_user target_id) db.users ≤ 1
      → 1 ≤ count_active_users w db
      → (1 ≤ count_active_users w after) × (count_active_users w after ≤ count_active_users w db)
  unfolding count_active_users get_user_by_id set_user_disabled revoke_all_user_devices
  remove_member_tx-bounds w h unique some_one =
      let r = remove_member_tx-Removed h in
      subst (λ d. (1 ≤ count_active_users w d) × (count_active_users w d ≤ count_active_users w db))
        (sym r.written)
        (elim (Bool-cases (is_active_in w r.target)) [
          | inl on ↦
              let same : w ≡ v =
                sym (==→≡ r.target.vault_id w (ground (arith, on)))
                ∙ ==→≡ r.target.vault_id v r.of_vault in
              let spared : is_last r.target (count (is_active_in w) db.users) ≡ false =
                rw same r.spared in
              let few = count-disable w target_id db.users in
              (ground (arith, few, unique, spared, on), count-disable_le w target_id db.users)
          | inr off ↦
              rw (count-disable_again w target_id db.users r.target r.found off unique)
                (some_one, omega arith)
        ])

  -- If the removal of a member commits, then the vault has a member afterwards who is not disabled,
  -- where the id is of one row at most and the vault had such a member before.
  pub remove_member_leaves_one :
      remove_member_tx v target_id db ≡ ran (tt, after)
      → count (is_user target_id) db.users ≤ 1
      → 1 ≤ count_active_users v db
      → 1 ≤ count_active_users v after
  remove_member_leaves_one h unique some_one = (remove_member_tx-bounds v h unique some_one).0
