-- ===== src/System/Staffed.antt =====
-- The vault and its members, in every state of the server.
use familycards.Prelude.{
  ℕ, ◌≤◌, leb, String, ◌==◌, ◌≡◌, refl, sym, subst, ap, ◌∙◌, inl, inr, true, false, Option, none,
  some, List, [], ◌∷◌, arith, ==→≡, eq_refl, Bool-cases,
}
use familycards.Prelude.Table.{
  find, exists, count, when, Option-map, find-update, count-update, count-append,
}
use familycards.Prelude.Unique.{count_miss}
use familycards.Store.Tx.{ran}
use familycards.Store.{Vault, User, DeviceInput, Invite, Db}
use familycards.Sync.Repository.{is_vault, bump}
use familycards.Auth.Repository.{
  Draw, BootstrapParams, is_active_in, is_user, is_retired, retire_refresh_hash, get_vault,
  count_active_users, create_device, set_user_disabled, revoke_all_user_devices,
  update_user_password_and_wrap,
}
use familycards.Auth.Inserts.{create_device-ok}
use familycards.Auth.Account.{NewWrap, set_wrap}
use familycards.Auth.Bootstrap.{bootstrap_tx}
use familycards.Auth.Bootstrap.Once.{first_vault, first_user, bootstrap_tx-rows}
use familycards.Membership.Redeem.{NewMember, NewIds, redeem_tx}
use familycards.Membership.Redeem.Once.{count-one, redeem_tx-Redeemed}
use familycards.Membership.Members.{remove_member_tx}
use familycards.Membership.Members.Removal.{remove_member_tx-Removed, remove_member_tx-bounds}
use familycards.Membership.Invites.{create_invite_tx}
use familycards.Membership.Invites.Quota.{create_invite_tx-room}
use familycards.Blobs.Handlers.{Server}
use familycards.System.{Setup, Reach}
use familycards.System.Kept.{IsKept}
use familycards.System.Keyed.{IsKeyed, IsKeyed-IsKept, empty_db-IsKeyed}
use familycards.System.Apart.{IsApart, pushed_keeps, Reach_keeps}

-- There is one vault at most, and it has at least one active member and no more than it may have.
pub record Staffed (vaults : List Vault) (users : List User) : Type 0 where
  pub one_vault : count (λ v. true) vaults ≤ 1
  pub members :
      (id : String) (v : Vault)
      → find (is_vault id) vaults ≡ some v
      → (1 ≤ count (is_active_in id) users) × (count (is_active_in id) users ≤ v.max_users)

abbrev pub IsStaffed : Db → Type 0
IsStaffed db = Staffed db.vaults db.users

bumped-of :
    (v : String) (o : Option Vault) (after : Vault)
    → Option-map (when (is_vault v) bump) o ≡ some after
    → (before : Vault) × (o ≡ some before) × (before.max_users ≡ after.max_users)
bumped-of v none after h = cc
bumped-of v (some x) after h = (x, refl, ground (arith, h))

IsStaffed-IsApart : IsApart IsStaffed
IsStaffed-IsApart = record {
  content = λ items blobs db k. k;
  bumped = λ v db k. record {
    one_vault =
        omega
          (arith, k.one_vault, count-update (λ x. true) (is_vault v) bump db.vaults (λ x. refl));
    members = λ id after h.
        let found = sym (find-update (is_vault id) (is_vault v) bump db.vaults (λ x. refl)) ∙ h in
        let (before, there, same) = bumped-of v _ after found in
        subst (λ n. (1 ≤ count (is_active_in id) db.users) × (count (is_active_in id) db.users ≤ n))
          same (k.members id before there);
  };
}

redeemed_keeps :
    (draw : Draw) (code_hash hash : String) (m : NewMember) (ids : NewIds) (db after : Db)
    → IsStaffed db
    → redeem_tx draw code_hash m hash db ≡ ran (ids, after)
    → IsStaffed after
unfolding get_vault count_active_users
redeemed_keeps draw code_hash hash m ids db after k h =
    let r = redeem_tx-Redeemed draw code_hash hash m ids db after h in
    subst IsStaffed (sym r.written) (record {
      one_vault = k.one_vault;
      members = λ id v there.
          let more = count-append (is_active_in id) db.users (r.new_user ∷ []) in
          let few = count-one (is_active_in id) r.new_user in
          let before = k.members id v there in
          (
            omega (arith, before, more),
            elim (Bool-cases (r.new_user.vault_id == id)) [
              | inl hit ↦
                  let same : r.inv.vault_id ≡ id = sym r.of_vault ∙ ==→≡ _ id hit in
                  let found : find (is_vault id) db.vaults ≡ some r.admitted.vault =
                    subst (λ x. find (is_vault x) db.vaults ≡ some r.admitted.vault) same
                      r.admitted.found_vault in
                  let room : leb v.max_users (count (is_active_in id) db.users) ≡ false =
                    ground (arith, r.admitted.room, same, found, there) in
                  ground (arith, room, more, few)
              | inr miss ↦
                  let none_new = count_miss (is_active_in id) r.new_user (rw miss refl) in
                  omega (arith, before, more, none_new)
            ],
          );
    })

removed_keeps :
    (v target_id : String) (db after : Db)
    → IsKeyed db
    → IsStaffed db
    → remove_member_tx v target_id db ≡ ran (tt, after)
    → IsStaffed after
unfolding count_active_users set_user_disabled revoke_all_user_devices
removed_keeps v target_id db after keyed k h =
    let r = remove_member_tx-Removed v target_id db after h in
    let vaults : after.vaults ≡ db.vaults = ap (λ (d : Db). d.vaults) r.written in
    record {
      one_vault = rw vaults k.one_vault;
      members = λ id x there.
          let before = k.members id x (rw vaults at there) in
          let now =
            remove_member_tx-bounds v target_id db after id h (keyed.user_ids target_id) before.0 in
          (now.0, omega (arith, now.1, before.1));
    }

-- Without users there is no vault.
no_vaults :
    (vaults : List Vault) (users : List User) → Staffed vaults users → users ≡ [] → vaults ≡ []
unfolding find count
no_vaults [] users k e = refl
no_vaults (v ∷ vaults) users k e =
    let there : find (is_vault v.id) (v ∷ vaults) ≡ some v = rw (eq_refl v.id) refl in
    let some_one = (k.members v.id v there).0 in
    let none_here : count (is_active_in v.id) users ≡ 0 = rw e refl in
    absurd (omega (arith, some_one, none_here))

first-Staffed :
    (draw : Draw) (b : BootstrapParams) → Staffed (first_vault draw ∷ []) (first_user draw b ∷ [])
unfolding find count
first-Staffed draw b = record {
  one_vault = omega arith;
  members = λ id v there. elim (Bool-cases (draw.vault_id == id)) [
    | inl hit ↦ ground (arith, hit, there)
    | inr miss ↦ ground (arith, miss, there)
  ];
}

bootstrapped_keeps :
    (draw : Draw) (b : BootstrapParams) (ids : String × String × String) (db after : Db)
    → IsStaffed db
    → bootstrap_tx draw b db ≡ ran (ids, after)
    → IsStaffed after
bootstrapped_keeps draw b ids db after k h =
    let (no_users, vaults, users) = bootstrap_tx-rows draw b ids db after h in
    rw (vaults, users, no_vaults db.vaults db.users k no_users) (first-Staffed draw b)

device_added :
    (draw : Draw) (user_id hash id : String) (input : DeviceInput) (db after : Db)
    → IsStaffed db
    → create_device draw user_id input hash db ≡ ran (id, after)
    → IsStaffed after
device_added draw user_id hash id input db after k h =
    subst IsStaffed (sym (create_device-ok draw user_id hash id input db after h).1) k

invited :
    (now : ℕ) (i : Invite) (t : Unit {0}) (db after : Db)
    → IsStaffed db
    → create_invite_tx now i db ≡ ran (t, after)
    → IsStaffed after
invited now i t db after k h =
    let (vault, there, room, written) = create_invite_tx-room now i db after h in
    subst IsStaffed (sym written) k

hash_retired :
    (now : ℕ) (user_id hash : String) (db : Db)
    → IsStaffed db
    → IsStaffed (retire_refresh_hash now user_id hash db)
unfolding retire_refresh_hash
hash_retired now user_id hash db k = elim (Bool-cases (exists (is_retired hash) db.retired)) [
  | inl there ↦ rw there k
  | inr absent ↦ rw absent k
]

abbrev rewrap : NewWrap → User → User
rewrap w u = record u {
  password_hash = w.password_hash;
  kdf_salt = w.kdf_salt;
  kdf_params = w.kdf_params;
  wrapped_vault_key = w.wrapped_vault_key;
  wrap_nonce = w.wrap_nonce;
}

rewrapped : (w : NewWrap) (db : Db) → IsStaffed db → IsStaffed (set_wrap w db)
unfolding update_user_password_and_wrap
rewrapped w db k = record {
  one_vault = k.one_vault;
  members = λ id v there.
      rw (count-update (is_active_in id) (is_user w.user_id) (rewrap w) db.users (λ u. refl))
        (k.members id v there);
}

-- The ids are needed for the removal of a member.
abbrev IsManned : Db → Type 0
IsManned db = IsKeyed db × IsStaffed db

IsManned-IsApart : IsApart IsManned
IsManned-IsApart = record {
  content = λ items blobs db k. k;
  bumped = λ v db k. (k.0, IsStaffed-IsApart.bumped v db k.1);
}

IsManned-IsKept : IsKept IsManned
IsManned-IsKept = record {
  device_added = λ draw user_id hash id input db after k h. (
    IsKeyed-IsKept.device_added draw user_id hash id input db after k.0 h,
    device_added draw user_id hash id input db after k.1 h,
  );
  devices_updated = λ p f db in_place k. (IsKeyed-IsKept.devices_updated p f db in_place k.0, k.1);
  rewrapped = λ w db k. (IsKeyed-IsKept.rewrapped w db k.0, rewrapped w db k.1);
  hash_retired = λ now user_id hash db k.
      (IsKeyed-IsKept.hash_retired now user_id hash db k.0, hash_retired now user_id hash db k.1);
  invited = λ now i t db after k h.
      (IsKeyed-IsKept.invited now i t db after k.0 h, invited now i t db after k.1 h);
  uninvited = λ code_hash v db k. (IsKeyed-IsKept.uninvited code_hash v db k.0, k.1);
  redeemed = λ draw code_hash hash m ids db after k h. (
    IsKeyed-IsKept.redeemed draw code_hash hash m ids db after k.0 h,
    redeemed_keeps draw code_hash hash m ids db after k.1 h,
  );
  removed = λ v target_id db after k h. (
    IsKeyed-IsKept.removed v target_id db after k.0 h,
    removed_keeps v target_id db after k.0 k.1 h,
  );
  bootstrapped = λ draw b ids db after k h. (
    IsKeyed-IsKept.bootstrapped draw b ids db after k.0 h,
    bootstrapped_keeps draw b ids db after k.1 h,
  );
  pushed = pushed_keeps IsManned-IsApart;
}

-- In every state that the server gets to from an empty data directory, by whatever requests and
-- timers one after another in whatever order: there is one vault at most, at least one user of it is not disabled, and
-- the users of it who are not disabled are no more than the vault may have.
pub Reach-IsStaffed : (setup : Setup) (s : Server) → Reach setup s → IsStaffed s.db
unfolding find count
Reach-IsStaffed setup s reach =
    (Reach_keeps IsManned-IsApart setup IsManned-IsKept
      (empty_db-IsKeyed, record { one_vault = omega arith; members = λ id v there. cc }) reach).1
