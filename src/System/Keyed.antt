-- ===== src/System/Keyed.antt =====
-- The UNIQUE columns and the primary keys of the accounts, which every step of the server keeps.
use familycards.Prelude.{
  ℕ, nat_beq, String, ◌==◌, ◌≡◌, refl, sym, subst, ap, inl, inr, true, List, arith, ==→≡,
  Bool-cases,
}
use familycards.Prelude.Table.{count, exists}
use familycards.Prelude.Unique.{Unique, Unique-insert, Unique-update, Unique-delete}
use familycards.Store.Tx.{ran}
use familycards.Store.{User, Device, Invite, RecoveryKey, RetiredToken, Db, empty_db}
use familycards.Auth.Repository.{
  login_eq, has_login, is_user, is_device, is_key_of, is_retired, insert_user, insert_device,
  insert_recovery_key, retire_refresh_hash,
}
use familycards.Auth.Inserts.{
  insert_vault-ok, insert_user-ok, insert_device-ok, insert_recovery_key-ok,
}
use familycards.Membership.Repository.{has_code, use_at, create_invite_row}
use familycards.Membership.Invites.Quota.{create_invite_row-ok}
use familycards.System.Kept.{IsKept}
use familycards.System.Stepwise.{IsStepwise, IsStepwise-IsKept}
use familycards.System.Apart.{IsApart, pushed_keeps}

nat_beq-same : (a b c : ℕ) → nat_beq a b ≡ true → nat_beq c b ≡ nat_beq c a
nat_beq-same a b c h = ground (arith, h)

-- Logins that are equal up to the case of ASCII letters are interchangeable.
login_eq-same : (s t r : String) → login_eq s t ≡ true → login_eq r t ≡ login_eq r s
unfolding login_eq
login_eq-same String.[] String.[] r h = refl
login_eq-same String.[] (String.◌∷◌ d t) r h = cc
login_eq-same (String.◌∷◌ c s) String.[] r h = cc
login_eq-same (String.◌∷◌ c s) (String.◌∷◌ d t) String.[] h = refl
login_eq-same (String.◌∷◌ c s) (String.◌∷◌ d t) (String.◌∷◌ e r) h =
    ground (arith, login_eq-same s t r)

==-same : (s t r : String) → (s == t) ≡ true → (r == t) ≡ (r == s)
==-same s t r h = ap (λ x. r == x) (sym (==→≡ s t h))

-- No two rows of a table have the same key, where logins are compared without case.
pub record Keyed (users : List User) (devices : List Device) (invites : List Invite)
    (keys : List RecoveryKey) (retired : List RetiredToken) : Type 0 where
  pub user_ids : Unique is_user users
  pub logins : Unique has_login users
  pub device_ids : Unique is_device devices
  pub codes : Unique has_code invites
  pub recovery : Unique is_key_of keys
  pub hashes : Unique is_retired retired

abbrev pub IsKeyed : Db → Type 0
IsKeyed db = Keyed db.users db.devices db.invites db.recovery_keys db.retired

pub IsKeyed-IsApart : IsApart IsKeyed
IsKeyed-IsApart = record { content = λ items blobs db k. k; bumped = λ v db k. k }

with_users :
    (us : List User) (db : Db)
    → IsKeyed db
    → Unique is_user us
    → Unique has_login us
    → IsKeyed (record db { users = us })
with_users us db k h_user_ids h_logins = record {
  user_ids = h_user_ids;
  logins = h_logins;
  device_ids = k.device_ids;
  codes = k.codes;
  recovery = k.recovery;
  hashes = k.hashes;
}

with_devices :
    (ds : List Device) (db : Db)
    → IsKeyed db
    → Unique is_device ds
    → IsKeyed (record db { devices = ds })
with_devices ds db k h_device_ids = record {
  user_ids = k.user_ids;
  logins = k.logins;
  device_ids = h_device_ids;
  codes = k.codes;
  recovery = k.recovery;
  hashes = k.hashes;
}

with_invites :
    (is : List Invite) (db : Db)
    → IsKeyed db
    → Unique has_code is
    → IsKeyed (record db { invites = is })
with_invites is db k h_codes = record {
  user_ids = k.user_ids;
  logins = k.logins;
  device_ids = k.device_ids;
  codes = h_codes;
  recovery = k.recovery;
  hashes = k.hashes;
}

with_keys :
    (ks : List RecoveryKey) (db : Db)
    → IsKeyed db
    → Unique is_key_of ks
    → IsKeyed (record db { recovery_keys = ks })
with_keys ks db k h_recovery = record {
  user_ids = k.user_ids;
  logins = k.logins;
  device_ids = k.device_ids;
  codes = k.codes;
  recovery = h_recovery;
  hashes = k.hashes;
}

with_retired :
    (ts : List RetiredToken) (db : Db)
    → IsKeyed db
    → Unique is_retired ts
    → IsKeyed (record db { retired = ts })
with_retired ts db k h_hashes = record {
  user_ids = k.user_ids;
  logins = k.logins;
  device_ids = k.device_ids;
  codes = k.codes;
  recovery = k.recovery;
  hashes = h_hashes;
}

user_inserted :
    (u : User) (t : Unit {0}) (db after : Db)
    → IsKeyed db
    → insert_user u db ≡ ran (t, after)
    → IsKeyed after
user_inserted u t db after k h =
    let a = insert_user-ok u t db after h in
    subst IsKeyed (sym a.written) (
      with_users _ db k
        (Unique-insert is_user u.id u db.users (λ id e y. ==-same u.id id y.id e) a.new_id
          k.user_ids)
        (Unique-insert has_login u.login u db.users
          (λ login e y. login_eq-same u.login login y.login e) a.new_login k.logins))

device_inserted :
    (d : Device) (t : Unit {0}) (db after : Db)
    → IsKeyed db
    → insert_device d db ≡ ran (t, after)
    → IsKeyed after
device_inserted d t db after k h =
    let a = insert_device-ok d t db after h in
    subst IsKeyed (sym a.written) (
      with_devices _ db k (
        Unique-insert is_device d.id d db.devices (λ id e y. ==-same d.id id y.id e) a.new_id
          k.device_ids))

recovery_key_inserted :
    (r : RecoveryKey) (t : Unit {0}) (db after : Db)
    → IsKeyed db
    → insert_recovery_key r db ≡ ran (t, after)
    → IsKeyed after
recovery_key_inserted r t db after k h =
    let (fresh, written) = insert_recovery_key-ok r t db after h in
    subst IsKeyed (sym written) (
      with_keys _ db k (
        Unique-insert is_key_of r.vault_id r db.recovery_keys
          (λ id e y. ==-same r.vault_id id y.vault_id e) fresh k.recovery))

invite_inserted :
    (i : Invite) (t : Unit {0}) (db after : Db)
    → IsKeyed db
    → create_invite_row i db ≡ ran (t, after)
    → IsKeyed after
invite_inserted i t db after k h =
    let (fresh, written) = create_invite_row-ok i t db after h in
    subst IsKeyed (sym written) (
      with_invites _ db k (
        Unique-insert has_code i.code_hash i db.invites
          (λ code e y. ==-same i.code_hash code y.code_hash e) fresh k.codes))

hash_retired :
    (now : ℕ) (user_id hash : String) (db : Db)
    → IsKeyed db
    → IsKeyed (retire_refresh_hash now user_id hash db)
unfolding retire_refresh_hash
hash_retired now user_id hash db k = elim (Bool-cases (exists (is_retired hash) db.retired)) [
  | inl there ↦ rw there k
  | inr absent ↦ rw absent (
      with_retired _ db k (
        Unique-insert is_retired hash _ db.retired (λ id e y. ==-same hash id y.hash e) absent
          k.hashes))
]

IsKeyed-IsStepwise : IsStepwise IsKeyed
IsKeyed-IsStepwise = record {
  vault_inserted = λ v t db after k h. subst IsKeyed (sym (insert_vault-ok v t db after h)) k;
  user_inserted = user_inserted;
  device_inserted = device_inserted;
  recovery_key_inserted = recovery_key_inserted;
  invite_inserted = invite_inserted;
  users_updated = λ p f db in_place k.
      with_users _ db k
        (Unique-update is_user p f db.users (λ id u. ap (λ x. x == id) (in_place.same_id u))
          k.user_ids)
        (Unique-update has_login p f db.users
          (λ login u. ap (λ x. login_eq x login) (in_place.same_login u)) k.logins);
  devices_updated = λ p f db in_place k. with_devices _ db k (
      Unique-update is_device p f db.devices (λ id d. ap (λ x. x == id) (in_place.same_id d))
        k.device_ids);
  invites_used = λ p now db k.
      with_invites _ db k
        (Unique-update has_code p (use_at now) db.invites (λ code i. refl) k.codes);
  invites_deleted = λ p db k. with_invites _ db k (Unique-delete has_code p db.invites k.codes);
  hash_retired = hash_retired;
  pushed = pushed_keeps IsKeyed-IsApart;
}

pub IsKeyed-IsKept : IsKept IsKeyed
IsKeyed-IsKept = IsStepwise-IsKept IsKeyed-IsStepwise

pub empty_db-IsKeyed : IsKeyed empty_db
unfolding count
empty_db-IsKeyed = record {
  user_ids = λ id. omega arith;
  logins = λ login. omega arith;
  device_ids = λ id. omega arith;
  codes = λ code. omega arith;
  recovery = λ id. omega arith;
  hashes = λ hash. omega arith;
}
