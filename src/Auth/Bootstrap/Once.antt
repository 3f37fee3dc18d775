-- ===== src/Auth/Bootstrap/Once.antt =====
-- A second `Bootstrap` of server/internal/auth/handlers.go.
use familycards.Prelude.{
  ltb, String, ◌≡◌, ◌∙◌, refl, sym, ap, true, false, List, [], ◌∷◌, ◌++◌, arith,
}
use familycards.Prelude.Table.{count, count-append}
use familycards.Http.{conflict}
use familycards.Store.{Vault, User, Db}
use familycards.Store.Tx.{ran, aborted, pure, fail_if_passed, bind_passed, ran-inj}
use familycards.Auth.Repository.{
  Draw, BootstrapParams, count_users, bootstrap, insert_vault, insert_user, insert_device,
  insert_recovery_key,
}
use familycards.Auth.Inserts.{
  insert_vault-ok, insert_user-ok, insert_device-ok, insert_recovery_key-ok,
}
use familycards.Auth.Bootstrap.{bootstrap_tx}

-- The rows that a bootstrap adds.
abbrev pub first_vault : Draw → Vault
first_vault draw = record { id = draw.vault_id; created_at = draw.now; last_rev = 0; max_users = 5 }

abbrev pub first_user : Draw → BootstrapParams → User
first_user draw p = record {
  id = draw.user_id;
  vault_id = draw.vault_id;
  login = p.login;
  display_name = p.display_name;
  password_hash = p.password_hash;
  kdf_salt = p.kdf_salt;
  kdf_params = p.kdf_params;
  wrapped_vault_key = p.wrapped_vault_key;
  wrap_nonce = p.wrap_nonce;
  created_at = draw.now;
  disabled = false;
}

count-any : (us : List User) (u : User) → ltb 0 (count (λ u. true) (us ++ u ∷ [])) ≡ true
unfolding count
count-any us u = ground (arith, count-append (λ (w : User). true) us (u ∷ []))

bootstrap_rows :
    (draw : Draw) (p : BootstrapParams) (ids : String × String × String) (db after : Db)
    → bootstrap draw p db ≡ ran (ids, after)
    → (after.vaults ≡ db.vaults ++ first_vault draw ∷ [])
      × (after.users ≡ db.users ++ first_user draw p ∷ [])
unfolding bootstrap
bootstrap_rows draw p ids db after h =
    let (t1, db1, h1, k1) = bind_passed (insert_vault _ db) _ _ h in
    let (t2, db2, h2, k2) = bind_passed (insert_user _ db1) _ _ k1 in
    let (t3, db3, h3, k3) = bind_passed (insert_device _ db2) _ _ k2 in
    let (t4, db4, h4, k4) = bind_passed (insert_recovery_key _ db3) (λ t. pure _) _ k3 in
    let e1 = insert_vault-ok _ t1 db db1 h1 in
    let e2 = (insert_user-ok _ t2 db1 db2 h2).written in
    let e3 = (insert_device-ok _ t3 db2 db3 h3).written in
    let e4 = (insert_recovery_key-ok _ t4 db3 db4 h4).1 in
    let e = sym (ran-inj _ ids db4 after k4).1 in
    let vaults = λ (d : Db). d.vaults in
    let users = λ (d : Db). d.users in
    (
      ap vaults e ∙ ap vaults e4 ∙ ap vaults e3 ∙ ap vaults e2 ∙ ap vaults e1,
      ap users e
          ∙ ap users e4
          ∙ ap users e3
          ∙ ap users e2
          ∙ ap (λ (d : Db). d.users ++ first_user draw p ∷ []) e1,
    )

count_none-nil : (us : List User) → ltb 0 (count (λ u. true) us) ≡ false → us ≡ []
unfolding count
count_none-nil [] h = refl
count_none-nil (u ∷ us) h = ground (arith, h)

-- It runs in a database without users only.
pub bootstrap_tx-rows :
    (draw : Draw) (p : BootstrapParams) (ids : String × String × String) (db after : Db)
    → bootstrap_tx draw p db ≡ ran (ids, after)
    → (db.users ≡ [])
      × (after.vaults ≡ db.vaults ++ first_vault draw ∷ [])
      × (after.users ≡ first_user draw p ∷ [])
unfolding bootstrap_tx count_users
bootstrap_tx-rows draw p ids db after h =
    let (empty, made) = fail_if_passed (ltb 0 (count_users db)) _ (bootstrap draw p) db _ h in
    let (vaults, users) = bootstrap_rows draw p ids db after made in
    let no_users = count_none-nil db.users empty in
    (no_users, vaults, users ∙ ap (λ us. us ++ first_user draw p ∷ []) no_users)

-- When the transaction of a bootstrap has committed, another one in the database that it left stops
-- with "server already bootstrapped" before it has written anything.
pub bootstrap_tx_once :
    (draw later : Draw) (p q : BootstrapParams) (ids : String × String × String) (db after : Db)
    → bootstrap_tx draw p db ≡ ran (ids, after)
    → bootstrap_tx later q after ≡ aborted (conflict "server already bootstrapped", after)
unfolding bootstrap_tx count_users
bootstrap_tx_once draw later p q ids db after h =
    let (empty, made) = fail_if_passed (ltb 0 (count_users db)) _ (bootstrap draw p) db _ h in
    let (vaults, users) = bootstrap_rows draw p ids db after made in
    rw (users, count-any db.users (first_user draw p)) refl
