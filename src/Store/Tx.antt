-- ===== src/Store/Tx.antt =====
-- Transactions: `storage.WithImmediateTx` of server/internal/storage/storage.go. A step of a
-- transaction returns its value with the new database, or an error; the write pool has one
-- connection, so a transaction runs alone. A statement that fails leaves what was written before it
-- in the transaction, and it is the rollback that undoes this. A failing BEGIN, COMMIT or ROLLBACK is
-- not modelled.
use familycards.Prelude.{◌≡◌, refl, Bool, true, false, Option, none, some}
use familycards.Http.{Error, Result, ok, err}
use familycards.Store.Rows.{Db}

-- What has been run of a transaction: it went through with a value, or it stopped with an error; in
-- both cases with the database as it was written so far.
pub data Ran {ℓ} (A : Type ℓ) : Type ℓ where
  ran : A × Db → Ran A
  aborted : Error × Db → Ran A

abbrev pub Tx {ℓ} : Type ℓ → Type ℓ
Tx A = Db → Ran A

abbrev pub bind_result {ℓ κ} : {A : Type ℓ} {B : Type κ} → Ran A → (A → Tx B) → Ran B
bind_result (ran (a, db)) f = f a db
bind_result (aborted (e, db)) f = aborted (e, db)

infixl 5 ◌>>=◌ ◌>>◌
abbrev pub ◌>>=◌ {ℓ κ} : {A : Type ℓ} {B : Type κ} → Tx A → (A → Tx B) → Tx B
◌>>=◌ m f db = bind_result (m db) f

abbrev pub ◌>>◌ {ℓ} : {B : Type ℓ} → Tx (Unit {0}) → Tx B → Tx B
m >> k = m >>= λ _. k

abbrev pub pure {ℓ} : {A : Type ℓ} → A → Tx A
pure a db = ran (a, db)

abbrev pub throw {ℓ} : {A : Type ℓ} → Error → Tx A
throw e db = aborted (e, db)

-- A query.
abbrev pub reads {ℓ} : {A : Type ℓ} → (Db → A) → Tx A
reads f db = ran (f db, db)

-- A statement that writes.
abbrev pub writes : (Db → Db) → Tx (Unit {0})
writes f db = ran (tt, f db)

-- Stops the transaction with an error when the test holds.
abbrev pub fail_if : Bool → Error → Tx (Unit {0})
fail_if true e db = aborted (e, db)
fail_if false e db = ran (tt, db)

abbrev pub or_fail {ℓ} : {A : Type ℓ} → Error → Option A → Tx A
or_fail e none = throw e
or_fail e (some a) = pure a

abbrev pub commit : {A : Type 0} → Db → Ran A → Result A × Db
commit before (ran (a, after)) = (ok a, after)
commit before (aborted (e, left)) = (err e, before)

-- Commits what `fn` did, or rolls back to the database before it.
unfoldable pub with_immediate_tx : {A : Type 0} → Tx A → Db → Result A × Db
with_immediate_tx fn db = commit db (fn db)

-- What is known where a transaction commits: the test did not stop it, and the row was there.
module _ {ℓ} {B : Type ℓ} where
  pub fail_if_passed :
      (b : Bool) (e : Error) (k : Tx B) (db : Db) (out : B × Db)
      → (fail_if b e >> k) db ≡ ran out
      → (b ≡ false) × (k db ≡ ran out)
  fail_if_passed true e k db out h = cc
  fail_if_passed false e k db out h = (refl, h)

  pub or_fail_passed {κ} :
      {A : Type κ} (e : Error) (o : Option A) (k : A → Tx B) (db : Db) (out : B × Db)
      → (or_fail e o >>= k) db ≡ ran out
      → (a : A) × (o ≡ some a) × (k a db ≡ ran out)
  or_fail_passed e none k db out h = cc
  or_fail_passed e (some a) k db out h = (a, refl, h)

  pub bind_passed {κ} :
      {A : Type κ} (r : Ran A) (k : A → Tx B) (out : B × Db)
      → bind_result r k ≡ ran out
      → (a : A) × (mid : Db) × (r ≡ ran (a, mid)) × (k a mid ≡ ran out)
  bind_passed (ran (a, mid)) k out h = (a, mid, refl, h)
  bind_passed (aborted e) k out h = cc

-- The value and the database of a step are determined.
pub ran-inj {ℓ} :
    {B : Type ℓ} (a b : B) (x y : Db) → Path (Ran B) (ran (a, x)) (ran (b, y)) → (a ≡ b) × (x ≡ y)
ran-inj a b x y e = (cc, cc)
