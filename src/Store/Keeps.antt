-- ===== src/Store/Keeps.antt =====
-- What holds after a transaction, whether it commits or rolls back.
use familycards.Prelude.{◌≡◌, refl}
use familycards.Store.Rows.{Db}
use familycards.Store.Tx.{Ran, ran, aborted, Tx, commit, with_immediate_tx}

commit_keeps :
    {A : Type 0} (P : Db → Type 0) (db : Db) (r : Ran A)
    → P db
    → ((a : A) (after : Db) → r ≡ ran (a, after) → P after)
    → P (commit db r).1
commit_keeps P db (ran (a, after)) p k = k a after refl
commit_keeps P db (aborted e) p k = p

pub with_immediate_tx_keeps :
    {A : Type 0} (P : Db → Type 0) (m : Tx A) (db : Db)
    → P db
    → ((a : A) (after : Db) → m db ≡ ran (a, after) → P after)
    → P (with_immediate_tx m db).1
unfolding with_immediate_tx
with_immediate_tx_keeps P m db p k = commit_keeps P db (m db) p k
