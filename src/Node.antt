-- ===== src/Node.antt =====
-- What the components of a process share: the database and the file system.
use bbdb.Base.{◌≡◌, sym, ap, Result, ok, err, arith}
use bbdb.Base.State.{St}
use bbdb.Files.{Fs}

pub record Node (Db : Type 0) : Type 0 where
  pub db : Db
  pub fs : Fs

abbrev with_db : {Db A : Type 0} → Node Db → Result A × Db → Result A × Node Db
with_db n (r, db) = (r, record n { db = db })

abbrev with_fs : {Db A : Type 0} → Node Db → Result A × Fs → Result A × Node Db
with_fs n (r, fs) = (r, record n { fs = fs })

abbrev pub on_db : {Db A : Type 0} → St Db A → St (Node Db) A
on_db m n = with_db n (m n.db)

abbrev pub on_fs : {Db A : Type 0} → St Fs A → St (Node Db) A
on_fs m n = with_fs n (m n.fs)

module _ {Db A : Type 0} (n n' : Node Db) (a : A) where
  with_fs-ok : (p : Result A × Fs) → with_fs n p ≡ (ok a, n') → (p ≡ (ok a, n'.fs)) × (n'.db ≡ n.db)
  with_fs-ok (err e, fs) h = absurd (ground (arith, h))
  with_fs-ok (ok b, fs) h = (ground (arith, h), ap (λ x. x.1.db) (sym h))

  with_db-ok : (p : Result A × Db) → with_db n p ≡ (ok a, n') → (p ≡ (ok a, n'.db)) × (n'.fs ≡ n.fs)
  with_db-ok (err e, db) h = absurd (ground (arith, h))
  with_db-ok (ok b, db) h = (ground (arith, h), ap (λ x. x.1.fs) (sym h))

  -- A step on the files that succeeds is that step, and leaves the database.
  pub on_fs-ok : (m : St Fs A) → on_fs m n ≡ (ok a, n') → (m n.fs ≡ (ok a, n'.fs)) × (n'.db ≡ n.db)
  on_fs-ok m h = with_fs-ok (m n.fs) h

  -- A step on the database that succeeds is that step, and leaves the files.
  pub on_db-ok : (m : St Db A) → on_db m n ≡ (ok a, n') → (m n.db ≡ (ok a, n'.db)) × (n'.fs ≡ n.fs)
  on_db-ok m h = with_db-ok (m n.db) h
