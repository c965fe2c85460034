-- ===== src/Prelude/Transaction.antt =====
-- Transactions as gorm's `DB.Transaction` runs them: a body whose error, or the failure of the commit,
-- rolls everything back.
use go_fdo_server.Prelude.{◌≡◌, refl, Bytes, Result, ok, err}
use go_fdo_server.Prelude.Action.{Action}
use go_fdo_server.Prelude.Table.{DbError, Table}

-- `rollback before now` is the state after a transaction that began in `before` is given up.
pub record Transactions (S : Type 0) : Type 0 where
  pub commit : Action S DbError (Unit {0})
  pub rollback : S → S → S

-- A commit and a rollback treat a table as they should.
pub record Transacts {S R : Type 0} (x : Transactions S) (t : Table S R) : Type 0 where
  pub rows_after_commit : (s : S) (k : Bytes) → t.rows (x.commit s).1 k ≡ t.rows s k
  pub rows_after_rollback :
      (before now : S) (k : Bytes) → t.rows (x.rollback before now) k ≡ t.rows before k

module _ {S E : Type 0} (x : Transactions S) (failed_commit : DbError → E) where
  -- The end of a transaction whose body has succeeded.
  unfoldable pub commit_with : {A : Type 0} → S → A → Result DbError (Unit {0}) × S → Result E A × S
  commit_with before a (ok u, now) = (ok a, now)
  commit_with before a (err e, now) = (err (failed_commit e), x.rollback before now)

  unfoldable pub finish : {A : Type 0} → S → Result E A × S → Result E A × S
  finish before (err e, now) = (err e, x.rollback before now)
  finish before (ok a, now) = commit_with before a (x.commit now)

  unfoldable pub transaction : {A : Type 0} → Action S E A → Action S E A
  transaction body s = finish s (body s)

  module _ {R : Type 0} (t : Table S R) (k : Transacts x t) where
    commit_with-Undone :
        {A : Type 0} (before : S) (a : A) (r : Result DbError (Unit {0})) (now : S) {e : E}
        (j : Bytes)
        → (commit_with before a (r, now)).0 ≡ err e
        → t.rows (commit_with before a (r, now)).1 j ≡ t.rows before j
    unfolding commit_with
    commit_with-Undone before a (ok u) now j h = cc h
    commit_with-Undone before a (err e) now j h = k.rows_after_rollback before now j

    finish-Undone :
        {A : Type 0} (before : S) (r : Result E A) (now : S) {e : E} (j : Bytes)
        → (finish before (r, now)).0 ≡ err e
        → t.rows (finish before (r, now)).1 j ≡ t.rows before j
    unfolding finish
    finish-Undone before (err x') now j h = k.rows_after_rollback before now j
    finish-Undone before (ok a) now j h =
        commit_with-Undone before a (x.commit now).0 (x.commit now).1 j h

    -- A transaction that fails leaves the rows that it found.
    pub transaction-Undone :
        {A : Type 0} (body : Action S E A) (s : S) {e : E} (j : Bytes)
        → (transaction body s).0 ≡ err e
        → t.rows (transaction body s).1 j ≡ t.rows s j
    unfolding transaction
    transaction-Undone body s j h = finish-Undone s (body s).0 (body s).1 j h

    commit_with-Done :
        {A : Type 0} (before : S) (a : A) (r : Result DbError (Unit {0})) (now : S) {b : A}
        → (commit_with before a (r, now)).0 ≡ ok b
        → (a ≡ b) × ((commit_with before a (r, now)).1 ≡ now)
    unfolding commit_with
    commit_with-Done before a (ok u) now h = (cc h, refl)
    commit_with-Done before a (err e) now h = cc h

    finish-Done :
        {A : Type 0} (before : S) (r : Result E A) (now : S) {b : A} (j : Bytes)
        → (finish before (r, now)).0 ≡ ok b
        → (r ≡ ok b) × (t.rows (finish before (r, now)).1 j ≡ t.rows now j)
    unfolding finish
    finish-Done before (err x') now j h = cc h
    finish-Done before (ok a) now j h =
        let (same, state) = commit_with-Done before a (x.commit now).0 (x.commit now).1 h in
        (rw same, rw state (k.rows_after_commit now j))

    -- A transaction that succeeds has done what its body does.
    pub transaction-Done :
        {A : Type 0} (body : Action S E A) (s : S) {b : A} (j : Bytes)
        → (transaction body s).0 ≡ ok b
        → ((body s).0 ≡ ok b) × (t.rows (transaction body s).1 j ≡ t.rows (body s).1 j)
    unfolding transaction
    transaction-Done body s j h = finish-Done s (body s).0 (body s).1 j h
