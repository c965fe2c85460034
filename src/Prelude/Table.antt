-- ===== src/Prelude/Table.antt =====
-- A database table as the code sees it through gorm: rows under byte-string keys, and calls that
-- may fail. The database and gorm are not part of this repository, so a table is a parameter, with
-- its documented behaviour as laws over the rows that it holds.
use mathlib.Core.Path.{◌≡◌, refl}
use mathlib.Core.Logic.{◌⊎◌, ◌↔◌, inl, inr}
use mathlib.Core.Bool.{Bool, true, false}
use mathlib.Core.Option.{Option, none, some}
use mathlib.Core.Option
use Prim.Native.Nat.{ℕ}
use go_fdo_server.Prelude.Tests.{if◌then◌else◌}
use go_fdo_server.Prelude.Slices.{Bytes, ◌=ᵇ◌}
use go_fdo_server.Prelude.Errors.{Result, ok, err}
use go_fdo_server.Prelude.Action.{Action}

-- gorm.ErrRecordNotFound, gorm.ErrDuplicatedKey, and what else a database reports.
pub data DbError : Type 0 where
  record_not_found duplicated_key : DbError
  failed : ℕ → DbError

abbrev pub HasFailed {ℓ} : {A : Type ℓ} → Result DbError A → Type ℓ
HasFailed r = (n : ℕ) × (r ≡ err (failed n))

-- What a query for a key may answer, by the row under the key.
abbrev pub Answers {ℓ} : {R : Type ℓ} → Option R → Result DbError R → Type ℓ
Answers (some r) a = (a ≡ ok r) ⊎ HasFailed a
Answers none a = (a ≡ err record_not_found) ⊎ HasFailed a

pub Answers-some {ℓ} :
    {R : Type ℓ} (o : Option R) (a : Result DbError R) {r : R} → Answers o a → a ≡ ok r → o ≡ some r
Answers-some (some x) a (inl e) good = cc (rw e at good)
Answers-some (some x) a (inr (n, e)) good = cc (rw e at good)
Answers-some none a (inl e) good = cc (rw e at good)
Answers-some none a (inr (n, e)) good = cc (rw e at good)

pub Answers-none {ℓ} :
    {R : Type ℓ} (o : Option R) (a : Result DbError R)
    → Answers o a
    → a ≡ err record_not_found
    → o ≡ none
Answers-none (some x) a (inl e) missing = cc (rw e at missing)
Answers-none (some x) a (inr (n, e)) missing = cc (rw e at missing)
Answers-none none a h missing = refl

abbrev pub succeeded {ℓ κ} : {E : Type ℓ} {A : Type κ} → Result E A → Bool
succeeded (ok a) = true
succeeded (err e) = false

-- A row that a `DELETE … WHERE` leaves.
abbrev pub unless {ℓ} : {R : Type ℓ} → (R → Bool) → Option R → Option R
unless gone none = none
unless gone (some r) = if gone r then none else some r

-- The row after `Assign(…).FirstOrCreate(&r)`: the old one with the columns assigned, or `r`.
abbrev pub assigned {ℓ} : {R : Type ℓ} → R → (R → R) → Option R → R
assigned r f none = r
assigned r f (some old) = f old

-- `S` is the state of the database, `R` the type of the rows.
pub record Table (S R : Type 0) : Type 0 where
  pub rows : S → Bytes → Option R
  -- `Where("key = ?", k).First(&r)`
  pub first : Bytes → Action S DbError R
  -- `Save(&r)`, `Create(&r)`
  pub save : Bytes → R → Action S DbError (Unit {0})
  pub create : Bytes → R → Action S DbError (Unit {0})
  -- `Where("key = ?", k).Delete(…)` and `Where("…").Delete(…)`, with `RowsAffected`
  pub delete : Bytes → Action S DbError ℕ
  pub delete_where : (R → Bool) → Action S DbError ℕ
  -- `Model(…).Where("key = ?", k).Updates(columns)`, with `RowsAffected`
  pub update : Bytes → (R → R) → Action S DbError ℕ
  -- `Where("key = ?", k).Assign(columns).FirstOrCreate(&r)`
  pub first_or_create : Bytes → R → (R → R) → Action S DbError (Unit {0})
  -- `Clauses(clause.OnConflict{DoNothing: true}).Create(&r)`, with `RowsAffected`
  pub create_or_ignore : Bytes → R → Action S DbError ℕ
  -- `Where("key = ?", k).Count(&n)`
  pub count : Bytes → Action S DbError ℕ
  pub count_law : (s : S) (k : Bytes) {n : ℕ} → (count k s).0 ≡ ok n → (n ≡ 0) ↔ (rows s k ≡ none)
  pub rows-count : (s : S) (k j : Bytes) → rows (count k s).1 j ≡ rows s j
  pub first_law : (s : S) (k : Bytes) → Answers (rows s k) (first k s).0
  pub rows-first : (s : S) (k j : Bytes) → rows (first k s).1 j ≡ rows s j
  pub rows-save :
      (s : S) (k : Bytes) (r : R) (j : Bytes)
      → rows (save k r s).1 j
        ≡ (if succeeded (save k r s).0 then (if k =ᵇ j then some r else rows s j) else rows s j)
  pub rows-create :
      (s : S) (k : Bytes) (r : R) (j : Bytes)
      → rows (create k r s).1 j
        ≡ (if succeeded (create k r s).0 then (if k =ᵇ j then some r else rows s j) else rows s j)
  -- The key is the table's primary key.
  pub create_unique : (s : S) (k : Bytes) (r : R) → (create k r s).0 ≡ ok tt → rows s k ≡ none
  pub rows-delete :
      (s : S) (k j : Bytes)
      → rows (delete k s).1 j
        ≡ (if succeeded (delete k s).0 then (if k =ᵇ j then none else rows s j) else rows s j)
  pub delete_count :
      (s : S) (k : Bytes) {n : ℕ} → (delete k s).0 ≡ ok n → (n ≡ 0) ↔ (rows s k ≡ none)
  pub rows-update :
      (s : S) (k : Bytes) (f : R → R) (j : Bytes)
      → rows (update k f s).1 j ≡ (
          if succeeded (update k f s).0
          then (if k =ᵇ j then Option.map f (rows s j) else rows s j)
          else rows s j)
  pub update_count :
      (s : S) (k : Bytes) (f : R → R) {n : ℕ}
      → (update k f s).0 ≡ ok n
      → (n ≡ 0) ↔ (rows s k ≡ none)
  pub rows-first_or_create :
      (s : S) (k : Bytes) (r : R) (f : R → R) (j : Bytes)
      → rows (first_or_create k r f s).1 j ≡ (
          if succeeded (first_or_create k r f s).0
          then (if k =ᵇ j then some (assigned r f (rows s j)) else rows s j)
          else rows s j)
  pub rows-create_or_ignore :
      (s : S) (k : Bytes) (r : R) (j : Bytes)
      → rows (create_or_ignore k r s).1 j ≡ (
          if succeeded (create_or_ignore k r s).0
          then (if k =ᵇ j then some (assigned r (λ old. old) (rows s j)) else rows s j)
          else rows s j)
  pub ignored_count :
      (s : S) (k : Bytes) (r : R) {n : ℕ}
      → (create_or_ignore k r s).0 ≡ ok n
      → (n ≡ 0) ↔ ¬ (rows s k ≡ none)
  pub rows-delete_where :
      (s : S) (gone : R → Bool) (j : Bytes)
      → rows (delete_where gone s).1 j
        ≡ (if succeeded (delete_where gone s).0 then unless gone (rows s j) else rows s j)

-- Reading and writing one table leaves the rows of another as they are. (A deletion may cascade.)
pub record Apart {S R Q : Type 0} (t : Table S R) (u : Table S Q) : Type 0 where
  pub rows_after_first : (s : S) (k j : Bytes) → u.rows (t.first k s).1 j ≡ u.rows s j
  pub rows_after_save :
      (s : S) (k : Bytes) (r : R) (j : Bytes) → u.rows (t.save k r s).1 j ≡ u.rows s j
  pub rows_after_update :
      (s : S) (k : Bytes) (f : R → R) (j : Bytes) → u.rows (t.update k f s).1 j ≡ u.rows s j
  pub rows_after_first_or_create :
      (s : S) (k : Bytes) (r : R) (f : R → R) (j : Bytes)
      → u.rows (t.first_or_create k r f s).1 j ≡ u.rows s j

-- No row of `u` depends on a row of `t`, so that a deletion from `t` does not cascade to `u`.
pub record Unlinked {S R Q : Type 0} (t : Table S R) (u : Table S Q) : Type 0 where
  pub rows_after_delete_where :
      (s : S) (gone : R → Bool) (j : Bytes) → u.rows (t.delete_where gone s).1 j ≡ u.rows s j

-- Inserting into and deleting from one table leaves the rows of another as they are: no cascade.
pub record Uncascaded {S R Q : Type 0} (t : Table S R) (u : Table S Q) : Type 0 where
  pub rows_after_create :
      (s : S) (k : Bytes) (r : R) (j : Bytes) → u.rows (t.create k r s).1 j ≡ u.rows s j
  pub rows_after_delete : (s : S) (k j : Bytes) → u.rows (t.delete k s).1 j ≡ u.rows s j

-- A table with no unique key but its primary one: an update and an insertion that ignores conflicts
-- fail only with the database.
pub record FailsPlainly {S R : Type 0} (t : Table S R) : Type 0 where
  pub update_fails :
      (s : S) (k : Bytes) (f : R → R) {e : DbError}
      → (t.update k f s).0 ≡ err e
      → (n : ℕ) × (e ≡ failed n)
  pub create_or_ignore_fails :
      (s : S) (k : Bytes) (r : R) {e : DbError}
      → (t.create_or_ignore k r s).0 ≡ err e
      → (n : ℕ) × (e ≡ failed n)
