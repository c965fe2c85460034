-- ===== src/Singleton/Laws.antt =====
-- What the statements on the one row answer and leave, by the row before them.
use go_fdo_server.Prelude.{
  ℕ, ◌≡◌, ◌⊎◌, inl, inr, refl, Option, none, some, Bytes, Result, ok, err, map_err, Result-cases,
  ◌=ᵇ◌, =ᵇ_iff, true, arith,
}
use go_fdo_server.Prelude.Table.{
  DbError, record_not_found, duplicated_key, failed, Table, FailsPlainly, Answers,
}
use go_fdo_server.Singleton.{
  RowError, db, row_key, fetch_value, insert_value, update_value, upsert_value, delete_value,
}

-- A statement answers and leaves what is expected, or it fails with an error of `P` and leaves the
-- row as it was.
abbrev pub Does :
    {E A : Type 0}
    → (DbError → Type 0)
    → Result (RowError E) A × Option Bytes
    → Option Bytes
    → Result (RowError E) A
    → Option Bytes
    → Type 0
Does P expected before r after =
    ((r ≡ expected.0) × (after ≡ expected.1))
    ⊎ ((e : DbError) × P e × (r ≡ err (db e)) × (after ≡ before))

abbrev pub IsPlain : DbError → Type 0
IsPlain e = (n : ℕ) × (e ≡ failed n)

abbrev pub IsAny : DbError → Type 0
IsAny e = Unit

abbrev pub fetched : {E : Type 0} → Option Bytes → Result (RowError E) Bytes × Option Bytes
fetched none = (err (db record_not_found), none)
fetched (some v) = (ok v, some v)

abbrev pub inserted :
    {E : Type 0} → Bytes → Option Bytes → Result (RowError E) (Unit {0}) × Option Bytes
inserted v none = (ok tt, some v)
inserted v (some old) = (err (db duplicated_key), some old)

abbrev pub updated :
    {E : Type 0} → Bytes → Option Bytes → Result (RowError E) (Unit {0}) × Option Bytes
updated v none = (err (db record_not_found), none)
updated v (some old) = (ok tt, some v)

abbrev pub deleted : {E : Type 0} → Option Bytes → Result (RowError E) (Unit {0}) × Option Bytes
deleted none = (err (db record_not_found), none)
deleted (some old) = (ok tt, none)

same_key : (row_key =ᵇ row_key) ≡ true
same_key = ground (arith, =ᵇ_iff row_key row_key)

Answers-Does :
    {E : Type 0} (o : Option Bytes) (a : Result DbError Bytes)
    → Answers o a
    → Does {E = E} IsPlain (fetched o) o (map_err db a) o
Answers-Does (some v) a (inl e) = inl (rw e, refl)
Answers-Does (some v) a (inr (n, e)) = inr (failed n, (n, refl), rw e, refl)
Answers-Does none a (inl e) = inl (rw e, refl)
Answers-Does none a (inr (n, e)) = inr (failed n, (n, refl), rw e, refl)

module _ {S E : Type 0} (t : Table S Bytes) where
  pub fetch_value-Does :
      (s : S)
      → Does {E = E} IsPlain
          (fetched (t.rows s row_key))
          (t.rows s row_key)
          (fetch_value t s).0
          (t.rows (fetch_value {E = E} t s).1 row_key)
  unfolding fetch_value
  fetch_value-Does s =
      rw (t.rows-first s row_key row_key)
        (Answers-Does (t.rows s row_key) (t.first row_key s).0 (t.first_law s row_key))

  pub insert_value-Does :
      FailsPlainly t
      → (v : Bytes) (s : S)
      → Does {E = E} IsPlain
          (inserted v (t.rows s row_key))
          (t.rows s row_key)
          (insert_value t v s).0
          (t.rows (insert_value {E = E} t v s).1 row_key)
  unfolding insert_value
  insert_value-Does k v s = elim (Result-cases (t.create_or_ignore row_key v s).0) [
    | inl (e, bad) ↦ inr (
      e,
      k.create_or_ignore_fails s row_key v bad,
      rw bad,
      rw (bad, t.rows-create_or_ignore s row_key v row_key, bad),
    )
    | inr (n, done) ↦ inl (
      ground (arith, t.ignored_count s row_key v done),
      ground (
        arith,
        t.rows-create_or_ignore s row_key v row_key,
        t.ignored_count s row_key v done,
        same_key,
      ),
    )
  ]

  pub update_value-Does :
      FailsPlainly t
      → (v : Bytes) (s : S)
      → Does {E = E} IsPlain
          (updated v (t.rows s row_key))
          (t.rows s row_key)
          (update_value t v s).0
          (t.rows (update_value {E = E} t v s).1 row_key)
  unfolding update_value
  update_value-Does k v s = elim (Result-cases (t.update row_key (λ old. v) s).0) [
    | inl (e, bad) ↦ inr (
      e,
      k.update_fails s row_key (λ old. v) bad,
      rw bad,
      rw (bad, t.rows-update s row_key (λ old. v) row_key, bad),
    )
    | inr (n, done) ↦ inl (
      ground (arith, t.update_count s row_key (λ old. v) done),
      ground (
        arith,
        t.rows-update s row_key (λ old. v) row_key,
        t.update_count s row_key (λ old. v) done,
        same_key,
      ),
    )
  ]

  pub upsert_value-Does :
      (v : Bytes) (s : S)
      → Does {E = E} IsAny
          (ok tt, some v)
          (t.rows s row_key)
          (upsert_value t v s).0
          (t.rows (upsert_value {E = E} t v s).1 row_key)
  unfolding upsert_value
  upsert_value-Does v s = elim (Result-cases (t.save row_key v s).0) [
    | inl (e, bad) ↦ inr (e, tt, rw bad, rw (t.rows-save s row_key v row_key, bad))
    | inr (u, done) ↦ inl (rw done, rw (t.rows-save s row_key v row_key, done, same_key))
  ]

  pub delete_value-Does :
      (s : S)
      → Does {E = E} IsAny
          (deleted (t.rows s row_key))
          (t.rows s row_key)
          (delete_value t s).0
          (t.rows (delete_value {E = E} t s).1 row_key)
  unfolding delete_value
  delete_value-Does s = elim (Result-cases (t.delete row_key s).0) [
    | inl (e, bad) ↦ inr (e, tt, rw bad, rw (bad, t.rows-delete s row_key row_key, bad))
    | inr (n, done) ↦ inl (
      ground (arith, t.delete_count s row_key done),
      ground (arith, t.rows-delete s row_key row_key, t.delete_count s row_key done, same_key),
    )
  ]
