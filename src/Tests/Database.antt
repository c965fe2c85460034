-- ===== src/Tests/Database.antt =====
-- A sample database: tables that are functions from keys to rows, and calls that never fail.
use go_fdo_server.Prelude.{
  ℕ, ◌≡◌, ◌↔◌, inl, refl, Option, none, some, Bytes, Result, ok, err, ◌=ᵇ◌, if◌then◌else◌, arith,
  =ᵇ_iff,
}
use go_fdo_server.Prelude.Table.{
  DbError, record_not_found, duplicated_key, Table, Answers, unless, succeeded, Apart, Unlinked,
  assigned,
}
use mathlib.Core.Option
use go_fdo_server.Rendezvous.Blob.{RvBlob}
use go_fdo_server.Rendezvous.Session.{Session}

abbrev pub Rows : Type 0 → Type 0
Rows R = Bytes → Option R

abbrev pub put : {R : Type 0} → Rows R → Bytes → Option R → Rows R
put f k r j = if k =ᵇ j then r else f j

abbrev pub found : {R : Type 0} → Option R → Result DbError R
found none = err record_not_found
found (some r) = ok r

abbrev pub how_many : {R : Type 0} → Option R → ℕ
how_many none = 0
how_many (some r) = 1

abbrev pub insert :
    {R : Type 0} → Option R → Rows R → Bytes → R → Result DbError (Unit {0}) × Rows R
insert none f k r = (ok tt, put f k (some r))
insert (some old) f k r = (err duplicated_key, f)

pub found_law : {R : Type 0} (o : Option R) → Answers o (found o)
found_law none = inl refl
found_law (some r) = inl refl

abbrev pub counted : ℕ → Result DbError ℕ
counted n = ok n

pub how_many_law :
    {R : Type 0} (o : Option R) {n : ℕ} → counted (how_many o) ≡ ok n → (n ≡ 0) ↔ (o ≡ none)
how_many_law none h = ground arith
how_many_law (some r) h = ground arith

pub insert_rows :
    {R : Type 0} (o : Option R) (f : Rows R) (k : Bytes) (r : R) (j : Bytes)
    → (insert o f k r).1 j
      ≡ (if succeeded (insert o f k r).0 then (if k =ᵇ j then some r else f j) else f j)
insert_rows none f k r j = refl
insert_rows (some old) f k r j = refl

pub insert_unique :
    {R : Type 0} (o : Option R) (f : Rows R) (k : Bytes) (r : R)
    → (insert o f k r).0 ≡ ok tt
    → o ≡ none
insert_unique none f k r h = refl
insert_unique (some old) f k r h = cc h

abbrev pub not_inserted : {R : Type 0} → Option R → ℕ
not_inserted none = 1
not_inserted (some r) = 0

pub not_inserted_law :
    {R : Type 0} (o : Option R) {n : ℕ} → counted (not_inserted o) ≡ ok n → (n ≡ 0) ↔ ¬ (o ≡ none)
not_inserted_law none h = ground arith
not_inserted_law (some r) h = ground arith

pub update_rows :
    {R : Type 0} (f : Rows R) (k : Bytes) (g : R → R) (j : Bytes)
    → put f k (Option.map g (f k)) j ≡ (if k =ᵇ j then Option.map g (f j) else f j)
update_rows f k g j = ground (arith, =ᵇ_iff k j)

pub assign_rows :
    {R : Type 0} (f : Rows R) (k : Bytes) (r : R) (g : R → R) (j : Bytes)
    → put f k (some (assigned r g (f k))) j ≡ (if k =ᵇ j then some (assigned r g (f j)) else f j)
assign_rows f k r g j = ground (arith, =ᵇ_iff k j)

-- The table of rows that a state holds at `get` and `set`.
module _ {S R : Type 0} (get : S → Rows R) (set : Rows R → S → S)
    (get-set : (f : Rows R) (s : S) → get (set f s) ≡ f) where
  abbrev pub table : Table S R
  table = record {
    rows = get;
    count = λ k s. (ok (how_many (get s k)), s);
    first = λ k s. (found (get s k), s);
    save = λ k r s. (ok tt, set (put (get s) k (some r)) s);
    create = λ k r s. ((insert (get s k) (get s) k r).0, set (insert (get s k) (get s) k r).1 s);
    delete = λ k s. (ok (how_many (get s k)), set (put (get s) k none) s);
    delete_where = λ gone s. (ok 0, set (λ j. unless gone (get s j)) s);
    update = λ k g s. (ok (how_many (get s k)), set (put (get s) k (Option.map g (get s k))) s);
    first_or_create = λ k r g s. (ok tt, set (put (get s) k (some (assigned r g (get s k)))) s);
    create_or_ignore = λ k r s.
        (ok (not_inserted (get s k)), set (put (get s) k (some (assigned r (λ x. x) (get s k)))) s);
    count_law = λ s k h. how_many_law (get s k) h;
    rows-count = λ s k j. refl;
    first_law = λ s k. found_law (get s k);
    rows-first = λ s k j. refl;
    rows-save = λ s k r j. rw (get-set (put (get s) k (some r)) s);
    rows-create = λ s k r j.
        rw (get-set (insert (get s k) (get s) k r).1 s) (insert_rows (get s k) (get s) k r j);
    create_unique = λ s k r h. insert_unique (get s k) (get s) k r h;
    rows-delete = λ s k j. rw (get-set (put (get s) k none) s);
    delete_count = λ s k h. how_many_law (get s k) h;
    rows-update = λ s k g j.
        rw (get-set (put (get s) k (Option.map g (get s k))) s) (update_rows (get s) k g j);
    update_count = λ s k g h. how_many_law (get s k) h;
    rows-first_or_create = λ s k r g j.
        rw (get-set (put (get s) k (some (assigned r g (get s k)))) s)
          (assign_rows (get s) k r g j);
    rows-create_or_ignore = λ s k r j.
        rw (get-set (put (get s) k (some (assigned r (λ x. x) (get s k)))) s)
          (assign_rows (get s) k r (λ x. x) j);
    ignored_count = λ s k r h. not_inserted_law (get s k) h;
    rows-delete_where = λ s gone j. rw (get-set (λ i. unless gone (get s i)) s);
  }

-- A database with three tables.
pub record Database : Type 0 where
  pub blob_rows : Rows RvBlob
  pub session_rows : Rows Session
  pub nonce_rows : Rows Bytes

abbrev pub set_blobs : Rows RvBlob → Database → Database
set_blobs f d = record { blob_rows = f; session_rows = d.session_rows; nonce_rows = d.nonce_rows }

abbrev pub set_sessions : Rows Session → Database → Database
set_sessions f d = record { blob_rows = d.blob_rows; session_rows = f; nonce_rows = d.nonce_rows }

abbrev pub set_nonces : Rows Bytes → Database → Database
set_nonces f d = record { blob_rows = d.blob_rows; session_rows = d.session_rows; nonce_rows = f }

abbrev pub blobs : Table Database RvBlob
blobs = table (λ d. d.blob_rows) set_blobs (λ f d. refl)

abbrev pub sessions : Table Database Session
sessions = table (λ d. d.session_rows) set_sessions (λ f d. refl)

abbrev pub nonces : Table Database Bytes
nonces = table (λ d. d.nonce_rows) set_nonces (λ f d. refl)

pub sessions-nonces : Apart sessions nonces
sessions-nonces = record {
  rows_after_first = λ s k j. refl;
  rows_after_save = λ s k r j. refl;
  rows_after_update = λ s k f j. refl;
  rows_after_first_or_create = λ s k r f j. refl;
}

pub nonces-sessions : Apart nonces sessions
nonces-sessions = record {
  rows_after_first = λ s k j. refl;
  rows_after_save = λ s k r j. refl;
  rows_after_update = λ s k f j. refl;
  rows_after_first_or_create = λ s k r f j. refl;
}

pub blobs-sessions : Unlinked blobs sessions
blobs-sessions = record { rows_after_delete_where = λ s gone j. refl }

pub sessions-blobs : Unlinked sessions blobs
sessions-blobs = record { rows_after_delete_where = λ s gone j. refl }

abbrev pub empty_database : Database
empty_database = record { blob_rows = λ k. none; session_rows = λ k. none; nonce_rows = λ k. none }
