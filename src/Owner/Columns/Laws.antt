-- ===== src/Owner/Columns/Laws.antt =====
-- Reading a session's row, and reading it after it was written.
use go_fdo_server.Prelude.{
  ◌=ᵇ◌, if◌then◌else◌, ◌≡◌, inl, inr, Option, none, some, Bytes, Text, Result, ok, map_err,
  Result-cases,
}
use mathlib.Core.Option
use go_fdo_server.Prelude.Action.{Action, lift, continue}
use go_fdo_server.Prelude.Table.{DbError, Table, Answers, Apart, assigned}
use go_fdo_server.Rendezvous.Session.{Base64, SessionError, query_error, Shows}
use go_fdo_server.Rendezvous.Token.{decode_token, get_session_id}
use go_fdo_server.Rendezvous.Token.Lifetime.{known, get_session_id-Shows, get_session_id_inv}
use go_fdo_server.Owner.Columns.{read_row, store_row, row_value}

Answers-Shows :
    {S R A : Type 0} (read : R → Result SessionError A) (o : Option R) (a : Result DbError R)
    (s : S)
    → Answers o a
    → Shows (row_value read o) (continue (map_err query_error a) (λ row. lift (read row)) s).0
Answers-Shows read (some x) a s (inl e) = inl (rw e)
Answers-Shows read (some x) a s (inr (n, e)) = inr (n, rw e)
Answers-Shows read none a s (inl e) = inl (rw e)
Answers-Shows read none a s (inr (n, e)) = inr (n, rw e)

module _ {S Q R : Type 0} (b : Base64) (sessions : Table S Q) (t : Table S R) where
  -- A getter shows what the row of the session says, when its session is there.
  pub read_row-Shows :
      {A : Type 0}
      → Apart sessions t
      → (read : R → Result SessionError A) (token : Option Text) (id : Bytes) (s : S)
      → decode_token b sessions token ≡ ok id
      → known id (sessions.rows s id) ≡ ok id
      → Shows (row_value read (t.rows s id)) (read_row b sessions t read token s).0
  unfolding read_row
  read_row-Shows k read token id s named live =
      let shows = get_session_id-Shows b sessions token id s named in
      elim (rw live at shows) [
        | inr (n, e) ↦ inr (n, rw e)
        | inl e ↦
            let next = (sessions.first id s).1 in
            let answers =
              Answers-Shows read (t.rows next id) (t.first id next).0 (t.first id next).1
                (t.first_law next id) in
            let row = k.rows_after_first s id id in
            let (_, _, state) = get_session_id_inv b sessions token s e in
            rw (e, state, ← row) answers
      ]

  -- What a setter that succeeds has done: its session is there, its value is encoded, and its
  -- statement has succeeded in the state that the check of the session leaves.
  pub store_row_inv :
      {V W : Type 0} (value : Result SessionError V) (call : Bytes → V → Action S DbError W)
      (token : Option Text) (id : Bytes) (s : S)
      → decode_token b sessions token ≡ ok id
      → (store_row b sessions value call token s).0 ≡ ok tt
      → (v : V) × (w : W) × (value ≡ ok v)
        × (known id (sessions.rows s id) ≡ ok id)
        × ((call id v (sessions.first id s).1).0 ≡ ok w)
        × ((store_row b sessions value call token s).1 ≡ (call id v (sessions.first id s).1).1)
  unfolding store_row
  store_row_inv value call token id s named h =
      elim (Result-cases (get_session_id b sessions token s).0) [
        | inl (e, bad) ↦ cc (rw bad at h)
        | inr (found, good) ↦
            let (decoded, live, state) = get_session_id_inv b sessions token s good in
            let same : found ≡ id = cc (rw named at decoded) in
            let good' = rw same at good in
            let state' = rw same at state in
            elim (Result-cases value) [
              | inl (e, bad) ↦ cc (rw (good', bad) at h)
              | inr (v, encoded) ↦ elim (Result-cases (call id v (sessions.first id s).1).0) [
                | inl (e, bad) ↦ cc (rw (good', encoded, state', bad) at h)
                | inr (w, done) ↦
                    (v, w, encoded, rw same at live, done, rw (good', encoded, state', done))
              ]
            ]
      ]

  -- After an `Updates`: a row that was there has the new columns, and one that was not is still not
  -- there. No other row has changed.
  pub store_row-update :
      {V : Type 0}
      → Apart sessions t
      → Apart t sessions
      → (value : Result SessionError V) (f : V → R → R) (token : Option Text) (id : Bytes) (s : S)
      → decode_token b sessions token ≡ ok id
      → (store_row b sessions value (λ k v. t.update k (f v)) token s).0 ≡ ok tt
      → let after = (store_row b sessions value (λ k v. t.update k (f v)) token s).1 in
        (v : V) × (value ≡ ok v)
        × (known id (sessions.rows after id) ≡ ok id)
        × ((j : Bytes)
            → t.rows after j ≡ (if id =ᵇ j then Option.map (f v) (t.rows s j) else t.rows s j))
  store_row-update k k' value f token id s named h =
      let (v, w, encoded, live, done, state) =
        store_row_inv value (λ k v. t.update k (f v)) token id s named h in
      let before = (sessions.first id s).1 in
      (
        v,
        encoded,
        rw (state, k'.rows_after_update before id (f v) id, sessions.rows-first s id id) live,
        λ j. rw (state, t.rows-update before id (f v) j, done, k.rows_after_first s id j),
      )

  -- After a `FirstOrCreate` with assigned columns: the row is there.
  pub store_row-first_or_create :
      Apart sessions t
      → Apart t sessions
      → (r : R) (f : R → R) (token : Option Text) (id : Bytes) (s : S)
      → decode_token b sessions token ≡ ok id
      → (store_row b sessions (ok tt) (λ k v. t.first_or_create k r f) token s).0 ≡ ok tt
      → let after = (store_row b sessions (ok tt) (λ k v. t.first_or_create k r f) token s).1 in
        (known id (sessions.rows after id) ≡ ok id)
        × ((j : Bytes)
            → t.rows after j ≡ (if id =ᵇ j then some (assigned r f (t.rows s j)) else t.rows s j))
  store_row-first_or_create k k' r f token id s named h =
      let (v, w, _, live, done, state) =
        store_row_inv (ok tt) (λ k v. t.first_or_create k r f) token id s named h in
      let before = (sessions.first id s).1 in
      (
        rw (state, k'.rows_after_first_or_create before id r f id, sessions.rows-first s id id)
            live,
        λ j. rw (state, t.rows-first_or_create before id r f j, done, k.rows_after_first s id j),
      )

  -- After a `Save`: the row is the one that was saved.
  pub store_row-save :
      {V : Type 0}
      → Apart sessions t
      → Apart t sessions
      → (value : Result SessionError V) (row_of : V → R) (token : Option Text) (id : Bytes) (s : S)
      → decode_token b sessions token ≡ ok id
      → (store_row b sessions value (λ k v. t.save k (row_of v)) token s).0 ≡ ok tt
      → let after = (store_row b sessions value (λ k v. t.save k (row_of v)) token s).1 in
        (v : V) × (value ≡ ok v)
        × (known id (sessions.rows after id) ≡ ok id)
        × ((j : Bytes) → t.rows after j ≡ (if id =ᵇ j then some (row_of v) else t.rows s j))
  store_row-save k k' value row_of token id s named h =
      let (v, w, encoded, live, done, state) =
        store_row_inv value (λ k v. t.save k (row_of v)) token id s named h in
      let before = (sessions.first id s).1 in
      (
        v,
        encoded,
        rw (state, k'.rows_after_save before id (row_of v) id, sessions.rows-first s id id) live,
        λ j. rw (state, t.rows-save before id (row_of v) j, done, k.rows_after_first s id j),
      )
