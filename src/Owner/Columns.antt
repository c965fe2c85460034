-- ===== src/Owner/Columns.antt =====
-- What the methods of internal/db/state.go and internal/db/state_to2.go share: a row of a table that
-- is keyed by sessions is read or written for the session that the request's token names.
pub mod Laws
use go_fdo_server.Prelude.{◌≡◌, Option, none, some, Bytes, Text, Result, ok, err, map_err}
use go_fdo_server.Prelude.Action.{Action, lift, pure, handle, continue, ◌>>=◌, ◌>>◌}
use go_fdo_server.Prelude.Table.{DbError, Table}
use go_fdo_server.Rendezvous.Session.{Base64, SessionError, not_found, db, query_error}
use go_fdo_server.Rendezvous.Token.{get_session_id}

module _ {S Q : Type 0} (b : Base64) (sessions : Table S Q) where
  -- A getter: the session is checked, its row is fetched, and the row is decoded.
  unfoldable pub read_row :
      {R A : Type 0}
      → Table S R
      → (R → Result SessionError A)
      → Option Text
      → Action S SessionError A
  read_row t read token = do
    id ← get_session_id b sessions token
    row ← handle (t.first id) (λ r. lift (map_err query_error r))
    lift (read row)

  -- A setter: the session is checked, the value is encoded, and one statement of the database
  -- writes it.
  unfoldable pub store_row :
      {V W : Type 0}
      → Result SessionError V
      → (Bytes → V → Action S DbError W)
      → Option Text
      → Action S SessionError (Unit {0})
  store_row value call token = do
    id ← get_session_id b sessions token
    v ← lift value
    handle (call id v) (λ r. lift (map_err db r))
    pure tt

-- What a getter answers for a session that is there, by the row of the session.
abbrev pub row_value :
    {R A : Type 0} → (R → Result SessionError A) → Option R → Result SessionError A
row_value read none = err not_found
row_value read (some row) = read row
