-- ===== src/Rendezvous/Session.antt =====
-- The session table of internal/state/token.go, and the libraries under a token.
use go_fdo_server.Prelude.{ℕ, ◌≡◌, ◌⊎◌, Option, some, Bytes, Text, Result, err, AreBytes}
use go_fdo_server.Prelude.Table.{DbError, record_not_found, failed}

pub record Session : Type 0 where
  pub protocol : ℕ
  pub created_at : ℕ

-- Go's base64.RawURLEncoding.
pub record Base64 : Type 0 where
  pub encode : Bytes → Text
  pub decode : Text → Option Bytes
  pub decode-encode : (b : Bytes) → AreBytes b → decode (encode b) ≡ some b

-- The last line but one is of the owner and of the manufacturer only.
pub data SessionError : Type 0 where
  invalid_session not_found no_random : SessionError
  cannot_marshal cannot_unmarshal no_binary_encoding out_of_range panic : SessionError
  db : DbError → SessionError

-- A failed query of the session table itself.
abbrev pub session_error : DbError → SessionError
session_error record_not_found = invalid_session
session_error e = db e

-- A failed query of a table that is keyed by sessions.
abbrev pub query_error : DbError → SessionError
query_error record_not_found = not_found
query_error e = db e

-- The answer of a call is the expected one, unless the database fails.
abbrev pub Shows {ℓ} : {A : Type ℓ} → Result SessionError A → Result SessionError A → Type ℓ
Shows expected r = (r ≡ expected) ⊎ ((n : ℕ) × (r ≡ err (db (failed n))))
