-- ===== src/Rendezvous/Token.antt =====
-- `TokenService` of internal/state/token.go. The token of a request's context is an argument, and so
-- are the random bytes and the time.
pub mod Lifetime
use go_fdo_server.Prelude.{
  ℕ, ◌+◌, Bool, Option, none, some, Bytes, Text, Result, ok, err, or_err, map_err, ltb, ◌==◌,
  if◌then◌else◌,
}
use go_fdo_server.Prelude.Action.{Action, lift, raise, pure, handle, continue, ◌>>=◌, ◌>>◌}
use go_fdo_server.Prelude.Table.{DbError, Table}
use go_fdo_server.Rendezvous.Session.{
  Session, Base64, SessionError, invalid_session, not_found, no_random, db, session_error,
}

module _ {S : Type 0} (b : Base64) (t : Table S Session) where
  -- `random` is the outcome of `rand.Read` on 32 bytes.
  unfoldable pub new_token : Option Bytes → ℕ → ℕ → Action S SessionError Text
  new_token random proto now = do
    id ← lift (or_err random no_random)
    handle (t.create id (record { protocol = proto; created_at = now })) (λ r. lift (map_err db r))
    pure (b.encode id)

  -- `created_at < now - maxAge`
  unfoldable pub cleanup_expired_sessions : ℕ → ℕ → Action S DbError ℕ
  cleanup_expired_sessions now max_age =
      t.delete_where (λ session. ltb (session.created_at + max_age) now)

-- What is the same for the session table of the owner and of the manufacturer, which has no times.
module _ {S R : Type 0} (b : Base64) (t : Table S R) where
  -- `TokenFromContext` and the decoding of the token.
  unfoldable pub decode_token : Option Text → Result SessionError Bytes
  decode_token none = err invalid_session
  decode_token (some token) = or_err (b.decode token) invalid_session

  unfoldable pub invalidate_token : Option Text → Action S SessionError (Unit {0})
  invalidate_token token = do
    id ← lift (decode_token token)
    count ← handle (t.delete id) (λ r. lift (map_err db r))
    if count == 0 then raise not_found else pure tt

  unfoldable pub get_session_id : Option Text → Action S SessionError Bytes
  get_session_id token = do
    id ← lift (decode_token token)
    handle (t.first id) (λ r. lift (map_err session_error r))
    pure id
