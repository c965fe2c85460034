-- ===== src/Owner/Di.antt =====
-- The token service and the state of DI, TO0 and TO1 in internal/db/state.go. Its statements for tokens
-- and nonces are those of internal/state/token.go, internal/state/to0.go and internal/state/to1.go,
-- but a session has no time.
use go_fdo_server.Prelude.{ℕ, Option, List, [], ◌∷◌, ◌++◌, Bytes, Text, ok, or_err, map_err}
use go_fdo_server.Prelude.Action.{Action, lift, pure, handle, ◌>>=◌, ◌>>◌}
use go_fdo_server.Prelude.Codec.{Codec}
use go_fdo_server.Prelude.Table.{Table}
use go_fdo_server.Rendezvous.Session.{
  Base64, SessionError, no_random, db, cannot_marshal, cannot_unmarshal,
}
use go_fdo_server.Rendezvous.Token
use go_fdo_server.Rendezvous.Nonce
use go_fdo_server.Owner.Columns.{read_row, store_row}

pub record Session : Type 0 where
  pub protocol : ℕ

module _ {S : Type 0} (b : Base64) (t : Table S Session) where
  unfoldable pub new_token : Option Bytes → ℕ → Action S SessionError Text
  new_token random proto = do
    id ← lift (or_err random no_random)
    handle (t.create id (record { protocol = proto })) (λ r. lift (map_err db r))
    pure (b.encode id)

  abbrev pub invalidate_token : Option Text → Action S SessionError (Unit {0})
  invalidate_token = Token.invalidate_token b t

  abbrev pub get_session_id : Option Text → Action S SessionError Bytes
  get_session_id = Token.get_session_id b t

-- `Raw` of a certificate, and x509.ParseCertificates.
pub record Certificates (C : Type 0) : Type 0 where
  pub raw : C → Bytes
  pub parse_certificates : Bytes → Option (List C)

abbrev pub chain_bytes : {C : Type 0} → Certificates C → List C → Bytes
chain_bytes x [] = []
chain_bytes x (cert ∷ chain) = x.raw cert ++ chain_bytes x chain

-- The column of a row of device_info that is written. A row is found by its session.
module _ {S Q : Type 0} (b : Base64) (sessions : Table S Q) (t : Table S Bytes) where
  unfoldable pub set_device_cert_chain :
      {C : Type 0} → Certificates C → Option Text → List C → Action S SessionError (Unit {0})
  set_device_cert_chain x token chain =
      store_row b sessions (ok tt)
        (λ id v. t.first_or_create id (chain_bytes x chain) (λ old. chain_bytes x chain)) token

  unfoldable pub device_cert_chain :
      {C : Type 0} → Certificates C → Option Text → Action S SessionError (List C)
  device_cert_chain x =
      read_row b sessions t (λ row. or_err (x.parse_certificates row) cannot_unmarshal)

  -- The table incomplete_vouchers, of the encoded headers.
  unfoldable pub set_incomplete_voucher_header :
      {H : Type 0} → Codec H → Option Text → H → Action S SessionError (Unit {0})
  set_incomplete_voucher_header c token header =
      store_row b sessions (or_err (c.marshal header) cannot_marshal) (λ id v. t.save id v) token

  unfoldable pub incomplete_voucher_header :
      {H : Type 0} → Codec H → Option Text → Action S SessionError H
  incomplete_voucher_header c =
      read_row b sessions t (λ row. or_err (c.unmarshal row) cannot_unmarshal)

  -- The tables to0_sessions and to1_sessions.
  abbrev pub set_to0_sign_nonce : Option Text → Bytes → Action S SessionError (Unit {0})
  set_to0_sign_nonce = Nonce.set_nonce b sessions t

  abbrev pub to0_sign_nonce : Option Text → Action S SessionError Bytes
  to0_sign_nonce = Nonce.get_nonce b sessions t

  abbrev pub set_to1_proof_nonce : Option Text → Bytes → Action S SessionError (Unit {0})
  set_to1_proof_nonce = Nonce.set_nonce b sessions t

  abbrev pub to1_proof_nonce : Option Text → Action S SessionError Bytes
  to1_proof_nonce = Nonce.get_nonce b sessions t
