-- ===== src/DeviceCa.antt =====
-- The trusted device CA certificates of internal/state/deviceca.go. PEM, X.509 and SHA-256 are Go's.
pub mod Import
pub mod Removal
pub mod Handlers
use go_fdo_server.Prelude.{
  ℕ, ◌<◌, ◌≡◌, ◌==◌, Bool, Option, none, some, List, [], ◌∷◌, Bytes, Text, Result, ok, err, map_err,
  length, if◌then◌else◌,
}
use go_fdo_server.Prelude.Action.{Action, lift, raise, pure, handle, continue, ◌>>=◌}
use go_fdo_server.Prelude.Table.{DbError, record_not_found, Table}

pub record PemBlock : Type 0 where
  pub block_type : Text
  pub bytes : Bytes

pub record Certificate : Type 0 where
  pub raw : Bytes
  pub subject : Text
  pub issuer : Text
  pub not_before : ℕ
  pub not_after : ℕ

-- A row of device_ca_certificates, under its fingerprint.
pub record DeviceCaCertificate : Type 0 where
  pub fingerprint : Text
  pub pem : Text
  pub subject : Text
  pub issuer : Text
  pub not_before : ℕ
  pub not_after : ℕ

-- `pem.Decode` returns a block and what follows it, which is shorter than its input.
pub record X509 : Type 0 where
  pub pem_decode : Bytes → Option (PemBlock × Bytes)
  pub pem_encode : PemBlock → Text
  pub parse_certificate : Bytes → Option Certificate
  pub sum256 : Bytes → Bytes
  pub pem_decode_shorter :
      (b : Bytes) {block : PemBlock} {rest : Bytes}
      → pem_decode b ≡ some (block, rest)
      → length rest < length b

pub data DeviceCaError : Type 0 where
  not_found : DeviceCaError
  count_failed create_failed get_failed delete_failed load_failed : DbError → DeviceCaError
  pem_not_decoded not_parsed : Text → DeviceCaError

module _ {S : Type 0} (x : X509) (t : Table S DeviceCaCertificate) where
  get_error : DbError → DeviceCaError
  get_error record_not_found = not_found
  get_error e = get_failed e

  unfoldable pub get_device_ca_certificate : Text → Action S DeviceCaError DeviceCaCertificate
  unfolding get_error
  get_device_ca_certificate fingerprint =
      handle (t.first fingerprint) (λ r. lift (map_err get_error r))

  unfoldable pub delete_device_ca_certificate : Text → Action S DeviceCaError (Unit {0})
  delete_device_ca_certificate fingerprint = do
    count ← handle (t.delete fingerprint) (λ r. lift (map_err delete_failed r))
    if count == 0 then raise not_found else pure tt

  -- The certificates that `LoadTrustedDeviceCAs` adds to the new pool, in order.
  unfoldable pub parse_all : List DeviceCaCertificate → Result DeviceCaError (List Certificate)
  parse_all [] = ok []
  parse_all (c ∷ cs) =
      let rest = parse_all cs in
      elim (x.pem_decode c.pem) [
        | none ↦ err (pem_not_decoded c.fingerprint)
        | some b ↦ elim (x.parse_certificate b.0.bytes) [
          | none ↦ err (not_parsed c.fingerprint)
          | some cert ↦ elim rest [ err e ↦ err e | ok certs ↦ ok (cert ∷ certs) ]
        ]
      ]
