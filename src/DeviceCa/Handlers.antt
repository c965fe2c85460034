-- ===== src/DeviceCa/Handlers.antt =====
-- The handlers of internal/handlers/deviceca/handler.go, and `LoadTrustedDeviceCAs` of
-- internal/state/deviceca.go. The server is the database and the pool of trusted certificates, whose
-- order does not matter to its clients; the mutex is left out, since a call is one step here.
pub mod Pool
use go_fdo_server.Prelude.{
  ℕ, zero, suc, ◌≡◌, Bool, true, false, Option, none, some, List, [], ◌∷◌, ◌++◌, Bytes, Text,
  Result, ok, err, codes, length, ltb, ◌==◌, ◌=ᵇ◌, if◌then◌else◌,
}
use go_fdo_server.Prelude.Action.{Action}
use go_fdo_server.Prelude.Table.{DbError, Table}
use go_fdo_server.DeviceCa.{
  Certificate, DeviceCaCertificate, X509, DeviceCaError, not_found, load_failed, parse_all,
  get_device_ca_certificate, delete_device_ca_certificate,
}
use go_fdo_server.DeviceCa.Import.{Drivers, ImportStats, import_device_ca_certificates}

pub record CaServer (S : Type 0) : Type 0 where
  pub database : S
  pub pool : List Certificate

pub data CaResponse : Type 0 where
  refused : ℕ → CaResponse
  no_content : CaResponse
  pem_file : Text → CaResponse
  certificate : DeviceCaCertificate → CaResponse
  import_result : ImportStats → CaResponse

-- At most the first `n` bytes, as an io.LimitReader passes them on.
unfoldable pub take : ℕ → Bytes → Bytes
take zero b = []
take (suc n) [] = []
take (suc n) (c ∷ b) = c ∷ take n b

-- 1 MB
abbrev pub max_size : ℕ
max_size = 1048576

-- `find_all` is `Find(&certs)`.
module _ {S : Type 0} (x : X509) (t : Table S DeviceCaCertificate)
    (find_all : Action S DbError (List DeviceCaCertificate)) where
  -- The pool is replaced when every certificate parses, and left as it is otherwise.
  abbrev pub with_pool :
      List Certificate
      → S
      → Result DeviceCaError (List Certificate)
      → Result DeviceCaError (Unit {0}) × CaServer S
  with_pool pool s (err e) = (err e, record { database = s; pool = pool })
  with_pool pool s (ok certs) = (ok tt, record { database = s; pool = certs })

  abbrev pub parse_found :
      Result DbError (List DeviceCaCertificate) → Result DeviceCaError (List Certificate)
  parse_found (err e) = err (load_failed e)
  parse_found (ok certs) = parse_all x t certs

  unfoldable pub load_trusted_device_cas : CaServer S → Result DeviceCaError (Unit {0}) × CaServer S
  load_trusted_device_cas v = let r = find_all v.database in with_pool v.pool r.1 (parse_found r.0)

  abbrev pub loaded : CaResponse → Result DeviceCaError (Unit {0}) → CaResponse
  loaded response (ok u) = response
  loaded response (err e) = refused 500

  -- The reload after a change, and the response when it succeeds.
  unfoldable pub reload : CaResponse → CaServer S → CaResponse × CaServer S
  reload response v = let r = load_trusted_device_cas v in (loaded response r.0, r.1)

  -- From the result of the import on.
  unfoldable pub imported :
      List Certificate → Result DeviceCaError ImportStats → S → CaResponse × CaServer S
  imported pool (err e) s = (refused 500, record { database = s; pool = pool })
  imported pool (ok stats) s =
      if ltb 0 stats.imported
      then reload (import_result stats) (record { database = s; pool = pool })
      else (import_result stats, record { database = s; pool = pool })

  -- `now_at` is the time at each certificate. A body that is `none` cannot be read.
  unfoldable pub import_trusted_device_ca_certs :
      Drivers → (ℕ → ℕ) → Option Bytes → CaServer S → CaResponse × CaServer S
  import_trusted_device_ca_certs d now_at none v = (refused 400, v)
  import_trusted_device_ca_certs d now_at (some body) v =
      let pem_data = take (suc max_size) body in
      if ltb max_size (length pem_data)
      then (refused 413, v)
      else (let r = import_device_ca_certificates x t d now_at pem_data v.database in
          imported v.pool r.0 r.1)

  abbrev pub pem_type : Text
  pem_type = codes "application/x-pem-file"

  -- `content_type` is what the content negotiation prefers.
  abbrev pub certificate_response : Text → Result DeviceCaError DeviceCaCertificate → CaResponse
  certificate_response content_type (ok cert) =
      if content_type =ᵇ pem_type then pem_file cert.pem else certificate cert
  certificate_response content_type (err not_found) = refused 404
  certificate_response content_type (err e) = refused 500

  unfoldable pub get_trusted_device_ca_cert_by_fingerprint :
      Text → Text → CaServer S → CaResponse × CaServer S
  get_trusted_device_ca_cert_by_fingerprint content_type fingerprint v =
      let r = get_device_ca_certificate x t fingerprint v.database in
      (certificate_response content_type r.0, record { database = r.1; pool = v.pool })

  -- From the result of the deletion on.
  unfoldable pub removed :
      List Certificate → Result DeviceCaError (Unit {0}) → S → CaResponse × CaServer S
  removed pool (err not_found) s = (refused 404, record { database = s; pool = pool })
  removed pool (err e) s = (refused 500, record { database = s; pool = pool })
  removed pool (ok u) s = reload no_content (record { database = s; pool = pool })

  unfoldable pub delete_trusted_device_ca_cert : Text → CaServer S → CaResponse × CaServer S
  delete_trusted_device_ca_cert fingerprint v =
      let r = delete_device_ca_certificate x t fingerprint v.database in removed v.pool r.0 r.1
