-- ===== src/Tests/Certificates.antt =====
-- The import of device CA certificates, with certificates of one byte.
use go_fdo_server.Prelude.{
  ℕ, suc, ◌≡◌, ◌<◌, ◌+◌, refl, inl, Option, none, some, List, [], ◌∷◌, Bytes, Text, codes, Result,
  ok, err, length, arith, ◌=ᵇ◌, if◌then◌else◌,
}
use go_fdo_server.Prelude.Hex
use go_fdo_server.Prelude.Table.{DbError, Table}
use go_fdo_server.DeviceCa.{
  not_found, get_device_ca_certificate, delete_device_ca_certificate, PemBlock, Certificate,
  DeviceCaCertificate, X509,
}
use go_fdo_server.DeviceCa.Import.{
  Drivers, already_exists, was_imported, ImportStats, no_stats, import_from,
  import_device_ca_certificates,
}
use go_fdo_server.DeviceCa.Import.Fuel.{import_device_ca_certificates_fuel}
use go_fdo_server.DeviceCa.Import.Stats.{AreConsistent, import_device_ca_certificates-AreConsistent}
use go_fdo_server.DeviceCa.Import.Stored.{import_device_ca_certificates-keeps}
use go_fdo_server.DeviceCa.Removal.{
  stored, Shows, get_device_ca_certificate-delete_device_ca_certificate,
}
use go_fdo_server.DeviceCa.Handlers.{
  CaServer, no_content, get_trusted_device_ca_cert_by_fingerprint, delete_trusted_device_ca_cert,
  import_trusted_device_ca_certs, import_result,
}
use go_fdo_server.DeviceCa.Handlers.Pool.{
  FindsAll, Reloaded, delete_trusted_device_ca_cert-Reloaded,
}
use go_fdo_server.Prelude.Action.{Action}
use go_fdo_server.Tests.Database.{Rows, table, put}

abbrev decode_block : Bytes → Option (PemBlock × Bytes)
decode_block [] = none
decode_block (b ∷ rest) = some (record { block_type = codes "CERTIFICATE"; bytes = b ∷ [] }, rest)

decode_block_shorter :
    (b : Bytes) {block : PemBlock} {rest : Bytes}
    → decode_block b ≡ some (block, rest)
    → length rest < length b
unfolding length
decode_block_shorter [] h = cc h
decode_block_shorter (b ∷ s) h = ground arith

abbrev certificate_of : Bytes → Certificate
certificate_of raw = record {
  raw = raw;
  subject = raw;
  issuer = raw;
  not_before = 0;
  not_after = 100;
}

abbrev x509 : X509
x509 = record {
  pem_decode = decode_block;
  pem_encode = λ block. block.bytes;
  parse_certificate = λ b. some (certificate_of b);
  sum256 = λ b. b;
  pem_decode_shorter = decode_block_shorter;
}

abbrev Certificates : Type 0
Certificates = Rows DeviceCaCertificate

abbrev certificates : Table Certificates DeviceCaCertificate
certificates = table (λ d. d) (λ f d. f) (λ f d. refl)

-- Every error of this database would come from SQLite, and be of a constraint.
abbrev drivers : Drivers
drivers = record { pg_code = λ e. none; sqlite_code = λ e. some 19; err_constraint = 19 }

abbrev row : DeviceCaCertificate
row = record {
  fingerprint = codes "01";
  pem = 1 ∷ [];
  subject = 1 ∷ [];
  issuer = 1 ∷ [];
  not_before = 0;
  not_after = 100;
}

abbrev nothing_stored : Certificates
nothing_stored = λ k. none

abbrev row_stored : Certificates
row_stored = put (λ k. none) (codes "01") (some row)

abbrev noon : ℕ → ℕ
noon position = 50

abbrev twice : ImportStats
twice = record {
  detected = 2;
  imported = 1;
  skipped = 1;
  malformed = 0;
  messages = was_imported 1 (1 ∷ []) ∷ already_exists 2 (1 ∷ []) ∷ [];
  certificates = row ∷ [];
}

imported_twice :
    (import_device_ca_certificates x509 certificates drivers noon (1 ∷ 1 ∷ []) nothing_stored).0
    ≡ ok twice
unfolding import_device_ca_certificates go_fdo_server.Prelude.◌=ᵇ◌ length Hex.encode
imported_twice = refl

import_device_ca_certificates-AreConsistent_example : AreConsistent twice
import_device_ca_certificates-AreConsistent_example =
    import_device_ca_certificates-AreConsistent x509 certificates drivers noon (1 ∷ 1 ∷ [])
      nothing_stored imported_twice

row_found : certificates.rows row_stored (codes "01") ≡ some row
unfolding go_fdo_server.Prelude.◌=ᵇ◌
row_found = refl

import_device_ca_certificates-keeps_example :
    certificates.rows
      (import_device_ca_certificates x509 certificates drivers noon (1 ∷ 2 ∷ []) row_stored).1
      (codes "01")
    ≡ some row
import_device_ca_certificates-keeps_example =
    import_device_ca_certificates-keeps x509 certificates drivers noon (1 ∷ 2 ∷ []) row_stored
      (codes "01") row_found

abbrev two_pem : Bytes
two_pem = 1 ∷ 2 ∷ []

two_blocks : length two_pem < 10
unfolding length
two_blocks = omega arith

import_device_ca_certificates_fuel_example :
    import_from x509 certificates drivers noon 10 0 (1 ∷ 2 ∷ []) no_stats nothing_stored
    ≡ import_device_ca_certificates x509 certificates drivers noon (1 ∷ 2 ∷ []) nothing_stored
import_device_ca_certificates_fuel_example =
    import_device_ca_certificates_fuel x509 certificates drivers noon 10 (1 ∷ 2 ∷ []) nothing_stored
      two_blocks

row_deleted : (delete_device_ca_certificate x509 certificates (codes "01") row_stored).0 ≡ ok tt
unfolding delete_device_ca_certificate go_fdo_server.Prelude.◌=ᵇ◌
row_deleted = refl

get_device_ca_certificate-delete_device_ca_certificate_example :
    Shows
      (if codes "01" =ᵇ codes "02"
        then err not_found
        else stored (certificates.rows row_stored (codes "02")))
      (get_device_ca_certificate x509 certificates
        (codes "02")
        (delete_device_ca_certificate x509 certificates (codes "01") row_stored).1).0
get_device_ca_certificate-delete_device_ca_certificate_example =
    get_device_ca_certificate-delete_device_ca_certificate x509 certificates (codes "01")
      (codes "02") row_stored row_deleted

-- The rows of this database stand under one fingerprint.
abbrev listed : Option DeviceCaCertificate → List DeviceCaCertificate
listed none = []
listed (some c) = c ∷ []

abbrev all : Certificates → List DeviceCaCertificate
all d = listed (d (codes "01"))

abbrev find_all : Action Certificates DbError (List DeviceCaCertificate)
find_all d = (ok (all d), d)

find_all-FindsAll : FindsAll all find_all
find_all-FindsAll d = inl refl

abbrev server : CaServer Certificates
server = record { database = row_stored; pool = certificate_of (1 ∷ []) ∷ [] }

-- The deletion of the stored certificate empties the pool.
pool_emptied :
    delete_trusted_device_ca_cert x509 certificates find_all (codes "01") server
    ≡ (no_content, record { database = put row_stored (codes "01") none; pool = [] })
unfolding delete_trusted_device_ca_cert delete_device_ca_certificate go_fdo_server.Prelude.◌=ᵇ◌
    go_fdo_server.DeviceCa.Handlers.removed go_fdo_server.DeviceCa.Handlers.reload
    go_fdo_server.DeviceCa.Handlers.load_trusted_device_cas go_fdo_server.DeviceCa.parse_all
pool_emptied = refl

-- An import reloads the pool.
pool_filled :
    (import_trusted_device_ca_certs x509 certificates find_all drivers noon
      (some (1 ∷ []))
      (record { database = nothing_stored; pool = [] })).1.pool
    ≡ certificate_of (1 ∷ []) ∷ []
unfolding import_trusted_device_ca_certs import_device_ca_certificates length Hex.encode
    go_fdo_server.Prelude.◌=ᵇ◌ go_fdo_server.DeviceCa.Handlers.take
    go_fdo_server.DeviceCa.Handlers.imported go_fdo_server.DeviceCa.Handlers.reload
    go_fdo_server.DeviceCa.Handlers.load_trusted_device_cas go_fdo_server.DeviceCa.parse_all
pool_filled = refl

delete_trusted_device_ca_cert-Reloaded_example :
    Reloaded x509 certificates find_all all no_content
      (certificate_of (1 ∷ []) ∷ [])
      (delete_trusted_device_ca_cert x509 certificates find_all (codes "01") server)
delete_trusted_device_ca_cert-Reloaded_example =
    delete_trusted_device_ca_cert-Reloaded x509 certificates find_all all find_all-FindsAll
      (codes "01") server
