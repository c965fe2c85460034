-- ===== src/DeviceCa/Import.antt =====
-- `ImportDeviceCACertificates` of internal/state/deviceca.go. Its loop runs on fuel; one more than
-- the length of the text is enough, since every block makes the rest shorter.
pub mod Fuel
pub mod Stats
pub mod Stored
use go_fdo_server.Prelude.{
  ℕ, zero, suc, ◌+◌, ◌≡◌, ◌==◌, Bool, false, Option, none, some, List, [], ◌∷◌, ◌++◌, Bytes, Text,
  codes, Result, ok, err, map_err, length, ltb, ◌=ᵇ◌, if◌then◌else◌,
}
use go_fdo_server.Prelude.Hex
use go_fdo_server.Prelude.Action.{Action, lift, raise, pure, handle, continue, ◌>>=◌}
use go_fdo_server.Prelude.Table.{DbError, Table}
use go_fdo_server.DeviceCa.{
  PemBlock, Certificate, DeviceCaCertificate, X509, DeviceCaError, count_failed, create_failed,
}

pub data ImportMessage : Type 0 where
  is_malformed : ℕ → ImportMessage
  is_expired already_exists was_imported : ℕ → Text → ImportMessage

pub record ImportStats : Type 0 where
  pub detected : ℕ
  pub imported : ℕ
  pub skipped : ℕ
  pub malformed : ℕ
  pub messages : List ImportMessage
  pub certificates : List DeviceCaCertificate

abbrev pub no_stats : ImportStats
no_stats = record {
  detected = 0;
  imported = 0;
  skipped = 0;
  malformed = 0;
  messages = [];
  certificates = [];
}

-- The updates of the four outcomes of a CERTIFICATE block.
pub count_malformed : ℕ → ImportStats → ImportStats
count_malformed position st = record {
  detected = st.detected;
  imported = st.imported;
  skipped = st.skipped;
  malformed = st.malformed + 1;
  messages = st.messages ++ is_malformed position ∷ [];
  certificates = st.certificates;
}

pub count_skipped : ImportMessage → ImportStats → ImportStats
count_skipped message st = record {
  detected = st.detected + 1;
  imported = st.imported;
  skipped = st.skipped + 1;
  malformed = st.malformed;
  messages = st.messages ++ message ∷ [];
  certificates = st.certificates;
}

pub count_imported : ℕ → DeviceCaCertificate → ImportStats → ImportStats
count_imported position cert st = record {
  detected = st.detected + 1;
  imported = st.imported + 1;
  skipped = st.skipped;
  malformed = st.malformed;
  messages = st.messages ++ was_imported position cert.subject ∷ [];
  certificates = st.certificates ++ cert ∷ [];
}

-- What `errors.As` finds of an error: the code of a PostgreSQL error, and that of an SQLite error,
-- where `sqlite3.ErrConstraint` is one of the codes.
pub record Drivers : Type 0 where
  pub pg_code : DbError → Option Text
  pub sqlite_code : DbError → Option ℕ
  pub err_constraint : ℕ

is_duplicate_error : Drivers → DbError → Bool
is_duplicate_error d e = elim (d.pg_code e) [
  | some code ↦ code =ᵇ codes "23505"
  | none ↦ elim (d.sqlite_code e) [ some code ↦ code == d.err_constraint | none ↦ false ]
]

module _ {S : Type 0} (x : X509) (t : Table S DeviceCaCertificate) (d : Drivers) where
  -- The record of a certificate.
  pub db_cert : Certificate → DeviceCaCertificate
  db_cert cert = record {
    fingerprint = Hex.encode (x.sum256 cert.raw);
    pem = x.pem_encode (record { block_type = codes "CERTIFICATE"; bytes = cert.raw });
    subject = cert.subject;
    issuer = cert.issuer;
    not_before = cert.not_before;
    not_after = cert.not_after;
  }

  created :
      ℕ
      → DeviceCaCertificate
      → ImportStats
      → Result DbError (Unit {0})
      → Result DeviceCaError ImportStats
  unfolding count_skipped count_imported is_duplicate_error
  created position cert st (ok _) = ok (count_imported position cert st)
  created position cert st (err e) =
      if is_duplicate_error d e
      then ok (count_skipped (already_exists position cert.subject) st)
      else err (create_failed e)

  -- One certificate that parses, at the time `now`.
  import_certificate : ℕ → ℕ → Certificate → ImportStats → Action S DeviceCaError ImportStats
  unfolding created db_cert count_skipped
  import_certificate position now cert st =
      let row = db_cert cert in
      if ltb cert.not_after now
      then pure (count_skipped (is_expired position cert.subject) st)
      else do
        existing ← handle (t.count row.fingerprint) (λ r. lift (map_err count_failed r))
        if ltb 0 existing
            then pure (count_skipped (already_exists position cert.subject) st)
            else handle (t.create row.fingerprint row) (λ r. lift (created position row st r))

  -- A block: other types are passed over without a position.
  unfoldable pub import_block :
      (ℕ → ℕ) → ℕ → PemBlock → ImportStats → Action S DeviceCaError (ℕ × ImportStats)
  unfolding import_certificate count_malformed
  import_block now_at position block st =
      if block.block_type =ᵇ codes "CERTIFICATE"
      then elim (x.parse_certificate block.bytes) [
        | none ↦ pure (suc position, count_malformed (suc position) st)
        | some cert ↦ do
          st' ← import_certificate (suc position) (now_at (suc position)) cert st
          pure (suc position, st')
      ]
      else pure (position, st)

  -- `now_at` is the time that is read at each position.
  unfoldable pub import_from :
      (ℕ → ℕ) → ℕ → ℕ → Bytes → ImportStats → Action S DeviceCaError ImportStats
  unfolding import_block
  import_from now_at zero position remaining st = pure st
  import_from now_at (suc fuel) position remaining st = elim (x.pem_decode remaining) [
    | none ↦ pure st
    | some b ↦ do
      next ← import_block now_at position b.0 st
      import_from now_at fuel next.0 b.1 next.1
  ]

  -- What follows a block, with the result of the block's own step.
  pub after_block :
      (ℕ → ℕ)
      → ℕ
      → PemBlock × Bytes
      → Result DeviceCaError (ℕ × ImportStats)
      → S
      → Result DeviceCaError ImportStats × S
  after_block now_at fuel b r = continue r (λ next. import_from now_at fuel next.0 b.1 next.1)

  unfoldable pub import_device_ca_certificates :
      (ℕ → ℕ) → Bytes → Action S DeviceCaError ImportStats
  unfolding import_from
  import_device_ca_certificates now_at pem_data =
      import_from now_at (suc (length pem_data)) 0 pem_data no_stats
