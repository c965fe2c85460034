-- ===== src/DeviceCa/Import/Stored.antt =====
-- What an import does to the stored certificates.
use go_fdo_server.Prelude.{
  ℕ, zero, suc, ◌≡◌, ◌∙◌, inl, inr, some, Bytes, codes, Result, ok, err, length, ltb, ◌=ᵇ◌, =ᵇ_iff,
  arith, refl, Option-cases, Result-cases, Bool-cases,
}
use go_fdo_server.Prelude.Action.{continue, pure}
use go_fdo_server.Prelude.Table.{Table}
use go_fdo_server.DeviceCa.{PemBlock, Certificate, DeviceCaCertificate, X509, DeviceCaError}
use go_fdo_server.DeviceCa.Import.{
  Drivers, ImportStats, no_stats, db_cert, import_certificate, import_block, import_from,
  after_block, import_device_ca_certificates,
}
use go_fdo_server.DeviceCa.Import.Fuel.{import_from_end, import_from_block}

module _ {S : Type 0} (x : X509) (t : Table S DeviceCaCertificate) (d : Drivers) where
  -- A row is not written over: the key of a row that was created was free.
  create_keeps :
      (key : Bytes) (row : DeviceCaCertificate) (s : S) (k : Bytes) {c : DeviceCaCertificate}
      → t.rows s k ≡ some c
      → t.rows (t.create key row s).1 k ≡ some c
  create_keeps key row s k h = elim (Result-cases (t.create key row s).0) [
    | inl (e, bad) ↦ rw (t.rows-create s key row k, bad) h
    | inr (u, good) ↦
        ground (arith, t.rows-create s key row k, t.create_unique s key row, =ᵇ_iff key k)
  ]

  import_certificate_keeps :
      (position now : ℕ) (cert : Certificate) (st : ImportStats) (s : S) (k : Bytes)
      {c : DeviceCaCertificate}
      → t.rows s k ≡ some c
      → t.rows (import_certificate x t d position now cert st s).1 k ≡ some c
  unfolding import_certificate
  import_certificate_keeps position now cert st s k h =
      let row = db_cert x t d cert in
      let counted = t.count row.fingerprint s in
      let still = t.rows-count s row.fingerprint k ∙ h in
      elim (Bool-cases (ltb cert.not_after now)) [
        | inl late ↦ rw late h
        | inr valid ↦ elim (Result-cases counted.0) [
          | inl (e, bad) ↦ rw (valid, bad) still
          | inr (n, good) ↦ elim (Bool-cases (ltb 0 n)) [
            | inl some_rows ↦ rw (valid, good, some_rows) still
            | inr no_rows ↦
                rw (valid, good, no_rows) (create_keeps row.fingerprint row counted.1 k still)
          ]
        ]
      ]

  continue-pure :
      {E A B : Type 0} (r : Result E A) (f : A → B) (s : S) → (continue r (λ a. pure (f a)) s).1 ≡ s
  continue-pure (ok a) f s = refl
  continue-pure (err e) f s = refl

  import_block_keeps :
      (now_at : ℕ → ℕ) (position : ℕ) (block : PemBlock) (st : ImportStats) (s : S) (k : Bytes)
      {c : DeviceCaCertificate}
      → t.rows s k ≡ some c
      → t.rows (import_block x t d now_at position block st s).1 k ≡ some c
  unfolding import_block
  import_block_keeps now_at position block st s k h =
      elim (Bool-cases (block.block_type =ᵇ codes "CERTIFICATE")) [
        | inr other ↦ rw other h
        | inl certificate ↦ elim (Option-cases (x.parse_certificate block.bytes)) [
          | inl bad ↦ rw (certificate, bad) h
          | inr (cert, parsed) ↦
              let done =
                import_certificate x t d (suc position) (now_at (suc position)) cert st s in
              rw
                (
                  certificate,
                  parsed,
                  continue-pure {B = ℕ × ImportStats} done.0 (λ st'. (suc position, st')) done.1,
                )
                (import_certificate_keeps (suc position) (now_at (suc position)) cert st s k h)
        ]
      ]

  after_block_keeps :
      (now_at : ℕ → ℕ) (fuel : ℕ) (b : PemBlock × Bytes)
      (r : Result DeviceCaError (ℕ × ImportStats)) (s : S) (k : Bytes) {c : DeviceCaCertificate}
      → t.rows s k ≡ some c
      → ((next : ℕ × ImportStats)
          → t.rows (import_from x t d now_at fuel next.0 b.1 next.1 s).1 k ≡ some c)
      → t.rows (after_block x t d now_at fuel b r s).1 k ≡ some c
  unfolding after_block
  after_block_keeps now_at fuel b (ok next) s k h f = f next
  after_block_keeps now_at fuel b (err e) s k h f = h

  import_from_keeps :
      (now_at : ℕ → ℕ) (fuel position : ℕ) (remaining : Bytes) (st : ImportStats) (s : S)
      (k : Bytes) {c : DeviceCaCertificate}
      → t.rows s k ≡ some c
      → t.rows (import_from x t d now_at fuel position remaining st s).1 k ≡ some c
  unfolding import_from
  import_from_keeps now_at zero position remaining st s k h = h
  import_from_keeps now_at (suc fuel) position remaining st s k h =
      elim (Option-cases (x.pem_decode remaining)) [
        | inl none_left ↦ rw (import_from_end x t d now_at fuel position remaining st s none_left) h
        | inr (b, found) ↦
            let done = import_block x t d now_at position b.0 st s in
            let kept = import_block_keeps now_at position b.0 st s k h in
            rw (import_from_block x t d now_at fuel position remaining st s found) (
              after_block_keeps now_at fuel b done.0 done.1 k kept
                (λ next. import_from_keeps now_at fuel next.0 b.1 next.1 done.1 k kept))
      ]

  -- An import changes and removes no certificate that is stored, whatever the text holds and
  -- whether the import succeeds or fails.
  pub import_device_ca_certificates-keeps :
      (now_at : ℕ → ℕ) (pem_data : Bytes) (s : S) (k : Bytes) {c : DeviceCaCertificate}
      → t.rows s k ≡ some c
      → t.rows (import_device_ca_certificates x t d now_at pem_data s).1 k ≡ some c
  unfolding import_device_ca_certificates
  import_device_ca_certificates-keeps now_at pem_data s k h =
      import_from_keeps now_at (suc (length pem_data)) 0 pem_data no_stats s k h
