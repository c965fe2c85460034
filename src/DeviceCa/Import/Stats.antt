-- ===== src/DeviceCa/Import/Stats.antt =====
-- The counters of an import.
use go_fdo_server.Prelude.{
  ℕ, zero, suc, ◌+◌, ◌≡◌, inl, inr, [], ◌∷◌, Bytes, codes, Result, ok, err, length, length-append,
  ltb, ◌=ᵇ◌, arith, refl, Result-cases, Option-cases, Bool-cases,
}
use go_fdo_server.Prelude.Action.{Holds, Holds-continue, pure}
use go_fdo_server.Prelude.Table.{DbError, Table}
use go_fdo_server.DeviceCa.{PemBlock, Certificate, DeviceCaCertificate, X509}
use go_fdo_server.DeviceCa.Import.{
  Drivers, is_duplicate_error, ImportMessage, ImportStats, no_stats, count_malformed, count_skipped,
  count_imported, db_cert, created, import_certificate, import_block, import_from, after_block,
  import_device_ca_certificates,
}
use go_fdo_server.DeviceCa.Import.Fuel.{import_from_end, import_from_block}

-- The detected certificates, which are those that parse, were imported or skipped, there is one
-- message for each CERTIFICATE block, and the certificates that are listed are the imported ones.
abbrev pub AreConsistent : ImportStats → Type 0
AreConsistent st =
    (st.detected ≡ st.imported + st.skipped)
    × (length st.messages ≡ st.detected + st.malformed)
    × (length st.certificates ≡ st.imported)

no_stats-AreConsistent : AreConsistent no_stats
unfolding length
no_stats-AreConsistent = (refl, refl, refl)

count_malformed-AreConsistent :
    (position : ℕ) (st : ImportStats)
    → AreConsistent st
    → AreConsistent (count_malformed position st)
unfolding count_malformed length
count_malformed-AreConsistent position st (a, b, c) =
    (a, ground (arith, length-append st.messages (ImportMessage.is_malformed position ∷ [])), c)

count_skipped-AreConsistent :
    (m : ImportMessage) (st : ImportStats) → AreConsistent st → AreConsistent (count_skipped m st)
unfolding count_skipped length
count_skipped-AreConsistent m st (a, b, c) =
    (ground arith, ground (arith, length-append st.messages (m ∷ [])), c)

count_imported-AreConsistent :
    (position : ℕ) (cert : DeviceCaCertificate) (st : ImportStats)
    → AreConsistent st
    → AreConsistent (count_imported position cert st)
unfolding count_imported length
count_imported-AreConsistent position cert st (a, b, c) = (
  ground arith,
  ground (arith, length-append st.messages (ImportMessage.was_imported position cert.subject ∷ [])),
  ground (arith, length-append st.certificates (cert ∷ [])),
)

module _ {S : Type 0} (x : X509) (t : Table S DeviceCaCertificate) (d : Drivers) where
  created-Holds :
      (position : ℕ) (cert : DeviceCaCertificate) (st : ImportStats) (r : Result DbError (Unit {0}))
      → AreConsistent st
      → Holds AreConsistent (created x t d position cert st r)
  unfolding created
  created-Holds position cert st (ok _) k = count_imported-AreConsistent position cert st k
  created-Holds position cert st (err e) k = elim (Bool-cases (is_duplicate_error d e)) [
    | inl duplicate ↦
        rw duplicate
          (count_skipped-AreConsistent (ImportMessage.already_exists position cert.subject) st k)
    | inr other ↦ rw other tt
  ]

  import_certificate-Holds :
      (position now : ℕ) (cert : Certificate) (st : ImportStats) (s : S)
      → AreConsistent st
      → Holds AreConsistent (import_certificate x t d position now cert st s).0
  unfolding import_certificate
  import_certificate-Holds position now cert st s k =
      let row = db_cert x t d cert in
      let counted = t.count row.fingerprint s in
      let expired =
        count_skipped-AreConsistent (ImportMessage.is_expired position cert.subject) st k in
      let exists =
        count_skipped-AreConsistent (ImportMessage.already_exists position cert.subject) st k in
      elim (Bool-cases (ltb cert.not_after now)) [
        | inl late ↦ rw late expired
        | inr valid ↦ elim (Result-cases counted.0) [
          | inl (e, bad) ↦ rw (valid, bad) tt
          | inr (n, good) ↦ elim (Bool-cases (ltb 0 n)) [
            | inl some_rows ↦ rw (valid, good, some_rows) exists
            | inr no_rows ↦
                rw (valid, good, no_rows)
                  (created-Holds position row st (t.create row.fingerprint row counted.1).0 k)
          ]
        ]
      ]

  import_block-Holds :
      (now_at : ℕ → ℕ) (position : ℕ) (block : PemBlock) (st : ImportStats) (s : S)
      → AreConsistent st
      → Holds (λ next. AreConsistent next.1) (import_block x t d now_at position block st s).0
  unfolding import_block
  import_block-Holds now_at position block st s k =
      elim (Bool-cases (block.block_type =ᵇ codes "CERTIFICATE")) [
        | inr other ↦ rw other k
        | inl certificate ↦ elim (Option-cases (x.parse_certificate block.bytes)) [
          | inl bad ↦ rw (certificate, bad) (count_malformed-AreConsistent (suc position) st k)
          | inr (cert, parsed) ↦
              let done =
                import_certificate x t d (suc position) (now_at (suc position)) cert st s in
              let holds =
                import_certificate-Holds (suc position) (now_at (suc position)) cert st s k in
              rw (certificate, parsed)
                (Holds-continue AreConsistent (λ next. AreConsistent next.1) done.0
                  (λ st'. pure (suc position, st')) done.1 holds (λ st' h. h))
        ]
      ]

  import_from-Holds :
      (now_at : ℕ → ℕ) (fuel position : ℕ) (remaining : Bytes) (st : ImportStats) (s : S)
      → AreConsistent st
      → Holds AreConsistent (import_from x t d now_at fuel position remaining st s).0
  unfolding import_from after_block
  import_from-Holds now_at zero position remaining st s k = k
  import_from-Holds now_at (suc fuel) position remaining st s k =
      elim (Option-cases (x.pem_decode remaining)) [
        | inl none_left ↦ rw (import_from_end x t d now_at fuel position remaining st s none_left) k
        | inr (b, found) ↦
            let done = import_block x t d now_at position b.0 st s in
            rw (import_from_block x t d now_at fuel position remaining st s found) (
              Holds-continue (λ next. AreConsistent next.1) AreConsistent done.0
                (λ next. import_from x t d now_at fuel next.0 b.1 next.1) done.1
                (import_block-Holds now_at position b.0 st s k)
                (λ next h. import_from-Holds now_at fuel next.0 b.1 next.1 done.1 h))
      ]

  -- An import that ends without an error reports consistent counters: the detected certificates,
  -- which do not include the malformed ones, are the imported and the skipped ones, there is one
  -- message for each of these and for each malformed one, and as many certificates are listed as
  -- were imported.
  pub import_device_ca_certificates-AreConsistent :
      (now_at : ℕ → ℕ) (pem_data : Bytes) (s : S) {st : ImportStats}
      → (import_device_ca_certificates x t d now_at pem_data s).0 ≡ ok st
      → AreConsistent st
  unfolding import_device_ca_certificates
  import_device_ca_certificates-AreConsistent now_at pem_data s h =
      let holds =
        import_from-Holds now_at (suc (length pem_data)) 0 pem_data no_stats s
          no_stats-AreConsistent in
      (rw h at holds)
