-- ===== src/DeviceCa/Removal.antt =====
-- A device CA certificate that was deleted.
use go_fdo_server.Prelude.{
  ℕ, ◌≡◌, ◌⊎◌, inl, inr, Option, none, some, Text, Result, ok, err, map_err, ◌=ᵇ◌, if◌then◌else◌,
  arith, Result-cases,
}
use go_fdo_server.Prelude.Table.{DbError, failed, Table, Answers}
use go_fdo_server.DeviceCa.{
  DeviceCaCertificate, X509, DeviceCaError, not_found, get_failed, get_error,
  get_device_ca_certificate, delete_device_ca_certificate,
}

-- The row under a fingerprint, as a lookup answers it.
abbrev pub stored : Option DeviceCaCertificate → Result DeviceCaError DeviceCaCertificate
stored none = err not_found
stored (some c) = ok c

-- The answer of a lookup is the expected one, unless the database fails.
abbrev pub Shows :
    Result DeviceCaError DeviceCaCertificate → Result DeviceCaError DeviceCaCertificate → Type 0
Shows expected r = (r ≡ expected) ⊎ ((n : ℕ) × (r ≡ err (get_failed (failed n))))

module _ {S : Type 0} (x : X509) (t : Table S DeviceCaCertificate) where
  Answers-Shows :
      (o : Option DeviceCaCertificate) (a : Result DbError DeviceCaCertificate)
      → Answers o a
      → Shows (stored o) (map_err (get_error x t) a)
  unfolding get_error
  Answers-Shows (some c) a (inl e) = inl (rw e)
  Answers-Shows (some c) a (inr (n, e)) = inr (n, rw e)
  Answers-Shows none a (inl e) = inl (rw e)
  Answers-Shows none a (inr (n, e)) = inr (n, rw e)

  get_device_ca_certificate-Shows :
      (fingerprint : Text) (s : S)
      → Shows (stored (t.rows s fingerprint)) (get_device_ca_certificate x t fingerprint s).0
  unfolding get_device_ca_certificate
  get_device_ca_certificate-Shows fingerprint s =
      Answers-Shows (t.rows s fingerprint) (t.first fingerprint s).0 (t.first_law s fingerprint)

  -- What a successful deletion leaves under a fingerprint.
  delete_device_ca_certificate_rows :
      (fingerprint other : Text) (s : S)
      → (delete_device_ca_certificate x t fingerprint s).0 ≡ ok tt
      → t.rows (delete_device_ca_certificate x t fingerprint s).1 other
        ≡ (if fingerprint =ᵇ other then none else t.rows s other)
  unfolding delete_device_ca_certificate
  delete_device_ca_certificate_rows fingerprint other s h =
      elim (Result-cases (t.delete fingerprint s).0) [
        | inl (e, bad) ↦ ground arith
        | inr (n, good) ↦ ground (arith, t.rows-delete s fingerprint other)
      ]

  -- After a deletion that succeeds, a lookup of the fingerprint finds nothing and a lookup of any
  -- other fingerprint finds what was stored before, unless the database fails.
  pub get_device_ca_certificate-delete_device_ca_certificate :
      (fingerprint other : Text) (s : S)
      → (delete_device_ca_certificate x t fingerprint s).0 ≡ ok tt
      → Shows
          (if fingerprint =ᵇ other then err not_found else stored (t.rows s other))
          (get_device_ca_certificate x t other (delete_device_ca_certificate x t fingerprint s).1).0
  get_device_ca_certificate-delete_device_ca_certificate fingerprint other s h =
      let after = (delete_device_ca_certificate x t fingerprint s).1 in
      let expected : stored (t.rows after other)
          ≡ (if fingerprint =ᵇ other then err not_found else stored (t.rows s other)) =
        ground (arith, delete_device_ca_certificate_rows fingerprint other s h) in
      rw (← expected) (get_device_ca_certificate-Shows other after)
