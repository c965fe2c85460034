-- ===== src/DeviceCa/Import/Fuel.antt =====
-- The steps of the import loop, and that its fuel is enough.
use go_fdo_server.Prelude.{
  ℕ, zero, suc, ◌<◌, ◌≡◌, inl, inr, none, some, Bytes, Result, ok, err, length, arith, refl,
  Option-cases,
}
use go_fdo_server.Prelude.Action.{continue}
use go_fdo_server.Prelude.Table.{Table}
use go_fdo_server.DeviceCa.{PemBlock, DeviceCaCertificate, X509, DeviceCaError}
use go_fdo_server.DeviceCa.Import.{
  Drivers, ImportStats, no_stats, import_block, import_from, after_block,
  import_device_ca_certificates,
}

module _ {S : Type 0} (x : X509) (t : Table S DeviceCaCertificate) (d : Drivers) where
  pub import_from_end :
      (now_at : ℕ → ℕ) (fuel position : ℕ) (remaining : Bytes) (st : ImportStats) (s : S)
      → x.pem_decode remaining ≡ none
      → import_from x t d now_at (suc fuel) position remaining st s ≡ (ok st, s)
  unfolding import_from
  import_from_end now_at fuel position remaining st s h = rw (h, import_from)

  pub import_from_block :
      (now_at : ℕ → ℕ) (fuel position : ℕ) (remaining : Bytes) (st : ImportStats) (s : S)
      {b : PemBlock × Bytes}
      → x.pem_decode remaining ≡ some b
      → import_from x t d now_at (suc fuel) position remaining st s
        ≡ after_block x t d now_at fuel b
            (import_block x t d now_at position b.0 st s).0
            (import_block x t d now_at position b.0 st s).1
  unfolding import_from after_block
  import_from_block now_at fuel position remaining st s h = rw (h, import_from)

  continue-ext :
      (r : Result DeviceCaError (ℕ × ImportStats))
      (f g : ℕ × ImportStats → S → Result DeviceCaError ImportStats × S) (s : S)
      → ((next : ℕ × ImportStats) → f next s ≡ g next s)
      → continue r f s ≡ continue r g s
  continue-ext (ok next) f g s h = h next
  continue-ext (err e) f g s h = refl

  import_from_fuel :
      (now_at : ℕ → ℕ) (fuel more position : ℕ) (remaining : Bytes) (st : ImportStats) (s : S)
      → length remaining < fuel
      → length remaining < more
      → import_from x t d now_at fuel position remaining st s
        ≡ import_from x t d now_at more position remaining st s
  unfolding after_block
  import_from_fuel now_at zero more position remaining st s h k = ground arith
  import_from_fuel now_at (suc fuel) zero position remaining st s h k = ground arith
  import_from_fuel now_at (suc fuel) (suc more) position remaining st s h k =
      elim (Option-cases (x.pem_decode remaining)) [
        | inl none_left ↦ rw (
          import_from_end now_at fuel position remaining st s none_left,
          import_from_end now_at more position remaining st s none_left,
        )
        | inr ((block, rest), found) ↦
            let shorter = x.pem_decode_shorter remaining found in
            let done = import_block x t d now_at position block st s in
            rw
              (
                import_from_block now_at fuel position remaining st s found,
                import_from_block now_at more position remaining st s found,
              )
              (continue-ext done.0 (λ next. import_from x t d now_at fuel next.0 rest next.1)
                (λ next. import_from x t d now_at more next.0 rest next.1) done.1
                (λ next.
                  import_from_fuel now_at fuel more next.0 rest next.1 done.1 (omega arith)
                    (omega arith)))
      ]

  -- The fuel of the import is enough: with any amount above the length of the text, the loop ends in
  -- the same result and state, so that it ends because no block is left.
  pub import_device_ca_certificates_fuel :
      (now_at : ℕ → ℕ) (fuel : ℕ) (pem_data : Bytes) (s : S)
      → length pem_data < fuel
      → import_from x t d now_at fuel 0 pem_data no_stats s
        ≡ import_device_ca_certificates x t d now_at pem_data s
  unfolding import_device_ca_certificates
  import_device_ca_certificates_fuel now_at fuel pem_data s h =
      import_from_fuel now_at fuel (suc (length pem_data)) 0 pem_data no_stats s h (omega arith)
