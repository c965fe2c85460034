-- ===== src/Vouchers/Api/Insert/Fuel.antt =====
-- The steps of the loop of `InsertVoucherHandler`, and that its fuel is enough.
use go_fdo_server.Prelude.{
  ℕ, zero, suc, ◌<◌, ◌≡◌, inl, inr, Option, none, some, List, Bytes, length, Option-cases, arith,
}
use go_fdo_server.Prelude.Table.{Table}
use go_fdo_server.Prelude.Transaction.{Transactions}
use go_fdo_server.DeviceCa.{PemBlock, X509}
use go_fdo_server.Singleton.Http.{Response}
use go_fdo_server.To0.Scheduler.{DeviceOnboarding}
use go_fdo_server.Vouchers.{Voucher}
use go_fdo_server.Vouchers.Verify.{VoucherLibrary}
use go_fdo_server.Vouchers.Api.{FindVouchers}
use go_fdo_server.Vouchers.Api.Insert.{
  insert_block, insert_from, rest_response, insert_voucher_handler,
}

module _ {S V Key : Type 0} (lib : VoucherLibrary V Key) (x509 : X509) (find : FindVouchers S)
    (x : Transactions S) (vouchers : Table S Voucher) (onboarding : Table S DeviceOnboarding)
    (keys : List Key) (now : ℕ) (trim_space : Bytes → Bytes) where
  loop : ℕ → Bytes → S → Response × S
  loop = insert_from lib x509 find x vouchers onboarding keys now trim_space

  -- What follows a block, by the block's own result.
  abbrev pub after_block : ℕ → Bytes → Option Response → S → Response × S
  after_block fuel rest (some response) s = (response, s)
  after_block fuel rest none s =
      insert_from lib x509 find x vouchers onboarding keys now trim_space fuel rest s

  pub insert_from_end :
      (fuel : ℕ) (remaining : Bytes) (s : S)
      → x509.pem_decode remaining ≡ none
      → insert_from lib x509 find x vouchers onboarding keys now trim_space (suc fuel) remaining s
        ≡ (rest_response lib x509 find x vouchers onboarding keys now (trim_space remaining), s)
  unfolding insert_from
  insert_from_end fuel remaining s end = rw (end, insert_from)

  pub insert_from_block :
      (fuel : ℕ) (remaining : Bytes) (s : S) {b : PemBlock × Bytes}
      → x509.pem_decode remaining ≡ some b
      → insert_from lib x509 find x vouchers onboarding keys now trim_space (suc fuel) remaining s
        ≡ after_block fuel b.1
            (insert_block lib x509 find x vouchers onboarding keys now b.0 s).0
            (insert_block lib x509 find x vouchers onboarding keys now b.0 s).1
  unfolding insert_from
  insert_from_block fuel remaining s {b} found =
      elim (Option-cases (insert_block lib x509 find x vouchers onboarding keys now b.0 s).0) [
        | inl go_on ↦ rw (found, insert_from, go_on)
        | inr (response, stop) ↦ rw (found, insert_from, stop)
      ]

  insert_from_fuel :
      (fuel more : ℕ) (remaining : Bytes) (s : S)
      → length remaining < fuel
      → length remaining < more
      → loop fuel remaining s ≡ loop more remaining s
  unfolding loop
  insert_from_fuel zero more remaining s h k = ground arith
  insert_from_fuel (suc fuel) zero remaining s h k = ground arith
  insert_from_fuel (suc fuel) (suc more) remaining s h k =
      elim (Option-cases (x509.pem_decode remaining)) [
        | inl end ↦ rw (insert_from_end fuel remaining s end, insert_from_end more remaining s end)
        | inr ((block, rest), found) ↦
            let shorter = x509.pem_decode_shorter remaining found in
            let done = insert_block lib x509 find x vouchers onboarding keys now block s in
            let step = insert_from_block fuel remaining s found in
            let step' = insert_from_block more remaining s found in
            elim (Option-cases done.0) [
              | inr (response, stop) ↦ rw (step, step', stop, after_block)
              | inl go_on ↦
                  rw (step, step', go_on, after_block)
                    (insert_from_fuel fuel more rest done.1 (omega arith) (omega arith))
            ]
      ]

  -- The fuel of the handler is enough: any larger amount gives the same response and state.
  pub insert_voucher_handler_fuel :
      (fuel : ℕ) (body : Bytes) (s : S)
      → length body < fuel
      → insert_from lib x509 find x vouchers onboarding keys now trim_space fuel body s
        ≡ insert_voucher_handler lib x509 find x vouchers onboarding keys now trim_space
            (some body)
            s
  unfolding insert_voucher_handler loop
  insert_voucher_handler_fuel fuel body s h =
      insert_from_fuel fuel (suc (length body)) body s h (omega arith)
