-- ===== src/Vouchers/Storage/Insertion.antt =====
-- `InsertVoucher` stores a voucher under a free GUID together with its onboarding, or does nothing.
use go_fdo_server.Prelude.{
  ◌≡◌, ◌⊎◌, inl, inr, none, some, Bytes, ok, Result-cases, ◌=ᵇ◌, if◌then◌else◌,
}
use go_fdo_server.Prelude.Table.{Table, Apart, Uncascaded, assigned}
use go_fdo_server.Prelude.Transaction.{Transactions, Transacts, transaction, transaction-Done}
use go_fdo_server.To0.Scheduler.{DeviceOnboarding}
use go_fdo_server.Vouchers.{Voucher}
use go_fdo_server.Vouchers.Storage.{db, pending, insert_body, insert_voucher}
use go_fdo_server.Vouchers.Storage.Atomic.{Fails, transaction-Fails}

module _ {S : Type 0} (vouchers : Table S Voucher) (onboarding : Table S DeviceOnboarding)
    (x : Transactions S) (vx : Transacts x vouchers) (ox : Transacts x onboarding)
    (vo : Uncascaded vouchers onboarding) (oa : Apart onboarding vouchers) where
  -- An onboarding row that is there stays as it is.
  abbrev pub Inserted : Bytes → Voucher → S → S → Type 0
  Inserted guid row s after =
      (vouchers.rows s guid ≡ none)
      × ((j : Bytes)
          → (vouchers.rows after j ≡ (if guid =ᵇ j then some row else vouchers.rows s j))
            × (onboarding.rows after j ≡ (
                if guid =ᵇ j
                then some (assigned pending (λ old. old) (onboarding.rows s j))
                else onboarding.rows s j)))

  insert_body_inv :
      (guid : Bytes) (row : Voucher) (s : S)
      → (insert_body x vouchers onboarding guid row s).0 ≡ ok tt
      → Inserted guid row s (insert_body x vouchers onboarding guid row s).1
  unfolding insert_body
  insert_body_inv guid row s h =
      let s1 = (vouchers.create guid row s).1 in
      elim (Result-cases (vouchers.create guid row s).0) [
        | inl (e, bad) ↦ cc (rw bad at h)
        | inr (u, good) ↦
            elim (Result-cases (onboarding.first_or_create guid pending (λ old. old) s1).0) [
              | inl (e, bad) ↦ cc (rw (good, bad) at h)
              | inr (w, good') ↦ (
                vouchers.create_unique s guid row good,
                λ j. (
                  rw (
                    good,
                    oa.rows_after_first_or_create s1 guid pending (λ old. old) j,
                    vouchers.rows-create s guid row j,
                    good,
                  ),
                  rw (
                    good,
                    onboarding.rows-first_or_create s1 guid pending (λ old. old) j,
                    good',
                    vo.rows_after_create s guid row j,
                  ),
                ),
              )
            ]
      ]

  pub insert_voucher-Inserted :
      (guid : Bytes) (row : Voucher) (s : S)
      → let r = insert_voucher x vouchers onboarding guid row s in
        ((r.0 ≡ ok tt) × Inserted guid row s r.1) ⊎ Fails vouchers onboarding x vx ox s r
  unfolding insert_voucher
  insert_voucher-Inserted guid row s =
      let body = insert_body x vouchers onboarding guid row in
      elim (Result-cases (transaction x db body s).0) [
        | inl (e, bad) ↦ inr (transaction-Fails vouchers onboarding x vx ox body s bad)
        | inr (u, good) ↦
            let (done, _) = transaction-Done x db vouchers vx body s guid good in
            let (free, rows) = insert_body_inv guid row s done in
            inl (
              good,
              (
                free,
                λ j.
                    let (_, vrows) = transaction-Done x db vouchers vx body s j good in
                    let (_, orows) = transaction-Done x db onboarding ox body s j good in
                    rw (vrows, orows) (rows j),
              ),
            )
      ]
