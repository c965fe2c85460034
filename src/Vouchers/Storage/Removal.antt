-- ===== src/Vouchers/Storage/Removal.antt =====
-- `RemoveVoucher` removes a voucher with its onboarding, or does nothing.
use go_fdo_server.Prelude.{
  ℕ, ◌≡◌, ◌⊎◌, inl, inr, none, some, Bytes, ok, Result-cases, Option-cases, ◌=ᵇ◌, if◌then◌else◌,
}
use go_fdo_server.Prelude.Table.{Table, Apart, Answers-some, Uncascaded}
use go_fdo_server.Prelude.Transaction.{Transactions, Transacts, transaction, transaction-Done}
use go_fdo_server.To0.Scheduler.{DeviceOnboarding}
use go_fdo_server.Vouchers.{Voucher}
use go_fdo_server.Vouchers.Storage.{VoucherCodec, db, remove_body, remove_voucher}
use go_fdo_server.Vouchers.Storage.Atomic.{Fails, transaction-Fails}

module _ {S V : Type 0} (c : VoucherCodec V) (vouchers : Table S Voucher)
    (onboarding : Table S DeviceOnboarding) (x : Transactions S) (vx : Transacts x vouchers)
    (ox : Transacts x onboarding) (vo : Uncascaded vouchers onboarding)
    (od : Uncascaded onboarding vouchers) (va : Apart vouchers onboarding) where
  -- A removal answers the voucher that was stored.
  abbrev pub Removed : Bytes → V → S → S → Type 0
  Removed guid ov s after =
      ((row : Voucher) × (vouchers.rows s guid ≡ some row) × (c.cbor.unmarshal row.cbor ≡ some ov))
      × ((j : Bytes)
          → (vouchers.rows after j ≡ (if guid =ᵇ j then none else vouchers.rows s j))
            × (onboarding.rows after j ≡ (if guid =ᵇ j then none else onboarding.rows s j)))

  remove_body_state :
      (guid : Bytes) (s : S) {row : Voucher} {ov : V} {n w : ℕ}
      → (vouchers.first guid s).0 ≡ ok row
      → c.cbor.unmarshal row.cbor ≡ some ov
      → (vouchers.delete guid (vouchers.first guid s).1).0 ≡ ok n
      → (onboarding.delete guid (vouchers.delete guid (vouchers.first guid s).1).1).0 ≡ ok w
      → (remove_body c vouchers x onboarding guid s).1
        ≡ (onboarding.delete guid (vouchers.delete guid (vouchers.first guid s).1).1).1
  unfolding remove_body
  remove_body_state guid s there decoded good good' = rw (there, decoded, good, good')

  remove_body_inv :
      (guid : Bytes) (s : S) {ov : V}
      → (remove_body c vouchers x onboarding guid s).0 ≡ ok ov
      → Removed guid ov s (remove_body c vouchers x onboarding guid s).1
  unfolding remove_body
  remove_body_inv guid s {ov} h =
      let s1 = (vouchers.first guid s).1 in
      let s2 = (vouchers.delete guid s1).1 in
      elim (Result-cases (vouchers.first guid s).0) [
        | inl (e, bad) ↦ cc (rw bad at h)
        | inr (row, there) ↦ elim (Option-cases (c.cbor.unmarshal row.cbor)) [
          | inl bad ↦ cc (rw (there, bad) at h)
          | inr (ov', decoded) ↦ elim (Result-cases (vouchers.delete guid s1).0) [
            | inl (e, bad) ↦ cc (rw (there, decoded, bad) at h)
            | inr (n, good) ↦ elim (Result-cases (onboarding.delete guid s2).0) [
              | inl (e, bad) ↦ cc (rw (there, decoded, good, bad) at h)
              | inr (w, good') ↦
                  let same : ov' ≡ ov = cc (rw (there, decoded, good, good') at h) in
                  let state = remove_body_state guid s there decoded good good' in
                  (
                    (
                      row,
                      Answers-some (vouchers.rows s guid) (vouchers.first guid s).0
                          (vouchers.first_law s guid) there,
                      rw (← same) decoded,
                    ),
                    λ j. (
                      rw (
                        state,
                        od.rows_after_delete s2 guid j,
                        vouchers.rows-delete s1 guid j,
                        good,
                        vouchers.rows-first s guid j,
                      ),
                      rw (
                        state,
                        onboarding.rows-delete s2 guid j,
                        good',
                        vo.rows_after_delete s1 guid j,
                        va.rows_after_first s guid j,
                      ),
                    ),
                  )
            ]
          ]
        ]
      ]

  -- A removal answers the voucher that was stored, and removes it and its onboarding, or it fails and
  -- changes nothing. No other row changes. (A commit keeps the rows, a rollback restores them, and
  -- nothing cascades between the two tables.)
  pub remove_voucher-Removed :
      (guid : Bytes) (s : S)
      → let r = remove_voucher c vouchers x onboarding guid s in
        ((ov : V) × (r.0 ≡ ok ov) × Removed guid ov s r.1) ⊎ Fails vouchers onboarding x vx ox s r
  unfolding remove_voucher
  remove_voucher-Removed guid s =
      let body = remove_body c vouchers x onboarding guid in
      elim (Result-cases (transaction x db body s).0) [
        | inl (e, bad) ↦ inr (transaction-Fails vouchers onboarding x vx ox body s bad)
        | inr (ov, good) ↦
            let (done, _) = transaction-Done x db vouchers vx body s guid good in
            let (stored, rows) = remove_body_inv guid s done in
            inl (
              ov,
              good,
              (
                stored,
                λ j.
                    let (_, vrows) = transaction-Done x db vouchers vx body s j good in
                    let (_, orows) = transaction-Done x db onboarding ox body s j good in
                    rw (vrows, orows) (rows j),
              ),
            )
      ]
