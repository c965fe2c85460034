-- ===== src/Vouchers/Storage/Atomic.antt =====
-- The transactions on vouchers do all that they are meant to, or nothing.
use go_fdo_server.Prelude.{
  ℕ, ◌≡◌, ◌⊎◌, inl, inr, refl, Option, none, some, Bytes, Result, ok, err, Result-cases,
  Option-cases, ◌=ᵇ◌, if◌then◌else◌,
}
use go_fdo_server.Prelude.Action.{Action}
use go_fdo_server.Prelude.Table.{Table, Apart, Uncascaded, assigned}
use go_fdo_server.Prelude.Transaction.{
  Transactions, Transacts, transaction, transaction-Undone, transaction-Done,
}
use go_fdo_server.To0.Scheduler.{DeviceOnboarding}
use go_fdo_server.Vouchers.{Voucher}
use go_fdo_server.Vouchers.Storage.{
  VoucherError, VoucherCodec, db, cannot_marshal, replaced_by, voucher_row, replace_body,
  replace_voucher,
}

assigned_same : {R : Type 0} (r : R) (o : Option R) → assigned r (λ old. r) o ≡ r
assigned_same r none = refl
assigned_same r (some old) = refl

module _ {S : Type 0} (vouchers : Table S Voucher) (onboarding : Table S DeviceOnboarding)
    (x : Transactions S) (vx : Transacts x vouchers) (ox : Transacts x onboarding) where
  -- Both tables are as they were.
  abbrev pub Unchanged : S → S → Type 0
  Unchanged s after =
      (j : Bytes)
      → (vouchers.rows after j ≡ vouchers.rows s j)
        × (onboarding.rows after j ≡ onboarding.rows s j)

  abbrev pub Fails : {A : Type 0} → S → Result VoucherError A × S → Type 0
  Fails s r = (e : VoucherError) × (r.0 ≡ err e) × Unchanged s r.1

  pub transaction-Fails :
      {A : Type 0} (body : Action S VoucherError A) (s : S) {e : VoucherError}
      → (transaction x db body s).0 ≡ err e
      → Fails s (transaction x db body s)
  transaction-Fails body s {e} h = (
    e,
    h,
    λ j. (
      transaction-Undone x db vouchers vx body s j h,
      transaction-Undone x db onboarding ox body s j h,
    ),
  )

module _ {S V : Type 0} (c : VoucherCodec V) (vouchers : Table S Voucher)
    (onboarding : Table S DeviceOnboarding) (x : Transactions S) (vx : Transacts x vouchers)
    (ox : Transacts x onboarding) (vo : Uncascaded vouchers onboarding)
    (oa : Apart onboarding vouchers) where
  -- The rows of vouchers and of device_onboarding after a replacement.
  abbrev pub Replaced : ℕ → ℕ → Bytes → V → Bytes → S → S → Type 0
  Replaced now completed_at guid ov cbor s after =
      (j : Bytes)
      → (vouchers.rows after j ≡ (
          if c.guid_of ov =ᵇ j
          then some (voucher_row c vouchers now ov cbor)
          else (if guid =ᵇ j then none else vouchers.rows s j)))
        × (onboarding.rows after j ≡ (
            if guid =ᵇ j
            then some (replaced_by (c.guid_of ov) completed_at)
            else onboarding.rows s j))

  replace_body_inv :
      (now completed_at : ℕ) (guid : Bytes) (ov : V) (cbor : Bytes) (s : S)
      → (replace_body c vouchers x onboarding now completed_at guid ov cbor s).0 ≡ ok tt
      → Replaced now completed_at guid ov cbor s
          (replace_body c vouchers x onboarding now completed_at guid ov cbor s).1
  unfolding replace_body
  replace_body_inv now completed_at guid ov cbor s h j =
      let row = voucher_row c vouchers now ov cbor in
      let s1 = (vouchers.delete guid s).1 in
      let s2 = (vouchers.create (c.guid_of ov) row s1).1 in
      let done = replaced_by (c.guid_of ov) completed_at in
      elim (Result-cases (vouchers.delete guid s).0) [
        | inl (e, bad) ↦ cc (rw bad at h)
        | inr (n, good) ↦ elim (Result-cases (vouchers.create (c.guid_of ov) row s1).0) [
          | inl (e, bad) ↦ cc (rw (good, bad) at h)
          | inr (u, good') ↦
              elim (Result-cases (onboarding.first_or_create guid done (λ old. done) s2).0) [
                | inl (e, bad) ↦ cc (rw (good, good', bad) at h)
                | inr (w, good'') ↦ (
                  rw (
                    good,
                    good',
                    oa.rows_after_first_or_create s2 guid done (λ old. done) j,
                    vouchers.rows-create s1 (c.guid_of ov) row j,
                    good',
                    vouchers.rows-delete s guid j,
                    good,
                  ),
                  rw (
                    good,
                    good',
                    onboarding.rows-first_or_create s2 guid done (λ old. done) j,
                    good'',
                    assigned_same done (onboarding.rows s2 j),
                    vo.rows_after_create s1 (c.guid_of ov) row j,
                    vo.rows_after_delete s guid j,
                  ),
                )
              ]
        ]
      ]

  -- A replacement removes the old voucher, stores the new one, and marks the onboarding of the old GUID
  -- as completed with the new GUID, or it fails and changes nothing. No other row changes. (A commit
  -- keeps the rows, a rollback restores them, and nothing cascades between the two tables.)
  pub replace_voucher-Replaced :
      (now completed_at : ℕ) (guid : Bytes) (ov : V) (s : S)
      → let r = replace_voucher c vouchers x onboarding now completed_at guid ov s in
        ((cbor : Bytes) × (c.cbor.marshal ov ≡ some cbor)
          × (r.0 ≡ ok tt)
          × Replaced now completed_at guid ov cbor s r.1)
        ⊎ Fails vouchers onboarding x vx ox s r
  unfolding replace_voucher
  replace_voucher-Replaced now completed_at guid ov s = elim (Option-cases (c.cbor.marshal ov)) [
    | inl bad ↦ inr (cannot_marshal, rw bad, λ j. rw bad (refl, refl))
    | inr (cbor, marshalled) ↦
        let body = replace_body c vouchers x onboarding now completed_at guid ov cbor in
        elim (Result-cases (transaction x db body s).0) [
          | inl (e, bad) ↦
              inr (rw marshalled (transaction-Fails vouchers onboarding x vx ox body s bad))
          | inr (u, good) ↦ inl (
            cbor,
            marshalled,
            rw (marshalled, good),
            λ j.
                let (done, vrows) = transaction-Done x db vouchers vx body s j good in
                let (_, orows) = transaction-Done x db onboarding ox body s j good in
                rw (marshalled, vrows, orows)
                  (replace_body_inv now completed_at guid ov cbor s done j),
          )
        ]
  ]
