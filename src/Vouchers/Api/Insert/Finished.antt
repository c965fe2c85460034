-- ===== src/Vouchers/Api/Insert/Finished.antt =====
-- What an insertion that `InsertVoucherHandler` answers with 200 has done, for the whole body.
use go_fdo_server.Prelude.{
  ℕ, zero, suc, ◌≡◌, inl, inr, refl, Bool, true, Bool-cases, Option, none, some, List, [], ◌∷◌,
  Bytes, Result, ok, err, codes, length, Result-cases, Option-cases, ◌=ᵇ◌, ◌==◌, ◌||◌,
}
use go_fdo_server.Prelude.Table.{Table, Apart, Uncascaded}
use go_fdo_server.Prelude.Transaction.{Transactions, Transacts}
use go_fdo_server.DeviceCa.{PemBlock, X509}
use go_fdo_server.Singleton.Http.{Response, answer}
use go_fdo_server.To0.Scheduler.{DeviceOnboarding}
use go_fdo_server.Vouchers.{Voucher}
use go_fdo_server.Vouchers.Storage.{VoucherError}
use go_fdo_server.Vouchers.Verify.{VoucherLibrary, verify_voucher}
use go_fdo_server.Vouchers.Api.{FindVouchers, fetch_voucher, by_guid}
use go_fdo_server.Vouchers.Api.Insert.{
  insert_new, insert_verified, insert_decoded, insert_block, insert_from, insert_voucher_handler,
  insert_response,
}
use go_fdo_server.Vouchers.Api.Insert.Fuel.{after_block, insert_from_block}
use go_fdo_server.Vouchers.Api.Insert.Kept.{
  Leaves, Kept, insert_verified_found, insert_verified_missing, insert_from-Kept,
}
use go_fdo_server.Vouchers.Api.Insert.Stores.{
  Finds, IsStored, IsDone, AreDone, insert_block_decoded, insert_block-IsDone,
}

module _ {S V Key : Type 0} (lib : VoucherLibrary V Key) (x509 : X509) (find : FindVouchers S)
    (x : Transactions S) (vouchers : Table S Voucher) (onboarding : Table S DeviceOnboarding)
    (keys : List Key) (now : ℕ) (vx : Transacts x vouchers) (ox : Transacts x onboarding)
    (vo : Uncascaded vouchers onboarding) (oa : Apart onboarding vouchers)
    (fv : Leaves find vouchers) (fo : Leaves find onboarding) (fs : Finds find vouchers) where
  -- What is stored stays.
  Kept-IsStored :
      (s after : S) (guid : Bytes)
      → Kept lib x509 find x vouchers onboarding keys now vx ox vo oa fv fo s after
      → IsStored (vouchers.rows s guid)
      → IsStored (vouchers.rows after guid)
  Kept-IsStored s after guid k h = elim (k guid) [
    | inl (v, o) ↦ rw v h
    | inr (free, onboard, new) ↦ absurd (rw free at h)
  ]

  Kept-IsDone :
      (block : PemBlock) (s after : S)
      → Kept lib x509 find x vouchers onboarding keys now vx ox vo oa fv fo s after
      → IsDone lib x509 find x vouchers onboarding keys now vx ox vo oa fv fo fs block s
      → IsDone lib x509 find x vouchers onboarding keys now vx ox vo oa fv fo fs block after
  Kept-IsDone block s after k (inl other) = inl other
  Kept-IsDone block s after k (inr (ov, decoded, verified, stored)) =
      inr (ov, decoded, verified, Kept-IsStored s after (lib.codec.guid_of ov) k stored)

  -- A response that ends the loop is not the one that reports success.
  abbrev is_failure : Option Response → Bool
  is_failure none = true
  is_failure (some r) = (r.status == 400) || (r.status == 500)

  insert_response_failure :
      (r : Result VoucherError (Unit {0}))
      → is_failure (insert_response lib x509 find x vouchers onboarding keys now r) ≡ true
  insert_response_failure (ok u) = refl
  insert_response_failure (err e) = refl

  insert_verified_failure :
      (ov : V) (bytes : Bytes) (s : S)
      → is_failure (insert_verified lib x509 find x vouchers onboarding keys now ov bytes s).0
        ≡ true
  insert_verified_failure ov bytes s =
      let found = fetch_voucher find (by_guid find (lib.codec.guid_of ov)) s in
      elim (Result-cases found.0) [
        | inr (row, there) ↦
            rw
              (insert_verified_found lib x509 find x vouchers onboarding keys now vx ox vo oa fv fo
                ov bytes s there)
              refl
        | inl (e, missing) ↦
            rw
              (insert_verified_missing lib x509 find x vouchers onboarding keys now vx ox vo oa fv
                fo ov bytes s missing)
              (unfold insert_new in insert_response_failure _)
      ]

  insert_decoded_failure :
      (ov : V) (bytes : Bytes) (s : S)
      → is_failure (insert_decoded lib x509 find x vouchers onboarding keys now ov bytes s).0 ≡ true
  insert_decoded_failure ov bytes s = elim (Result-cases (verify_voucher lib ov keys)) [
    | inl (e, bad) ↦ unfold insert_decoded in rw (bad, insert_decoded) refl
    | inr (u, good) ↦
        unfold insert_decoded in rw (good, insert_decoded) (insert_verified_failure ov bytes s)
  ]

  insert_block_failure :
      (block : PemBlock) (s : S)
      → is_failure (insert_block lib x509 find x vouchers onboarding keys now block s).0 ≡ true
  insert_block_failure block s = elim (Bool-cases (block.block_type =ᵇ codes "OWNERSHIP VOUCHER")) [
    | inr other ↦ unfold insert_block in rw (other, insert_block) refl
    | inl voucher ↦ elim (Option-cases (lib.codec.cbor.unmarshal block.bytes)) [
      | inl bad ↦ unfold insert_block in rw (voucher, bad, insert_block) refl
      | inr (ov, decoded) ↦
          rw
            (insert_block_decoded lib x509 find x vouchers onboarding keys now vx ox vo oa fv fo fs
              block ov s voucher decoded)
            (insert_decoded_failure ov block.bytes s)
    ]
  ]

  -- The blocks that the loop meets.
  abbrev pub pem_blocks : ℕ → Bytes → List PemBlock
  pem_blocks zero remaining = []
  pem_blocks (suc fuel) remaining = elim (x509.pem_decode remaining) [
    | none ↦ []
    | some b ↦ b.0 ∷ pem_blocks fuel b.1
  ]

  pem_blocks_end :
      (fuel : ℕ) (remaining : Bytes)
      → x509.pem_decode remaining ≡ none
      → pem_blocks (suc fuel) remaining ≡ []
  pem_blocks_end fuel remaining end = rw (end, pem_blocks)

  pem_blocks_block :
      (fuel : ℕ) (remaining : Bytes) {b : PemBlock × Bytes}
      → x509.pem_decode remaining ≡ some b
      → pem_blocks (suc fuel) remaining ≡ b.0 ∷ pem_blocks fuel b.1
  pem_blocks_block fuel remaining found = rw (found, pem_blocks)

  not_success : (r : Response) → is_failure (some r) ≡ true → r ≡ answer 200 [] → ⊥
  not_success r h same = cc (rw same at h)

  module _ (trim_space : Bytes → Bytes) where
    insert_from-AreDone :
        (fuel : ℕ) (remaining : Bytes) (s : S)
        → (insert_from lib x509 find x vouchers onboarding keys now trim_space fuel remaining s).0
          ≡ answer 200 []
        → AreDone lib x509 find x vouchers onboarding keys now vx ox vo oa fv fo fs
            (pem_blocks fuel remaining)
            (insert_from lib x509 find x vouchers onboarding keys now trim_space fuel remaining s).1
    insert_from-AreDone zero remaining s h = tt
    insert_from-AreDone (suc fuel) remaining s h = elim (Option-cases (x509.pem_decode remaining)) [
      | inl end ↦ rw (pem_blocks_end fuel remaining end) tt
      | inr ((block, rest), found) ↦
          let done = insert_block lib x509 find x vouchers onboarding keys now block s in
          let step =
            insert_from_block lib x509 find x vouchers onboarding keys now trim_space fuel remaining
              s found in
          elim (Option-cases done.0) [
            | inr (response, stop) ↦
                let bad = insert_block_failure block s in
                absurd (not_success response (rw stop at bad) (rw (step, stop, after_block) at h))
            | inl go_on ↦
                let kept =
                  insert_from-Kept lib x509 find x vouchers onboarding keys now vx ox vo oa fv fo
                    trim_space fuel rest done.1 in
                let first =
                  insert_block-IsDone lib x509 find x vouchers onboarding keys now vx ox vo oa fv fo
                    fs block s go_on in
                let others =
                  insert_from-AreDone fuel rest done.1 (rw (step, go_on, after_block) at h) in
                rw (pem_blocks_block fuel remaining found, step, go_on, after_block)
                  (Kept-IsDone block done.1 _ kept first, others)
          ]
    ]

    -- When the handler answers 200, every block of the body with a voucher decodes to one that is
    -- verified and whose GUID has a row. (A query for a GUID finds the row of the GUID; otherwise as for
    -- what the handler keeps.)
    pub insert_voucher_handler-AreDone :
        (body : Bytes) (s : S)
        → (insert_voucher_handler lib x509 find x vouchers onboarding keys now trim_space
            (some body)
            s).0
          ≡ answer 200 []
        → AreDone lib x509 find x vouchers onboarding keys now vx ox vo oa fv fo fs
            (pem_blocks (suc (length body)) body)
            (insert_voucher_handler lib x509 find x vouchers onboarding keys now trim_space
              (some body)
              s).1
    unfolding insert_voucher_handler
    insert_voucher_handler-AreDone body s h = insert_from-AreDone (suc (length body)) body s h
