-- ===== src/Vouchers/Api/Insert/Kept.antt =====
-- What `InsertVoucherHandler` may do to the tables: no stored voucher is changed or removed, and what it
-- adds is verified.
use go_fdo_server.Prelude.{
  Bool, ℕ, zero, suc, ◌≡◌, ◌⊎◌, inl, inr, refl, true, Bool-cases, Option, none, some, List, Bytes,
  Text, ok, err, codes, length, Result-cases, Option-cases, ◌=ᵇ◌, =ᵇ_iff,
}
use go_fdo_server.Prelude.Table.{Table, Apart, Uncascaded, assigned}
use go_fdo_server.Prelude.Transaction.{Transactions, Transacts}
use go_fdo_server.DeviceCa.{PemBlock, X509}
use go_fdo_server.To0.Scheduler.{DeviceOnboarding}
use go_fdo_server.Vouchers.{Voucher}
use go_fdo_server.Vouchers.Storage.{pending}
use go_fdo_server.Vouchers.Storage.Insertion.{insert_voucher-Inserted}
use go_fdo_server.Vouchers.Verify.{VoucherLibrary, verify_voucher}
use go_fdo_server.Vouchers.Api.{FindVouchers, fetch_voucher, by_guid, query_vouchers, QueryError}
use go_fdo_server.Vouchers.Api.Insert.Fuel.{after_block, insert_from_end, insert_from_block}
use go_fdo_server.Vouchers.Api.Insert.{
  inserted_row, insert_new, insert_verified, insert_decoded, insert_block, insert_from,
  insert_voucher_handler,
}

-- A query leaves the rows of a table as they are.
pub record Leaves {S R : Type 0} (find : FindVouchers S) (t : Table S R) : Type 0 where
  pub rows_after_find :
      (s : S) (guid : Option Bytes) (device_info : Option Text) (include_cbor : Bool) (j : Bytes)
      → t.rows (find guid device_info include_cbor s).1 j ≡ t.rows s j

pub fetch_voucher-Leaves :
    {S R : Type 0} (find : FindVouchers S) (t : Table S R)
    → Leaves find t
    → (guid : Bytes) (s : S) (j : Bytes)
    → t.rows (fetch_voucher find (by_guid find guid) s).1 j ≡ t.rows s j
unfolding fetch_voucher query_vouchers
fetch_voucher-Leaves find t k guid s j = k.rows_after_find s (some guid) none true j

module _ {S V Key : Type 0} (lib : VoucherLibrary V Key) (x509 : X509) (find : FindVouchers S)
    (x : Transactions S) (vouchers : Table S Voucher) (onboarding : Table S DeviceOnboarding)
    (keys : List Key) (now : ℕ) (vx : Transacts x vouchers) (ox : Transacts x onboarding)
    (vo : Uncascaded vouchers onboarding) (oa : Apart onboarding vouchers)
    (fv : Leaves find vouchers) (fo : Leaves find onboarding) where
  -- A voucher that was not there: it decodes to one that is verified and has the GUID.
  abbrev pub IsNew : Bytes → S → S → Type 0
  IsNew guid s after =
      (vouchers.rows s guid ≡ none)
      × (onboarding.rows after guid ≡ some (assigned pending (λ old. old) (onboarding.rows s guid)))
      × ((row : Voucher) × (ov : V) × (vouchers.rows after guid ≡ some row)
          × (lib.codec.cbor.unmarshal row.cbor ≡ some ov)
          × (lib.codec.guid_of ov ≡ guid)
          × (verify_voucher lib ov keys ≡ ok tt))

  -- For every GUID nothing has changed, or a voucher is new.
  abbrev pub Kept : S → S → Type 0
  Kept s after =
      (guid : Bytes)
      → ((vouchers.rows after guid ≡ vouchers.rows s guid)
          × (onboarding.rows after guid ≡ onboarding.rows s guid))
        ⊎ IsNew guid s after

  Kept-trans : (s mid after : S) → Kept s mid → Kept mid after → Kept s after
  Kept-trans s mid after h k guid = elim (h guid) [
    | inl (v, o) ↦ elim (k guid) [
      | inl (v', o') ↦ inl (rw (v', v), rw (o', o))
      | inr (free, onboard, new) ↦ inr (rw v at free, rw o at onboard, new)
    ]
    | inr (free, onboard, (row, ov, there, decoded, same, verified)) ↦ elim (k guid) [
      | inl (v', o') ↦ inr (free, rw o' onboard, (row, ov, rw v' there, decoded, same, verified))
      | inr (free', onboard', new') ↦ cc (rw there at free')
    ]
  ]

  Kept-refl : (s : S) → Kept s s
  Kept-refl s guid = inl (refl, refl)

  Kept-find : (guid : Bytes) (s : S) → Kept s (fetch_voucher find (by_guid find guid) s).1
  Kept-find guid s j = inl (
    fetch_voucher-Leaves find vouchers fv guid s j,
    fetch_voucher-Leaves find onboarding fo guid s j,
  )

  insert_new-Kept :
      (ov : V) (bytes : Bytes) (s : S)
      → lib.codec.cbor.unmarshal bytes ≡ some ov
      → verify_voucher lib ov keys ≡ ok tt
      → Kept s (insert_new lib x509 find x vouchers onboarding keys now ov bytes s).1
  unfolding insert_new
  insert_new-Kept ov bytes s decoded verified guid =
      let row = inserted_row lib x509 find x vouchers onboarding keys now ov bytes in
      elim (insert_voucher-Inserted vouchers onboarding x vx ox vo oa (lib.codec.guid_of ov) row
        s) [
          | inr (e, bad, unchanged) ↦ inl (unchanged guid)
          | inl (good, (free, rows)) ↦ elim (Bool-cases (lib.codec.guid_of ov =ᵇ guid)) [
            | inr other ↦ let (v, o) = rows guid in inl (rw other at v, rw other at o)
            | inl same ↦
                let (v, o) = rows guid in
                let here = (=ᵇ_iff (lib.codec.guid_of ov) guid).0 same in
                inr
                  (rw here at free, rw same at o, (row, ov, rw same at v, decoded, here, verified))
          ]
        ]

  pub insert_verified_found :
      (ov : V) (bytes : Bytes) (s : S) {row : Bytes × Voucher}
      → (fetch_voucher find (by_guid find (lib.codec.guid_of ov)) s).0 ≡ ok row
      → insert_verified lib x509 find x vouchers onboarding keys now ov bytes s
        ≡ (none, (fetch_voucher find (by_guid find (lib.codec.guid_of ov)) s).1)
  unfolding insert_verified
  insert_verified_found ov bytes s there = rw (there, insert_verified)

  pub insert_verified_missing :
      (ov : V) (bytes : Bytes) (s : S) {e : QueryError}
      → (fetch_voucher find (by_guid find (lib.codec.guid_of ov)) s).0 ≡ err e
      → insert_verified lib x509 find x vouchers onboarding keys now ov bytes s
        ≡ insert_new lib x509 find x vouchers onboarding keys now ov bytes
            (fetch_voucher find (by_guid find (lib.codec.guid_of ov)) s).1
  unfolding insert_verified
  insert_verified_missing ov bytes s missing = rw (missing, insert_verified)

  insert_verified-Kept :
      (ov : V) (bytes : Bytes) (s : S)
      → lib.codec.cbor.unmarshal bytes ≡ some ov
      → verify_voucher lib ov keys ≡ ok tt
      → Kept s (insert_verified lib x509 find x vouchers onboarding keys now ov bytes s).1
  insert_verified-Kept ov bytes s decoded verified =
      let found = fetch_voucher find (by_guid find (lib.codec.guid_of ov)) s in
      let next = insert_new lib x509 find x vouchers onboarding keys now ov bytes found.1 in
      elim (Result-cases found.0) [
        | inr (row, there) ↦
            rw (insert_verified_found ov bytes s there) (Kept-find (lib.codec.guid_of ov) s)
        | inl (e, missing) ↦ rw (insert_verified_missing ov bytes s missing) (
            Kept-trans s found.1 next.1 (Kept-find (lib.codec.guid_of ov) s)
              (insert_new-Kept ov bytes found.1 decoded verified))
      ]

  insert_decoded-Kept :
      (ov : V) (bytes : Bytes) (s : S)
      → lib.codec.cbor.unmarshal bytes ≡ some ov
      → Kept s (insert_decoded lib x509 find x vouchers onboarding keys now ov bytes s).1
  unfolding insert_decoded
  insert_decoded-Kept ov bytes s decoded = elim (Result-cases (verify_voucher lib ov keys)) [
    | inl (e, bad) ↦ rw (bad, insert_decoded) (Kept-refl s)
    | inr (u, good) ↦ rw (good, insert_decoded) (insert_verified-Kept ov bytes s decoded good)
  ]

  pub insert_block-Kept :
      (block : PemBlock) (s : S)
      → Kept s (insert_block lib x509 find x vouchers onboarding keys now block s).1
  unfolding insert_block
  insert_block-Kept block s = elim (Bool-cases (block.block_type =ᵇ codes "OWNERSHIP VOUCHER")) [
    | inr other ↦ rw (other, insert_block) (Kept-refl s)
    | inl voucher ↦ elim (Option-cases (lib.codec.cbor.unmarshal block.bytes)) [
      | inl bad ↦ rw (voucher, bad, insert_block) (Kept-refl s)
      | inr (ov, decoded) ↦
          rw (voucher, decoded, insert_block) (insert_decoded-Kept ov block.bytes s decoded)
    ]
  ]

  module _ (trim_space : Bytes → Bytes) where
    pub insert_from-Kept :
        (fuel : ℕ) (remaining : Bytes) (s : S)
        → Kept s
            (insert_from lib x509 find x vouchers onboarding keys now trim_space fuel remaining s).1
    unfolding insert_from
    insert_from-Kept zero remaining s = Kept-refl s
    insert_from-Kept (suc fuel) remaining s = elim (Option-cases (x509.pem_decode remaining)) [
      | inl end ↦
          rw
            (insert_from_end lib x509 find x vouchers onboarding keys now trim_space fuel remaining
              s end)
            (Kept-refl s)
      | inr ((block, rest), found) ↦
          let done = insert_block lib x509 find x vouchers onboarding keys now block s in
          let step =
            insert_from_block lib x509 find x vouchers onboarding keys now trim_space fuel remaining
              s found in
          elim (Option-cases done.0) [
            | inr (response, stop) ↦ rw (step, stop, after_block) (insert_block-Kept block s)
            | inl go_on ↦
                rw (step, go_on, after_block)
                  (Kept-trans s done.1 _ (insert_block-Kept block s)
                    (insert_from-Kept fuel rest done.1))
          ]
    ]

    -- Whatever the handler answers, no stored voucher is changed or removed and no onboarding of another
    -- device changes, and each voucher that is new stands under the GUID of its header, was verified
    -- against the server's keys, and has its onboarding. (A commit keeps the rows, a rollback restores
    -- them, queries change nothing, and nothing cascades between the two tables.)
    pub insert_voucher_handler-Kept :
        (body : Option Bytes) (s : S)
        → Kept s
            (insert_voucher_handler lib x509 find x vouchers onboarding keys now trim_space body
              s).1
    unfolding insert_voucher_handler
    insert_voucher_handler-Kept none s = Kept-refl s
    insert_voucher_handler-Kept (some body) s = insert_from-Kept (suc (length body)) body s
