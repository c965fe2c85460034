-- ===== src/Vouchers/Api/Insert/Stores.antt =====
-- What an insertion that `InsertVoucherHandler` answers with 200 has done.
use go_fdo_server.Prelude.{
  ℕ, ◌≡◌, ◌⊎◌, inl, inr, refl, true, false, Bool-cases, Option, none, some, List, [], ◌∷◌, Bytes,
  ok, codes, Result-cases, Option-cases, ◌=ᵇ◌, =ᵇ_iff,
}
use go_fdo_server.Prelude.Table.{Table, Apart, Uncascaded}
use go_fdo_server.Prelude.Transaction.{Transactions, Transacts}
use go_fdo_server.DeviceCa.{PemBlock, X509}
use go_fdo_server.To0.Scheduler.{DeviceOnboarding}
use go_fdo_server.Vouchers.{Voucher}
use go_fdo_server.Vouchers.Storage.Insertion.{insert_voucher-Inserted}
use go_fdo_server.Vouchers.Verify.{VoucherLibrary, verify_voucher}
use go_fdo_server.Vouchers.Api.{
  FindVouchers, VoucherRow, fetch_voucher, by_guid, query_vouchers, only_of,
}
use go_fdo_server.Vouchers.Api.Insert.{
  inserted_row, insert_new, insert_verified, insert_decoded, insert_block,
}
use go_fdo_server.Vouchers.Api.Insert.Kept.{
  Leaves, fetch_voucher-Leaves, insert_verified_found, insert_verified_missing,
}

-- The rows that a query for a GUID returns: it is the primary key.
abbrev pub rows_of : Bytes → Option Voucher → List VoucherRow
rows_of guid none = []
rows_of guid (some row) = (guid, row) ∷ []

pub record Finds {S : Type 0} (find : FindVouchers S) (t : Table S Voucher) : Type 0 where
  pub find_law :
      (s : S) (guid : Bytes) {rows : List VoucherRow}
      → (find (some guid) none true s).0 ≡ ok rows
      → rows ≡ rows_of guid (t.rows s guid)

-- There is a row.
abbrev pub IsStored : Option Voucher → Type 0
IsStored none = ⊥
IsStored (some row) = Unit

only_of-IsStored :
    {S : Type 0} (find : FindVouchers S) (guid : Bytes) (o : Option Voucher) {row : VoucherRow}
    → only_of find (ok (rows_of guid o)) ≡ ok row
    → IsStored o
only_of-IsStored find guid none h = cc h
only_of-IsStored find guid (some row) h = tt

fetch_voucher-IsStored :
    {S : Type 0} (find : FindVouchers S) (t : Table S Voucher)
    → Finds find t
    → (guid : Bytes) (s : S) {row : VoucherRow}
    → (fetch_voucher find (by_guid find guid) s).0 ≡ ok row
    → IsStored (t.rows s guid)
unfolding fetch_voucher query_vouchers
fetch_voucher-IsStored find t k guid s h = elim (Result-cases (find (some guid) none true s).0) [
  | inl (e, bad) ↦ cc (rw bad at h)
  | inr (rows, good) ↦
      let same = k.find_law s guid good in
      only_of-IsStored find guid (t.rows s guid) (rw (good, same) at h)
]

module _ {S V Key : Type 0} (lib : VoucherLibrary V Key) (x509 : X509) (find : FindVouchers S)
    (x : Transactions S) (vouchers : Table S Voucher) (onboarding : Table S DeviceOnboarding)
    (keys : List Key) (now : ℕ) (vx : Transacts x vouchers) (ox : Transacts x onboarding)
    (vo : Uncascaded vouchers onboarding) (oa : Apart onboarding vouchers)
    (fv : Leaves find vouchers) (fo : Leaves find onboarding) (fs : Finds find vouchers) where
  -- A voucher that is verified and has a row.
  abbrev pub IsHeld : Bytes → S → Type 0
  IsHeld bytes after =
      (ov : V) × (lib.codec.cbor.unmarshal bytes ≡ some ov)
      × (verify_voucher lib ov keys ≡ ok tt)
      × IsStored (vouchers.rows after (lib.codec.guid_of ov))

  -- A block of another type, or a voucher that is held.
  abbrev pub IsDone : PemBlock → S → Type 0
  IsDone block after =
      ((block.block_type =ᵇ codes "OWNERSHIP VOUCHER") ≡ false) ⊎ IsHeld block.bytes after

  abbrev pub AreDone : List PemBlock → S → Type 0
  AreDone [] after = Unit
  AreDone (block ∷ blocks) after = IsDone block after × AreDone blocks after

  insert_new-IsStored :
      (ov : V) (bytes : Bytes) (s : S)
      → (insert_new lib x509 find x vouchers onboarding keys now ov bytes s).0 ≡ none
      → IsStored (
          vouchers.rows
            (insert_new lib x509 find x vouchers onboarding keys now ov bytes s).1
            (lib.codec.guid_of ov))
  unfolding insert_new
  insert_new-IsStored ov bytes s h =
      let row = inserted_row lib x509 find x vouchers onboarding keys now ov bytes in
      let guid = lib.codec.guid_of ov in
      elim (insert_voucher-Inserted vouchers onboarding x vx ox vo oa guid row s) [
        | inr (e, bad, unchanged) ↦ cc (rw bad at h)
        | inl (good, (free, rows)) ↦
            let (v, _) = rows guid in let same = (=ᵇ_iff guid guid).1 refl in rw (v, same) tt
      ]

  insert_verified-IsStored :
      (ov : V) (bytes : Bytes) (s : S)
      → (insert_verified lib x509 find x vouchers onboarding keys now ov bytes s).0 ≡ none
      → IsStored (
          vouchers.rows
            (insert_verified lib x509 find x vouchers onboarding keys now ov bytes s).1
            (lib.codec.guid_of ov))
  insert_verified-IsStored ov bytes s h =
      let found = fetch_voucher find (by_guid find (lib.codec.guid_of ov)) s in
      elim (Result-cases found.0) [
        | inr (row, there) ↦
            let same =
              insert_verified_found lib x509 find x vouchers onboarding keys now vx ox vo oa fv fo
                ov bytes s there in
            rw
              (
                same,
                fetch_voucher-Leaves find vouchers fv (lib.codec.guid_of ov) s
                    (lib.codec.guid_of ov),
              )
              (fetch_voucher-IsStored find vouchers fs (lib.codec.guid_of ov) s there)
        | inl (e, missing) ↦
            let same =
              insert_verified_missing lib x509 find x vouchers onboarding keys now vx ox vo oa fv fo
                ov bytes s missing in
            rw same (insert_new-IsStored ov bytes found.1 (rw same at h))
      ]

  insert_decoded-IsHeld :
      (ov : V) (bytes : Bytes) (s : S)
      → lib.codec.cbor.unmarshal bytes ≡ some ov
      → (insert_decoded lib x509 find x vouchers onboarding keys now ov bytes s).0 ≡ none
      → IsHeld bytes (insert_decoded lib x509 find x vouchers onboarding keys now ov bytes s).1
  unfolding insert_decoded
  insert_decoded-IsHeld ov bytes s decoded h = elim (Result-cases (verify_voucher lib ov keys)) [
    | inl (e, bad) ↦ cc (rw (bad, insert_decoded) at h)
    | inr (u, good) ↦ (
      ov,
      decoded,
      good,
      rw (good, insert_decoded)
          (insert_verified-IsStored ov bytes s (rw (good, insert_decoded) at h)),
    )
  ]

  pub insert_block_decoded :
      (block : PemBlock) (ov : V) (s : S)
      → (block.block_type =ᵇ codes "OWNERSHIP VOUCHER") ≡ true
      → lib.codec.cbor.unmarshal block.bytes ≡ some ov
      → insert_block lib x509 find x vouchers onboarding keys now block s
        ≡ insert_decoded lib x509 find x vouchers onboarding keys now ov block.bytes s
  unfolding insert_block
  insert_block_decoded block ov s voucher decoded = rw (voucher, decoded, insert_block)

  pub insert_block-IsDone :
      (block : PemBlock) (s : S)
      → (insert_block lib x509 find x vouchers onboarding keys now block s).0 ≡ none
      → IsDone block (insert_block lib x509 find x vouchers onboarding keys now block s).1
  insert_block-IsDone block s h =
      elim (Bool-cases (block.block_type =ᵇ codes "OWNERSHIP VOUCHER")) [
        | inr other ↦ inl other
        | inl voucher ↦ elim (Option-cases (lib.codec.cbor.unmarshal block.bytes)) [
          | inl bad ↦ unfold insert_block in cc (rw (voucher, bad, insert_block) at h)
          | inr (ov, decoded) ↦
              let step = insert_block_decoded block ov s voucher decoded in
              inr (rw step (insert_decoded-IsHeld ov block.bytes s decoded (rw step at h)))
        ]
      ]
