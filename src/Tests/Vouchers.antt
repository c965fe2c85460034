-- ===== src/Tests/Vouchers.antt =====
-- A sample database of vouchers, and the theorems on vouchers applied to it. A voucher is its GUID.
use go_fdo_server.Prelude.{
  ℕ, ◌≡◌, ◌⊎◌, ◌<◌, ◌↔◌, refl, sym, true, Option, none, some, List, [], ◌∷◌, Bytes, codes, Result,
  ok, length, ◌==◌, arith,
}
use go_fdo_server.Prelude.Table.{Table, Apart, Uncascaded, DbError}
use go_fdo_server.Prelude.Transaction.{Transactions, Transacts}
use go_fdo_server.Rv.{dns}
use go_fdo_server.DeviceCa.{PemBlock, X509}
use go_fdo_server.To0.Scheduler.{DeviceOnboarding}
use go_fdo_server.Vouchers.{Voucher}
use go_fdo_server.Vouchers.Storage.{VoucherCodec, replace_voucher, remove_voucher, pending}
use go_fdo_server.Vouchers.Storage.Atomic.{Replaced, Fails, replace_voucher-Replaced}
use go_fdo_server.Vouchers.Storage.Removal.{Removed, remove_voucher-Removed}
use go_fdo_server.Vouchers.Verify.{VoucherLibrary, verify_voucher}
use go_fdo_server.Vouchers.Verify.Genuine.{IsOwned, HasHeader, IsIntact, verify_voucher_iff}
use go_fdo_server.Vouchers.Api.{FindVouchers, VoucherRow}
use go_fdo_server.Vouchers.Api.Insert.{insert_voucher_handler}
use go_fdo_server.Vouchers.Api.Insert.Kept.{Leaves, IsNew, insert_voucher_handler-Kept}
use go_fdo_server.Vouchers.Api.Insert.Stores.{Finds, rows_of, AreDone}
use go_fdo_server.Vouchers.Api.Insert.Finished.{pem_blocks, insert_voucher_handler-AreDone}
use go_fdo_server.Singleton.Http.{answer}
use go_fdo_server.Tests.Database.{Rows, put, table}

record VoucherDatabase : Type 0 where
  voucher_rows : Rows Voucher
  onboarding_rows : Rows DeviceOnboarding

abbrev vouchers : Table VoucherDatabase Voucher
vouchers = table (λ d. d.voucher_rows) (λ f d. record d { voucher_rows = f }) (λ f d. refl)

abbrev onboarding : Table VoucherDatabase DeviceOnboarding
onboarding = table (λ d. d.onboarding_rows) (λ f d. record d { onboarding_rows = f }) (λ f d. refl)

abbrev transactions : Transactions VoucherDatabase
transactions = record { commit = λ d. (ok tt, d); rollback = λ before now. before }

vouchers-Transacts : Transacts transactions vouchers
vouchers-Transacts = record {
  rows_after_commit = λ s k. refl;
  rows_after_rollback = λ before now k. refl;
}

onboarding-Transacts : Transacts transactions onboarding
onboarding-Transacts = record {
  rows_after_commit = λ s k. refl;
  rows_after_rollback = λ before now k. refl;
}

vouchers-onboarding : Uncascaded vouchers onboarding
vouchers-onboarding = record {
  rows_after_create = λ s k r j. refl;
  rows_after_delete = λ s k j. refl;
}

onboarding-vouchers : Uncascaded onboarding vouchers
onboarding-vouchers = record {
  rows_after_create = λ s k r j. refl;
  rows_after_delete = λ s k j. refl;
}

onboarding-Apart : Apart onboarding vouchers
onboarding-Apart = record {
  rows_after_first = λ s k j. refl;
  rows_after_save = λ s k r j. refl;
  rows_after_update = λ s k f j. refl;
  rows_after_first_or_create = λ s k r f j. refl;
}

vouchers-Apart : Apart vouchers onboarding
vouchers-Apart = record {
  rows_after_first = λ s k j. refl;
  rows_after_save = λ s k r j. refl;
  rows_after_update = λ s k f j. refl;
  rows_after_first_or_create = λ s k r f j. refl;
}

abbrev codec : VoucherCodec Bytes
codec = record {
  cbor = record {
    marshal = λ x. some x;
    unmarshal = λ b. some b;
    unmarshal-marshal = λ x h. sym h;
  };
  guid_of = λ x. x;
  device_info_of = λ x. codes "device";
}

abbrev old_guid : Bytes
old_guid = 1 ∷ []

abbrev new_guid : Bytes
new_guid = 2 ∷ []

abbrev old_voucher : Voucher
old_voucher = record {
  cbor = old_guid;
  device_info = codes "device";
  created_at = 10;
  updated_at = 10;
}

abbrev owned : VoucherDatabase
owned = record {
  voucher_rows = put (λ k. none) old_guid (some old_voucher);
  onboarding_rows = put (λ k. none) old_guid (some pending);
}

replace_voucher-Replaced_example :
    let r = replace_voucher codec vouchers transactions onboarding 20 21 old_guid new_guid owned in
    ((cbor : Bytes) × (codec.cbor.marshal new_guid ≡ some cbor)
      × (r.0 ≡ ok tt)
      × Replaced codec vouchers onboarding transactions vouchers-Transacts onboarding-Transacts
          vouchers-onboarding onboarding-Apart 20 21 old_guid new_guid cbor owned r.1)
    ⊎ Fails vouchers onboarding transactions vouchers-Transacts onboarding-Transacts owned r
replace_voucher-Replaced_example =
    replace_voucher-Replaced codec vouchers onboarding transactions vouchers-Transacts
      onboarding-Transacts vouchers-onboarding onboarding-Apart 20 21 old_guid new_guid owned

remove_voucher-Removed_example :
    let r = remove_voucher codec vouchers transactions onboarding old_guid owned in
    ((ov : Bytes) × (r.0 ≡ ok ov)
      × Removed codec vouchers onboarding transactions vouchers-Transacts onboarding-Transacts
          vouchers-onboarding onboarding-vouchers vouchers-Apart old_guid ov owned r.1)
    ⊎ Fails vouchers onboarding transactions vouchers-Transacts onboarding-Transacts owned r
remove_voucher-Removed_example =
    remove_voucher-Removed codec vouchers onboarding transactions vouchers-Transacts
      onboarding-Transacts vouchers-onboarding onboarding-vouchers vouchers-Apart old_guid owned

-- Keys are numbers; every voucher is well formed and belongs to the key 5.
abbrev library : VoucherLibrary Bytes ℕ
library = record {
  codec = codec;
  version = λ ov. 101;
  header_version = λ ov. 101;
  manufacturer_key_type = λ ov. 1;
  rv_info = λ ov. (record { variable = dns; value = [] } ∷ []) ∷ [];
  owner_public_key = λ ov. some 5;
  equal = λ a b. a == b;
  verify_entries = λ ov. true;
  verify_cert_chain_hash = λ ov. true;
  verify_device_cert_chain = λ ov. true;
  verify_manufacturer_cert_chain = λ ov. true;
}

verify_voucher_iff_example : (verify_voucher library new_guid (4 ∷ 5 ∷ []) ≡ ok tt) ↔ (
    IsOwned library new_guid (4 ∷ 5 ∷ []) × HasHeader library new_guid × IsIntact library new_guid)
verify_voucher_iff_example = verify_voucher_iff library new_guid (4 ∷ 5 ∷ [])

-- Every byte is a block with a voucher.
abbrev decode_block : Bytes → Option (PemBlock × Bytes)
decode_block [] = none
decode_block (b ∷ rest) =
    some (record { block_type = codes "OWNERSHIP VOUCHER"; bytes = b ∷ [] }, rest)

decode_block_shorter :
    (b : Bytes) {block : PemBlock} {rest : Bytes}
    → decode_block b ≡ some (block, rest)
    → length rest < length b
unfolding length
decode_block_shorter [] h = cc h
decode_block_shorter (b ∷ s) h = ground arith

abbrev x509 : X509
x509 = record {
  pem_decode = decode_block;
  pem_encode = λ block. block.bytes;
  parse_certificate = λ b. none;
  sum256 = λ b. b;
  pem_decode_shorter = decode_block_shorter;
}

-- A query by GUID.
abbrev found_by : Option Bytes → VoucherDatabase → List VoucherRow
found_by none d = []
found_by (some guid) d = rows_of guid (d.voucher_rows guid)

abbrev found : List VoucherRow → Result DbError (List VoucherRow)
found rows = ok rows

abbrev find : FindVouchers VoucherDatabase
find guid device_info include_cbor d = (found (found_by guid d), d)

find-vouchers : Leaves find vouchers
find-vouchers = record { rows_after_find = λ s guid device_info include_cbor j. refl }

find-onboarding : Leaves find onboarding
find-onboarding = record { rows_after_find = λ s guid device_info include_cbor j. refl }

-- The stored voucher again, and a new one.
abbrev after_insertion : VoucherDatabase
after_insertion =
    (insert_voucher_handler library x509 find transactions vouchers onboarding (4 ∷ 5 ∷ []) 30
      (λ b. b) (some (1 ∷ 2 ∷ [])) owned).1

insert_voucher_handler-Kept_example :
    ((vouchers.rows after_insertion new_guid ≡ vouchers.rows owned new_guid)
      × (onboarding.rows after_insertion new_guid ≡ onboarding.rows owned new_guid))
    ⊎ IsNew library x509 find transactions vouchers onboarding
        (4 ∷ 5 ∷ [])
        30
        vouchers-Transacts
        onboarding-Transacts
        vouchers-onboarding
        onboarding-Apart
        find-vouchers
        find-onboarding
        new_guid
        owned
        after_insertion
insert_voucher_handler-Kept_example =
    insert_voucher_handler-Kept library x509 find transactions vouchers onboarding (4 ∷ 5 ∷ []) 30
      vouchers-Transacts onboarding-Transacts vouchers-onboarding onboarding-Apart find-vouchers
      find-onboarding (λ b. b) (some (1 ∷ 2 ∷ [])) owned new_guid

find_law :
    (s : VoucherDatabase) (g : Bytes) {rows : List VoucherRow}
    → (find (some g) none true s).0 ≡ ok rows
    → rows ≡ rows_of g (vouchers.rows s g)
find_law s g h = cc h

find-Finds : Finds find vouchers
find-Finds = record { find_law = λ s g h. find_law s g h }

insertion-ok :
    (insert_voucher_handler library x509 find transactions vouchers onboarding
      (4 ∷ 5 ∷ [])
      30
      (λ b. b)
      (some (1 ∷ 2 ∷ []))
      owned).0
    ≡ answer 200 []
unfolding insert_voucher_handler go_fdo_server.Vouchers.Api.Insert.insert_from
    go_fdo_server.Vouchers.Api.Insert.insert_block go_fdo_server.Prelude.◌=ᵇ◌
    go_fdo_server.Vouchers.Api.Insert.insert_decoded verify_voucher
    go_fdo_server.Vouchers.Verify.verify_voucher_ownership
    go_fdo_server.Vouchers.Verify.contains_key
    go_fdo_server.Vouchers.Verify.verify_ownership_voucher
    go_fdo_server.Vouchers.Verify.verify_header go_fdo_server.Vouchers.Verify.verify_integrity
    go_fdo_server.Vouchers.Api.Insert.insert_verified go_fdo_server.Vouchers.Api.fetch_voucher
    go_fdo_server.Vouchers.Api.query_vouchers length go_fdo_server.Vouchers.Api.Insert.insert_new
    go_fdo_server.Vouchers.Storage.insert_voucher go_fdo_server.Prelude.Transaction.commit_with
    go_fdo_server.Prelude.Transaction.finish go_fdo_server.Prelude.Transaction.transaction
    go_fdo_server.Vouchers.Storage.insert_body
insertion-ok = refl

insert_voucher_handler-AreDone_example :
    AreDone library x509 find transactions vouchers onboarding
      (4 ∷ 5 ∷ [])
      30
      vouchers-Transacts
      onboarding-Transacts
      vouchers-onboarding
      onboarding-Apart
      find-vouchers
      find-onboarding
      find-Finds
      (pem_blocks library x509 find transactions vouchers onboarding
        (4 ∷ 5 ∷ [])
        30
        vouchers-Transacts
        onboarding-Transacts
        vouchers-onboarding
        onboarding-Apart
        find-vouchers
        find-onboarding
        find-Finds
        3
        (1 ∷ 2 ∷ []))
      after_insertion
unfolding length
insert_voucher_handler-AreDone_example =
    insert_voucher_handler-AreDone library x509 find transactions vouchers onboarding (4 ∷ 5 ∷ [])
      30 vouchers-Transacts onboarding-Transacts vouchers-onboarding onboarding-Apart find-vouchers
      find-onboarding find-Finds (λ b. b) (1 ∷ 2 ∷ []) owned insertion-ok
