-- ===== src/Vouchers/Storage.antt =====
-- The voucher methods of internal/db/state_vouchers.go, and `InsertVoucher` of internal/db/db.go.
pub mod Atomic
pub mod Removal
pub mod Insertion
use go_fdo_server.Prelude.{
  ℕ, ◌≡◌, Bool, true, false, Option, none, some, [], Bytes, Text, Result, ok, err, or_err, map_err,
}
use go_fdo_server.Prelude.Action.{Action, lift, pure, handle, continue, ◌>>=◌, ◌>>◌}
use go_fdo_server.Prelude.Codec.{Codec}
use go_fdo_server.Prelude.Table.{DbError, record_not_found, Table}
use go_fdo_server.Prelude.Transaction.{Transactions, transaction}
use go_fdo_server.To0.Scheduler.{DeviceOnboarding}
use go_fdo_server.Vouchers.{Voucher}

pub data VoucherError : Type 0 where
  not_found cannot_marshal cannot_unmarshal : VoucherError
  db : DbError → VoucherError

-- fdo.Voucher: its encoding, and the two fields of its header that are stored beside it.
pub record VoucherCodec (V : Type 0) : Type 0 where
  pub cbor : Codec V
  pub guid_of : V → Bytes
  pub device_info_of : V → Text

abbrev pub query_error : DbError → VoucherError
query_error record_not_found = not_found
query_error e = db e

-- A row of device_onboarding that `FirstOrCreate` makes, and the one after TO2.
abbrev pub pending : DeviceOnboarding
pending = record { new_guid = none; to2_completed = false; to2_completed_at = none }

abbrev pub replaced_by : Bytes → ℕ → DeviceOnboarding
replaced_by guid completed_at = record {
  new_guid = some guid;
  to2_completed = true;
  to2_completed_at = some completed_at;
}

-- A statement of the database inside a method.
abbrev pub run : {S A : Type 0} → Action S DbError A → Action S VoucherError A
run call = handle call (λ r. lift (map_err db r))

module _ {S V : Type 0} (c : VoucherCodec V) (vouchers : Table S Voucher) where
  abbrev pub voucher_row : ℕ → V → Bytes → Voucher
  voucher_row now ov cbor = record {
    cbor = cbor;
    device_info = c.device_info_of ov;
    created_at = now;
    updated_at = now;
  }

  -- `NewVoucher` and `AddVoucher` have the same statements.
  unfoldable pub new_voucher : ℕ → V → Action S VoucherError (Unit {0})
  new_voucher now ov = do
    cbor ← lift (or_err (c.cbor.marshal ov) cannot_marshal)
    run (vouchers.create (c.guid_of ov) (voucher_row now ov cbor))

  abbrev pub add_voucher : ℕ → V → Action S VoucherError (Unit {0})
  add_voucher = new_voucher

  unfoldable pub voucher : Bytes → Action S VoucherError V
  voucher guid = do
    row ← handle (vouchers.first guid) (λ r. lift (map_err query_error r))
    lift (or_err (c.cbor.unmarshal row.cbor) cannot_unmarshal)

  module _ (x : Transactions S) (onboarding : Table S DeviceOnboarding) where
    unfoldable pub replace_body : ℕ → ℕ → Bytes → V → Bytes → Action S VoucherError (Unit {0})
    replace_body now completed_at guid ov cbor = do
      run (vouchers.delete guid)
      run (vouchers.create (c.guid_of ov) (voucher_row now ov cbor))
      run (
          onboarding.first_or_create guid (replaced_by (c.guid_of ov) completed_at)
            (λ old. replaced_by (c.guid_of ov) completed_at))

    unfoldable pub replace_voucher : ℕ → ℕ → Bytes → V → Action S VoucherError (Unit {0})
    replace_voucher now completed_at guid ov = do
      cbor ← lift (or_err (c.cbor.marshal ov) cannot_marshal)
      transaction x db (replace_body now completed_at guid ov cbor)

    unfoldable pub remove_body : Bytes → Action S VoucherError V
    remove_body guid = do
      row ← handle (vouchers.first guid) (λ r. lift (map_err query_error r))
      ov ← lift (or_err (c.cbor.unmarshal row.cbor) cannot_unmarshal)
      run (vouchers.delete guid)
      run (onboarding.delete guid)
      pure ov

    unfoldable pub remove_voucher : Bytes → Action S VoucherError V
    remove_voucher guid = transaction x db (remove_body guid)

-- `InsertVoucher`
module _ {S : Type 0} (x : Transactions S) (vouchers : Table S Voucher)
    (onboarding : Table S DeviceOnboarding) where
  unfoldable pub insert_body : Bytes → Voucher → Action S VoucherError (Unit {0})
  insert_body guid row = do
    run (vouchers.create guid row)
    run (onboarding.first_or_create guid pending (λ old. old))

  unfoldable pub insert_voucher : Bytes → Voucher → Action S VoucherError (Unit {0})
  insert_voucher guid row = transaction x db (insert_body guid row)
