-- ===== src/Vouchers/Api/Insert.antt =====
-- `InsertVoucherHandler` of api/handlers/vouchers.go. Its loop runs on fuel; one more than the length of
-- the body is enough, since every block makes the rest shorter.
pub mod Fuel
pub mod Kept
pub mod Stores
pub mod Finished
use go_fdo_server.Prelude.{
  ℕ, zero, suc, ◌≡◌, Option, none, some, List, [], ◌∷◌, Bytes, Text, Result, ok, err, codes, length,
  ◌=ᵇ◌, if◌then◌else◌,
}
use go_fdo_server.Prelude.Table.{Table}
use go_fdo_server.Prelude.Transaction.{Transactions}
use go_fdo_server.DeviceCa.{PemBlock, X509}
use go_fdo_server.Singleton.Http.{Response, failure, answer}
use go_fdo_server.To0.Scheduler.{DeviceOnboarding}
use go_fdo_server.Vouchers.{Voucher}
use go_fdo_server.Vouchers.Storage.{VoucherError, VoucherCodec, insert_voucher}
use go_fdo_server.Vouchers.Verify.{VoucherLibrary, verify_voucher}
use go_fdo_server.Vouchers.Api.{FindVouchers, fetch_voucher, by_guid}

module _ {S V Key : Type 0} (lib : VoucherLibrary V Key) (x509 : X509) (find : FindVouchers S)
    (x : Transactions S) (vouchers : Table S Voucher) (onboarding : Table S DeviceOnboarding)
    (keys : List Key) (now : ℕ) where
  -- The row of a voucher that is inserted.
  abbrev pub inserted_row : V → Bytes → Voucher
  inserted_row ov bytes = record {
    cbor = bytes;
    device_info = lib.codec.device_info_of ov;
    created_at = now;
    updated_at = now;
  }

  -- What ends the loop early, by the result of the insertion.
  abbrev pub insert_response : Result VoucherError (Unit {0}) → Option Response
  insert_response (ok u) = none
  insert_response (err e) = some (failure 500)

  unfoldable pub insert_new : V → Bytes → S → Option Response × S
  insert_new ov bytes s =
      let r =
        insert_voucher x vouchers onboarding (lib.codec.guid_of ov) (inserted_row ov bytes) s in
      (insert_response r.0, r.1)

  -- A voucher that is verified: one whose GUID is found is not written, whatever is stored for it.
  unfoldable pub insert_verified : V → Bytes → S → Option Response × S
  insert_verified ov bytes s =
      let found = fetch_voucher find (by_guid find (lib.codec.guid_of ov)) s in
      elim found.0 [ ok row ↦ (none, found.1) | err e ↦ insert_new ov bytes found.1 ]

  unfoldable pub insert_decoded : V → Bytes → S → Option Response × S
  insert_decoded ov bytes s = elim (verify_voucher lib ov keys) [
    | err e ↦ (some (failure 400), s)
    | ok u ↦ insert_verified ov bytes s
  ]

  -- The body of the loop: `none` goes on with the next block.
  unfoldable pub insert_block : PemBlock → S → Option Response × S
  insert_block block s =
      if block.block_type =ᵇ codes "OWNERSHIP VOUCHER"
      then elim (lib.codec.cbor.unmarshal block.bytes) [
        | none ↦ (some (failure 400), s)
        | some ov ↦ insert_decoded ov block.bytes s
      ]
      else (none, s)

  -- After the loop: what is left of the body must be blank. `trim_space` is bytes.TrimSpace.
  abbrev pub rest_response : Bytes → Response
  rest_response [] = answer 200 []
  rest_response (c ∷ rest) = failure 400

  module _ (trim_space : Bytes → Bytes) where
    unfoldable pub insert_from : ℕ → Bytes → S → Response × S
    insert_from zero remaining s = (rest_response (trim_space remaining), s)
    insert_from (suc fuel) remaining s = elim (x509.pem_decode remaining) [
      | none ↦ (rest_response (trim_space remaining), s)
      | some b ↦
          let done = insert_block b.0 s in
          elim done.0 [ some response ↦ (response, done.1) | none ↦ insert_from fuel b.1 done.1 ]
    ]

    unfoldable pub insert_voucher_handler : Option Bytes → S → Response × S
    insert_voucher_handler none s = (failure 500, s)
    insert_voucher_handler (some body) s = insert_from (suc (length body)) body s
