-- ===== src/Vouchers/Api.antt =====
-- The handlers of api/handlers/vouchers.go, with `QueryVouchers` and `FetchVoucher` of
-- internal/db/db.go and `IsValidGUID` of internal/utils/utils.go.
pub mod Insert
use go_fdo_server.Prelude.{
  map_err, copy_into, ℕ, Bool, true, false, ◌&&◌, ◌||◌, Option, none, some, List, [], ◌∷◌, Bytes,
  Text, Result, ok, err, codes, length, leb, ◌==◌, ◌=ᵇ◌, if◌then◌else◌,
}
use go_fdo_server.Prelude.Hex
use go_fdo_server.Prelude.Action.{Action, handle, lift, raise, continue, ◌>>=◌}
use go_fdo_server.Prelude.Table.{DbError, record_not_found}
use go_fdo_server.Prelude.Transaction.{Transactions, transaction}
use go_fdo_server.DeviceCa.{PemBlock, X509}
use go_fdo_server.Singleton.Http.{Response, failure, answer}
use go_fdo_server.Vouchers.{Voucher}
use go_fdo_server.Vouchers.Storage.{VoucherError, VoucherCodec, db}

-- One character of `[a-fA-F0-9]`.
abbrev pub is_hex : ℕ → Bool
is_hex c = (leb b'a' c && leb c b'f') || (leb b'A' c && leb c b'F') || (leb b'0' c && leb c b'9')

abbrev pub all_hex : Text → Bool
all_hex [] = true
all_hex (c ∷ s) = is_hex c && all_hex s

unfoldable pub is_valid_guid : Text → Bool
is_valid_guid guid_hex = (length guid_hex == 32) && all_hex guid_hex

-- The values of a map of filters, and the filters: one that is not in the map is `none`.
pub data FilterValue : Type 0 where
  bytes_value : Bytes → FilterValue
  text_value : Text → FilterValue

pub record Filters : Type 0 where
  pub guid : Option FilterValue
  pub device_info : Option FilterValue

-- A voucher with its GUID, as a query returns it.
abbrev pub VoucherRow : Type 0
VoucherRow = Bytes × Voucher

-- The SQL query for a GUID and a device info, with or without the CBOR column, newest first.
abbrev pub FindVouchers : Type 0 → Type 0
FindVouchers S = Option Bytes → Option Text → Bool → Action S DbError (List VoucherRow)

pub data QueryError : Type 0 where
  no_filters invalid_guid_filter invalid_device_info_filter multiple_matched : QueryError
  db_failed : DbError → QueryError

abbrev pub guid_filter : Option FilterValue → Result QueryError (Option Bytes)
guid_filter none = ok none
guid_filter (some (bytes_value b)) = ok (some b)
guid_filter (some (text_value t)) = err invalid_guid_filter

abbrev pub device_info_filter : Option FilterValue → Result QueryError (Option Text)
device_info_filter none = ok none
device_info_filter (some (text_value t)) = ok (some t)
device_info_filter (some (bytes_value b)) = err invalid_device_info_filter

-- `len(filters) == 0`
abbrev pub is_unfiltered : Option FilterValue → Option FilterValue → Bool
is_unfiltered none none = true
is_unfiltered guid device_info = false

module _ {S : Type 0} (find : FindVouchers S) where
  unfoldable pub query_vouchers : Filters → Bool → Action S QueryError (List VoucherRow)
  query_vouchers filters include_cbor = do
    guid ← lift (guid_filter filters.guid)
    device_info ← lift (device_info_filter filters.device_info)
    handle (find guid device_info include_cbor) (λ r. lift (map_err db_failed r))

  -- The branches of `FetchVoucher` on the number of vouchers.
  abbrev pub only : List VoucherRow → Result QueryError VoucherRow
  only [] = err (db_failed record_not_found)
  only (row ∷ []) = ok row
  only (row ∷ other ∷ rows) = err multiple_matched

  abbrev pub only_of : Result QueryError (List VoucherRow) → Result QueryError VoucherRow
  only_of (err e) = err e
  only_of (ok rows) = only rows

  unfoldable pub fetch_voucher : Filters → Action S QueryError VoucherRow
  fetch_voucher filters =
      if is_unfiltered filters.guid filters.device_info
      then raise no_filters
      else handle (query_vouchers filters true) (λ r. lift (only_of r))

  abbrev pub by_guid : Bytes → Filters
  by_guid guid = record { guid = some (bytes_value guid); device_info = none }

  -- `json` is the encoding of the response by encoding/json.
  abbrev pub list_response :
      (List VoucherRow → Bytes) → Result QueryError (List VoucherRow) → Response
  list_response json (ok rows) = answer 200 (json rows)
  list_response json (err e) = failure 500

  unfoldable pub list_vouchers : (List VoucherRow → Bytes) → Filters → S → Response × S
  list_vouchers json filters s =
      let r = query_vouchers filters false s in (list_response json r.0, r.1)

  abbrev pub device_filter : Text → Option FilterValue
  device_filter [] = none
  device_filter (c ∷ s) = some (text_value (c ∷ s))

  unfoldable pub get_voucher_handler : (List VoucherRow → Bytes) → Text → Text → S → Response × S
  get_voucher_handler json guid_hex device_info s =
      if guid_hex =ᵇ []
      then list_vouchers json (record { guid = none; device_info = device_filter device_info }) s
      else if is_valid_guid guid_hex
      then elim (Hex.decode guid_hex) [
        | none ↦ (failure 400, s)
        | some guid ↦
            list_vouchers json
              (record { guid = some (bytes_value guid); device_info = device_filter device_info }) s
      ]
      else (failure 400, s)

  abbrev pub voucher_response : (Bytes → Text) → Result QueryError VoucherRow → Response
  voucher_response pem (ok row) = answer 200 (pem row.1.cbor)
  voucher_response pem (err (db_failed record_not_found)) = failure 404
  voucher_response pem (err e) = failure 500

  -- `pem` is `pem.Encode` of an OWNERSHIP VOUCHER block.
  unfoldable pub get_voucher_by_guid_handler : (Bytes → Text) → Text → S → Response × S
  get_voucher_by_guid_handler pem guid_hex s =
      if is_valid_guid guid_hex
      then elim (Hex.decode guid_hex) [
        | none ↦ (failure 400, s)
        | some guid ↦ (
          voucher_response pem (fetch_voucher (by_guid guid) s).0,
          (fetch_voucher (by_guid guid) s).1,
        )
      ]
      else (failure 400, s)

-- The FDO library's Resell, which calls RemoveVoucher on the state inside the transaction, and the
-- parser of the next owner's key.
pub record ResellLibrary (S V Key : Type 0) : Type 0 where
  pub parse_pkix_public_key : Bytes → Option Key
  pub resell : Bytes → Key → Action S VoucherError V

module _ {S V Key : Type 0} (c : VoucherCodec V) (x509 : X509) (lib : ResellLibrary S V Key)
    (x : Transactions S) where
  -- From the result of the transaction on.
  abbrev pub resold : Result VoucherError V → Response
  resold (err e) = failure 500
  resold (ok extended) = elim (c.cbor.marshal extended) [
    | none ↦ failure 500
    | some bytes ↦
        answer 200
          (x509.pem_encode (record { block_type = codes "OWNERSHIP VOUCHER"; bytes = bytes }))
  ]

  unfoldable pub resell_voucher : Bytes → Key → S → Response × S
  resell_voucher guid next_owner s =
      let r = transaction x db (lib.resell guid next_owner) s in (resold r.0, r.1)

  -- From the body on; `is_state` says that VouchersForExtension is a *db.State.
  unfoldable pub resell_body : Bool → Bytes → Option Bytes → S → Response × S
  resell_body is_state guid none s = (failure 500, s)
  resell_body is_state guid (some body) s = elim (x509.pem_decode body) [
    | none ↦ (failure 500, s)
    | some b ↦ elim (lib.parse_pkix_public_key b.0.bytes) [
      | none ↦ (failure 500, s)
      | some next_owner ↦ if is_state then resell_voucher guid next_owner s else (failure 500, s)
    ]
  ]

  unfoldable pub resell_handler : Bool → Text → Option Bytes → S → Response × S
  resell_handler is_state guid_hex body s =
      if is_valid_guid guid_hex
      then elim (Hex.decode guid_hex) [
        | none ↦ (failure 400, s)
        | some guid ↦ resell_body is_state (copy_into 16 guid) body s
      ]
      else (failure 400, s)
