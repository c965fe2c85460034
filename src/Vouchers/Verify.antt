-- ===== src/Vouchers/Verify.antt =====
-- The verification of an ownership voucher in api/handlers/vouchers.go.
pub mod Genuine
use go_fdo_server.Prelude.{
  ℕ, Bool, true, false, Option, none, some, List, [], ◌∷◌, Bytes, Text, Result, ok, err, or_err,
  ◌>>=◌, ◌==◌, ◌=ᵇ◌, if◌then◌else◌,
}
use go_fdo_server.Rv.{RvInstruction}
use go_fdo_server.Vouchers.Storage.{VoucherCodec}

-- fdo.Voucher with what the handlers read of it, and its methods; the four checks are true when they
-- return no error. `equal` is the Equal of a public key.
pub record VoucherLibrary (V Key : Type 0) : Type 0 where
  pub codec : VoucherCodec V
  pub version : V → ℕ
  pub header_version : V → ℕ
  pub manufacturer_key_type : V → ℕ
  pub rv_info : V → List (List RvInstruction)
  pub owner_public_key : V → Option Key
  pub equal : Key → Key → Bool
  pub verify_entries : V → Bool
  pub verify_cert_chain_hash : V → Bool
  pub verify_device_cert_chain : V → Bool
  pub verify_manufacturer_cert_chain : V → Bool

pub data VerifyError : Type 0 where
  no_owner_keys bad_owner_key other_owner : VerifyError
  unsupported_version version_mismatch : VerifyError
  zero_guid_found no_device_info no_manufacturer_key no_rv_info : VerifyError
  bad_entries bad_chain_hash bad_device_chain bad_manufacturer_chain : VerifyError

-- FDOProtocolVersion
abbrev pub fdo_protocol_version : ℕ
fdo_protocol_version = 101

-- `var zeroGUID protocol.GUID`
abbrev pub zero_guid : Bytes
zero_guid = 0 ∷ 0 ∷ 0 ∷ 0 ∷ 0 ∷ 0 ∷ 0 ∷ 0 ∷ 0 ∷ 0 ∷ 0 ∷ 0 ∷ 0 ∷ 0 ∷ 0 ∷ 0 ∷ []

-- `if !passed { return e }`
abbrev pub require : Bool → VerifyError → Result VerifyError (Unit {0})
require passed e = if passed then ok tt else err e

abbrev pub refuse : Bool → VerifyError → Result VerifyError (Unit {0})
refuse found e = if found then err e else ok tt

abbrev pub is_empty {ℓ} : {A : Type ℓ} → List A → Bool
is_empty [] = true
is_empty (x ∷ xs) = false

-- `slices.ContainsFunc(keys, expected.Equal)`
unfoldable pub contains_key : {Key : Type 0} → (Key → Key → Bool) → Key → List Key → Bool
contains_key equal expected [] = false
contains_key equal expected (key ∷ keys) =
    if equal expected key then true else contains_key equal expected keys

module _ {V Key : Type 0} (lib : VoucherLibrary V Key) where
  unfoldable pub verify_voucher_ownership : V → List Key → Result VerifyError (Unit {0})
  verify_voucher_ownership ov keys = refuse (is_empty keys) no_owner_keys >>= λ u.
      or_err (lib.owner_public_key ov) bad_owner_key >>= λ expected.
      require (contains_key lib.equal expected keys) other_owner

  unfoldable pub verify_header : V → Result VerifyError (Unit {0})
  verify_header ov = require (lib.version ov == fdo_protocol_version) unsupported_version >>= λ u.
      require (lib.version ov == lib.header_version ov) version_mismatch >>= λ u.
      refuse (lib.codec.guid_of ov =ᵇ zero_guid) zero_guid_found >>= λ u.
      refuse (lib.codec.device_info_of ov =ᵇ []) no_device_info >>= λ u.
      refuse (lib.manufacturer_key_type ov == 0) no_manufacturer_key >>= λ u.
      refuse (is_empty (lib.rv_info ov)) no_rv_info

  unfoldable pub verify_integrity : V → Result VerifyError (Unit {0})
  verify_integrity ov = require (lib.verify_entries ov) bad_entries >>= λ u.
      require (lib.verify_cert_chain_hash ov) bad_chain_hash >>= λ u.
      require (lib.verify_device_cert_chain ov) bad_device_chain >>= λ u.
      require (lib.verify_manufacturer_cert_chain ov) bad_manufacturer_chain

  unfoldable pub verify_ownership_voucher : V → Result VerifyError (Unit {0})
  verify_ownership_voucher ov = verify_header ov >>= λ u. verify_integrity ov

  unfoldable pub verify_voucher : V → List Key → Result VerifyError (Unit {0})
  verify_voucher ov keys = verify_voucher_ownership ov keys >>= λ u. verify_ownership_voucher ov
