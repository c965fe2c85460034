-- ===== src/Vouchers/Verify/Genuine.antt =====
-- What a verified voucher is, in one sentence, and that the checks decide it.
use go_fdo_server.Prelude.{
  ◌≡◌, ◌⊎◌, ◌↔◌, refl, Bool, true, false, some, List, [], ◌∷◌, ok, or_err, =ᵇ_iff, >>=-eq-ok,
  or_err-eq-ok, arith,
}
use go_fdo_server.Vouchers.Verify.{
  VoucherLibrary, no_owner_keys, bad_owner_key, zero_guid, refuse, is_empty, contains_key,
  verify_voucher_ownership, verify_header, verify_integrity, verify_ownership_voucher,
  verify_voucher,
}

-- Some key of the list is the expected one.
abbrev pub HasKey : {Key : Type 0} → (Key → Key → Bool) → Key → List Key → Type 0
HasKey equal expected [] = ⊥
HasKey equal expected (key ∷ keys) = (equal expected key ≡ true) ⊎ HasKey equal expected keys

contains_key_iff :
    {Key : Type 0} (equal : Key → Key → Bool) (expected : Key) (keys : List Key)
    → (contains_key equal expected keys ≡ true) ↔ HasKey equal expected keys
unfolding contains_key
contains_key_iff equal expected [] = ground arith
contains_key_iff equal expected (key ∷ keys) = ground (arith, contains_key_iff equal expected keys)

module _ {V Key : Type 0} (lib : VoucherLibrary V Key) where
  abbrev pub IsOwned : V → List Key → Type 0
  IsOwned ov keys =
      (expected : Key) × (lib.owner_public_key ov ≡ some expected) × HasKey lib.equal expected keys

  abbrev pub HasHeader : V → Type 0
  HasHeader ov =
      (lib.version ov ≡ 101)
      × (lib.header_version ov ≡ 101)
      × ¬ (lib.codec.guid_of ov ≡ zero_guid)
      × ¬ (lib.codec.device_info_of ov ≡ [])
      × ¬ (lib.manufacturer_key_type ov ≡ 0)
      × ¬ (lib.rv_info ov ≡ [])

  abbrev pub IsIntact : V → Type 0
  IsIntact ov =
      (lib.verify_entries ov ≡ true)
      × (lib.verify_cert_chain_hash ov ≡ true)
      × (lib.verify_device_cert_chain ov ≡ true)
      × (lib.verify_manufacturer_cert_chain ov ≡ true)

  verify_integrity_iff : (ov : V) → (verify_integrity lib ov ≡ ok tt) ↔ IsIntact ov
  unfolding verify_integrity
  verify_integrity_iff ov = ground arith

  is_empty_iff : {A : Type 0} (xs : List A) → (is_empty xs ≡ true) ↔ (xs ≡ [])
  is_empty_iff [] = ground arith
  is_empty_iff (x ∷ xs) = ground arith

  verify_header_iff : (ov : V) → (verify_header lib ov ≡ ok tt) ↔ HasHeader ov
  unfolding verify_header
  verify_header_iff ov = ground (
    arith,
    =ᵇ_iff (lib.codec.guid_of ov) zero_guid,
    =ᵇ_iff (lib.codec.device_info_of ov) [],
    is_empty_iff (lib.rv_info ov),
  )

  HasKey-cons :
      (equal : Key → Key → Bool) (expected : Key) (keys : List Key)
      → HasKey equal expected keys
      → is_empty keys ≡ false
  HasKey-cons equal expected [] h = absurd h
  HasKey-cons equal expected (key ∷ keys) h = refl

  verify_voucher_ownership-IsOwned :
      (ov : V) (keys : List Key) → verify_voucher_ownership lib ov keys ≡ ok tt → IsOwned ov keys
  unfolding verify_voucher_ownership
  verify_voucher_ownership-IsOwned ov keys h =
      let (u, _, more) = >>=-eq-ok (refuse (is_empty keys) no_owner_keys) _ h in
      let (expected, known, found) =
        >>=-eq-ok (or_err (lib.owner_public_key ov) bad_owner_key) _ more in
      (
        expected,
        or_err-eq-ok (lib.owner_public_key ov) bad_owner_key known,
        ground (arith, found, contains_key_iff lib.equal expected keys),
      )

  IsOwned-verify_voucher_ownership :
      (ov : V) (keys : List Key) → IsOwned ov keys → verify_voucher_ownership lib ov keys ≡ ok tt
  unfolding verify_voucher_ownership
  IsOwned-verify_voucher_ownership ov keys (expected, known, has) =
      let found = (contains_key_iff lib.equal expected keys).1 has in
      rw (HasKey-cons lib.equal expected keys has, known, found)

  -- A voucher passes the verification exactly when its owner key is one of the server's, its header has
  -- the version 101 twice, a GUID that is not zero, a device info, a manufacturer key and some
  -- instruction, and the four checks of the library pass.
  pub verify_voucher_iff :
      (ov : V) (keys : List Key)
      → (verify_voucher lib ov keys ≡ ok tt) ↔ (IsOwned ov keys × HasHeader ov × IsIntact ov)
  unfolding verify_voucher verify_ownership_voucher
  verify_voucher_iff ov keys = (
    λ h.
        let (u, owned, more) = >>=-eq-ok (verify_voucher_ownership lib ov keys) _ h in
        let (w, header, intact) = >>=-eq-ok (verify_header lib ov) _ more in
        (
          verify_voucher_ownership-IsOwned ov keys owned,
          (verify_header_iff ov).0 header,
          (verify_integrity_iff ov).0 intact,
        ),
    λ (owned, header, intact).
        rw (IsOwned-verify_voucher_ownership ov keys owned, (verify_header_iff ov).1 header)
          ((verify_integrity_iff ov).1 intact),
  )
