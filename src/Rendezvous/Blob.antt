-- ===== src/Rendezvous/Blob.antt =====
-- internal/state/rvblob.go: the owner's blob of each device, until it expires. Times are instants,
-- counted from a common origin.
use go_fdo_server.Prelude.{
  ℕ, ◌≡◌, Option, some, Bytes, Result, ok, err, or_err, map_err, ◌>>=◌ as and_then, ltb,
  if◌then◌else◌,
}
use go_fdo_server.Prelude.Action.{Action, lift, handle, ◌>>=◌}
use go_fdo_server.Prelude.Table.{DbError, record_not_found, Table}

pub record RvBlob : Type 0 where
  pub rv : Bytes
  pub voucher : Bytes
  pub exp : ℕ

-- The signed blob and the voucher are values of the go-fdo library: their encoding, and the GUID in
-- a voucher's header. What marshals is read back.
pub record BlobCodec (To1d Voucher : Type 0) : Type 0 where
  pub marshal_to1d : To1d → Option Bytes
  pub unmarshal_to1d : Bytes → Option To1d
  pub marshal_voucher : Voucher → Option Bytes
  pub unmarshal_voucher : Bytes → Option Voucher
  pub guid_of : Voucher → Bytes
  pub to1d_law : (x : To1d) (b : Bytes) → marshal_to1d x ≡ some b → unmarshal_to1d b ≡ some x
  pub voucher_law :
      (x : Voucher) (b : Bytes) → marshal_voucher x ≡ some b → unmarshal_voucher b ≡ some x

pub data BlobError : Type 0 where
  not_found : BlobError
  to1d_codec voucher_codec : BlobError
  db : DbError → BlobError

-- `if err == gorm.ErrRecordNotFound { return fdo.ErrNotFound }`
abbrev pub query_error : DbError → BlobError
query_error record_not_found = not_found
query_error e = db e

abbrev pub or_query_error {ℓ} : {A : Type ℓ} → Result DbError A → Result BlobError A
or_query_error r = map_err query_error r

module _ {To1d Voucher S : Type 0} (c : BlobCodec To1d Voucher) (t : Table S RvBlob) where
  unfoldable pub set_rv_blob : Voucher → To1d → ℕ → Action S BlobError (Unit {0})
  set_rv_blob voucher to1d exp = do
    rv_bytes ← lift (or_err (c.marshal_to1d to1d) to1d_codec)
    voucher_bytes ← lift (or_err (c.marshal_voucher voucher) voucher_codec)
    handle
        (t.save (c.guid_of voucher) (record { rv = rv_bytes; voucher = voucher_bytes; exp = exp }))
        (λ r. lift (map_err db r))

  -- What a row means at time `now`: `time.Now().After(rvBlob.Exp)` hides it.
  unfoldable pub decode_blob : ℕ → RvBlob → Result BlobError (To1d × Voucher)
  decode_blob now b =
      if ltb b.exp now
      then err not_found
      else and_then (or_err (c.unmarshal_to1d b.rv) to1d_codec) (λ to1d.
        and_then (or_err (c.unmarshal_voucher b.voucher) voucher_codec)
          (λ voucher. ok (to1d, voucher)))

  unfoldable pub rv_blob : ℕ → Bytes → Action S BlobError (To1d × Voucher)
  rv_blob now guid = do
    b ← handle (t.first guid) (λ r. lift (or_query_error r))
    lift (decode_blob now b)

  -- The number of blobs that are deleted.
  unfoldable pub cleanup_expired_blobs : ℕ → Action S DbError ℕ
  cleanup_expired_blobs now = t.delete_where (λ b. ltb b.exp now)
