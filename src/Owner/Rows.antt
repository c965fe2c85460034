-- ===== src/Owner/Rows.antt =====
-- The rows of internal/db/models.go that TO2 keeps, and how internal/db/state_to2.go encodes and decodes
-- their columns. The tables are keyed by sessions.
use go_fdo_server.Prelude.{
  List, ℕ, Bool, false, Option, none, some, [], Bytes, Text, Result, ok, err, or_err, ltb,
  copy_into, length, ◌>>=◌, if◌then◌else◌,
}
use go_fdo_server.Prelude.Codec.{Codec}
use go_fdo_server.Rendezvous.Session.{
  SessionError, not_found, cannot_marshal, cannot_unmarshal, no_binary_encoding, out_of_range,
  panic,
}

-- Go's int.
pub data ℤ : Type 0 where
  pos negsuc : ℕ → ℤ

-- A column that is NULL is `none`.
pub record To2Session : Type 0 where
  pub guid : Bytes
  pub rv_info : Option Bytes
  pub prove_device : Option Bytes
  pub setup_device : Option Bytes
  pub mtu : Option ℤ
  pub devmod : Option Bytes
  pub modules : Option Bytes
  pub devmod_complete : Option Bool

pub record ReplacementVoucher : Type 0 where
  pub guid : Bytes
  pub hmac : Option Bytes

pub record KeyExchange : Type 0 where
  pub suite : Text
  pub cbor : Bytes

-- The rows that `SetGUID` and `SetReplacementGUID` create.
abbrev pub new_to2_session : Bytes → To2Session
new_to2_session g = record {
  guid = g;
  rv_info = none;
  prove_device = none;
  setup_device = none;
  mtu = none;
  devmod = none;
  modules = none;
  devmod_complete = none;
}

abbrev pub new_replacement_voucher : Bytes → ReplacementVoucher
new_replacement_voucher g = record { guid = g; hmac = none }

-- `protocol.GUID` and `protocol.Nonce` are arrays of 16 bytes.
abbrev pub guid_size : ℕ
guid_size = 16

abbrev pub max_uint16 : ℕ
max_uint16 = 65535

-- A column that must not be NULL, copied into an array.
abbrev pub array_column : Option Bytes → Result SessionError Bytes
array_column none = err not_found
array_column (some stored) = ok (copy_into guid_size stored)

abbrev pub decode_column : {A : Type 0} → Codec A → Bytes → Result SessionError A
decode_column c stored = or_err (c.unmarshal stored) cannot_unmarshal

-- A NULL column is nil, of which CBOR has no value.
abbrev pub bytes_of : Option Bytes → Bytes
bytes_of none = []
bytes_of (some stored) = stored

-- The checks of `MTU`.
unfoldable pub mtu_value : Option ℤ → Result SessionError ℕ
mtu_value none = err not_found
mtu_value (some (negsuc n)) = err out_of_range
mtu_value (some (pos n)) = if ltb max_uint16 n then err out_of_range else ok n

-- A column of `Devmod`: NULL leaves the zero value.
unfoldable pub devmod_column : {A : Type 0} → Codec A → A → Option Bytes → Result SessionError A
devmod_column c zero_value none = ok zero_value
devmod_column c zero_value (some stored) = decode_column c stored

abbrev pub is_complete : Option Bool → Bool
is_complete none = false
is_complete (some complete) = complete

-- The columns of `SetDevmod`.
unfoldable pub encode_devmod :
    {D : Type 0}
    → Codec D
    → Codec (List Text)
    → D
    → List Text
    → Bool
    → Result SessionError (Bytes × Bytes × Bool)
encode_devmod devmods lists d names complete = or_err (devmods.marshal d) cannot_marshal >>= λ x.
    or_err (lists.marshal names) cannot_marshal >>= λ y. ok (x, y, complete)

-- The columns of `Devmod`.
unfoldable pub read_devmod :
    {D : Type 0}
    → Codec D
    → Codec (List Text)
    → D
    → To2Session
    → Result SessionError (D × List Text × Bool)
read_devmod devmods lists zero_value row = devmod_column devmods zero_value row.devmod >>= λ d.
    devmod_column lists [] row.modules >>= λ names. ok (d, names, is_complete row.devmod_complete)

-- A conversion of a slice to an array panics when the slice is too short.
abbrev pub to_array : Bytes → Result SessionError Bytes
to_array stored =
    if ltb (length stored) guid_size then err panic else ok (copy_into guid_size stored)

-- The key exchanges of the FDO library. `new` makes a session of a suite, and the type of a session
-- decides whether it can be encoded and decoded.
pub record KeyExchangeLibrary (X : Type 0) : Type 0 where
  pub is_marshaler : X → Bool
  pub is_unmarshaler : X → Bool
  pub marshal_binary : X → Option Bytes
  pub unmarshal_binary : X → Bytes → Option X
  pub new : Text → X

-- `sess.(encoding.BinaryMarshaler)` and `MarshalBinary`.
unfoldable pub encode_x_session :
    {X : Type 0} → KeyExchangeLibrary X → X → Result SessionError Bytes
encode_x_session lib x =
    if lib.is_marshaler x
    then or_err (lib.marshal_binary x) cannot_marshal
    else err no_binary_encoding

-- `sess.(encoding.BinaryUnmarshaler)` and `UnmarshalBinary`.
unfoldable pub decode_x_session :
    {X : Type 0} → KeyExchangeLibrary X → KeyExchange → Result SessionError (Text × X)
decode_x_session lib row =
    if lib.is_unmarshaler (lib.new row.suite)
    then (or_err (lib.unmarshal_binary (lib.new row.suite) row.cbor) cannot_unmarshal >>= λ x.
        ok (row.suite, x))
    else err no_binary_encoding
