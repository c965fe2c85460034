-- ===== src/Rv/Cbor.antt =====
-- The libraries under the instruction values: go-fdo's cbor package and Go's net package, as
-- parameters with the laws that the code relies on; and `encodeRvValue`, which
-- internal/handlers/rvinfo/parser.go and internal/db/db.go define alike.
use go_fdo_server.Prelude.{
  ℕ, ◌≤◌, ◌≡◌, Bool, Option, none, some, List, Bytes, Text, Result, or_err, ◌>>=◌, ltb,
  if◌then◌else◌,
}
use go_fdo_server.Prelude.Float.{Float64, magnitude}
use go_fdo_server.Rv.{RvVar, ip_address, dev_port, owner_port, protocol, medium, delaysec}
use go_fdo_server.Rv.Codes.{RvCodes}

-- `cbor.Marshal` at each Go type that the code encodes, `cbor.Unmarshal` at each that it decodes.
-- A value that marshals is read back at its own type.
pub record Cbor : Type 0 where
  pub marshal_text : Text → Option Bytes
  pub marshal_bool : Bool → Option Bytes
  pub marshal_bytes : Bytes → Option Bytes
  pub marshal_ip : Bytes → Option Bytes
  pub marshal_uint : ℕ → Option Bytes
  pub marshal_int64 : Float64 → Option Bytes
  pub marshal_texts : List Text → Option Bytes
  pub unmarshal_text : Bytes → Option Text
  pub unmarshal_bytes : Bytes → Option Bytes
  pub unmarshal_ip : Bytes → Option Bytes
  pub unmarshal_uint8 : Bytes → Option ℕ
  pub unmarshal_uint16 : Bytes → Option ℕ
  pub unmarshal_uint32 : Bytes → Option ℕ
  pub unmarshal_texts : Bytes → Option (List Text)
  pub text_law : (s : Text) (b : Bytes) → marshal_text s ≡ some b → unmarshal_text b ≡ some s
  pub bytes_law : (s b : Bytes) → marshal_bytes s ≡ some b → unmarshal_bytes b ≡ some s
  pub ip_law : (s b : Bytes) → marshal_ip s ≡ some b → unmarshal_ip b ≡ some s
  pub uint8_law :
      (n : ℕ) (b : Bytes) → marshal_uint n ≡ some b → n ≤ 255 → unmarshal_uint8 b ≡ some n
  pub uint16_law :
      (n : ℕ) (b : Bytes) → marshal_uint n ≡ some b → n ≤ 65535 → unmarshal_uint16 b ≡ some n
  pub uint32_law :
      (n : ℕ) (b : Bytes) → marshal_uint n ≡ some b → n ≤ 4294967295 → unmarshal_uint32 b ≡ some n
  pub texts_law :
      (s : List Text) (b : Bytes) → marshal_texts s ≡ some b → unmarshal_texts b ≡ some s
  -- A text string is no array: the major types differ.
  pub text_is_no_array : (s : Text) (b : Bytes) → marshal_text s ≡ some b → unmarshal_texts b ≡ none

-- `net.ParseIP` and `IP.String`: a parsed address prints to a text that parses to it.
pub record Net : Type 0 where
  pub parse_ip : Text → Option Bytes
  pub ip_string : Bytes → Text
  pub parse_ip-ip_string :
      (s : Text) (ip : Bytes) → parse_ip s ≡ some ip → parse_ip (ip_string ip) ≡ some ip

-- All that the code takes from outside. Go leaves the conversion of a float64 to a type that cannot
-- hold its value to the implementation; its result is some value of the type.
pub record Platform : Type 0 where
  pub cbor : Cbor
  pub net : Net
  pub codes : RvCodes
  pub overflow : Float64 → ℕ → ℕ
  pub overflow_le : (f : Float64) (max : ℕ) → overflow f max ≤ max

pub data EncodeError : Type 0 where
  invalid_ip : Text → EncodeError
  marshal_failed : EncodeError

-- The dynamic type of the value that is encoded.
pub data GoValue : Type 0 where
  text : Text → GoValue
  flag : Bool → GoValue
  float : Float64 → GoValue
  uint : ℕ → GoValue
  texts : List Text → GoValue

module _ (p : Platform) where
  -- `uint8(f)`, `uint16(f)`, `uint32(f)`, by the greatest value of the type.
  unfoldable pub to_uint : Float64 → ℕ → ℕ
  to_uint f max = if ltb max (magnitude f) then p.overflow f max else magnitude f

  marshal : Option Bytes → Result EncodeError Bytes
  marshal r = or_err r marshal_failed

  encode_text : RvVar → Text → Result EncodeError Bytes
  unfolding marshal
  encode_text ip_address s = do
    ip ← or_err (p.net.parse_ip s) (invalid_ip s)
    marshal (p.cbor.marshal_ip ip)
  encode_text v s = marshal (p.cbor.marshal_text s)

  encode_float : RvVar → Float64 → Result EncodeError Bytes
  unfolding marshal to_uint
  encode_float dev_port f = marshal (p.cbor.marshal_uint (to_uint f 65535))
  encode_float owner_port f = marshal (p.cbor.marshal_uint (to_uint f 65535))
  encode_float protocol f = marshal (p.cbor.marshal_uint (to_uint f 255))
  encode_float medium f = marshal (p.cbor.marshal_uint (to_uint f 255))
  encode_float delaysec f = marshal (p.cbor.marshal_uint (to_uint f 4294967295))
  encode_float v f = marshal (p.cbor.marshal_int64 f)

  unfoldable pub encode_rv_value : RvVar → GoValue → Result EncodeError Bytes
  unfolding encode_text encode_float
  encode_rv_value v (text s) = encode_text v s
  encode_rv_value v (flag b) = marshal (p.cbor.marshal_bool b)
  encode_rv_value v (float f) = encode_float v f
  encode_rv_value v (uint n) = marshal (p.cbor.marshal_uint n)
  encode_rv_value v (texts ss) = marshal (p.cbor.marshal_texts ss)
