-- ===== src/V2/Parser.antt =====
-- `parseRvInstruction` and `parsePortValue` of internal/handlers/rvinfo/parser.go.
use go_fdo_server.Prelude.{
  ℕ, ◌||◌, Option, none, some, [], Bytes, Text, codes, Result, ok, err, or_err, map_err, ◌>>=◌,
  ◌=ᵇ◌, if◌then◌else◌,
}
use go_fdo_server.Prelude.Hex
use go_fdo_server.Prelude.Float.{is_whole, lt_const, gt_const, magnitude}
use go_fdo_server.Rv.{
  RvVar, dns, ip_address, protocol, medium, dev_port, owner_port, wifi_ssid, wifi_pw, dev_only,
  owner_only, bypass, delaysec, sv_cert_hash, cl_cert_hash, user_input, ext_rv, other,
  RvInstruction,
}
use go_fdo_server.Rv.Json.{Value, as_string, as_bool, as_number, as_array, as_strings}
use go_fdo_server.Rv.Codes.{protocol_code_from_string, medium_code_from_string}
use go_fdo_server.Rv.Cbor.{Platform, EncodeError, text, uint, texts, to_uint, encode_rv_value}

pub data InstructionError : Type 0 where
  not_string not_boolean not_integer not_whole port_out_of_range : InstructionError
  negative_delay false_flag bad_hex not_array hash_not_marshalled : InstructionError
  not_string_at : ℕ → InstructionError
  unsupported_protocol unsupported_medium unknown_key : Text → InstructionError
  not_encoded : EncodeError → InstructionError

unfoldable pub parse_port_value : Value → Result InstructionError ℕ
parse_port_value v = do
  f ← or_err (as_number v) not_integer
  if is_whole f
      then (if lt_const f 1 || gt_const f 65535 then err port_out_of_range else ok (magnitude f))
      else err not_whole

-- The keys of the switch of `parseRvInstruction`, each with the variable that its case builds.
unfoldable pub key_variable : Text → Option RvVar
key_variable key =
    if key =ᵇ codes "dns"
    then some dns
    else if key =ᵇ codes "ip"
    then some ip_address
    else if key =ᵇ codes "protocol"
    then some protocol
    else if key =ᵇ codes "medium"
    then some medium
    else if key =ᵇ codes "device_port"
    then some dev_port
    else if key =ᵇ codes "owner_port"
    then some owner_port
    else if key =ᵇ codes "wifi_ssid"
    then some wifi_ssid
    else if key =ᵇ codes "wifi_pw"
    then some wifi_pw
    else if key =ᵇ codes "dev_only"
    then some dev_only
    else if key =ᵇ codes "owner_only"
    then some owner_only
    else if key =ᵇ codes "rv_bypass"
    then some bypass
    else if key =ᵇ codes "delay_seconds"
    then some delaysec
    else if key =ᵇ codes "sv_cert_hash"
    then some sv_cert_hash
    else if key =ᵇ codes "cl_cert_hash"
    then some cl_cert_hash
    else if key =ᵇ codes "user_input"
    then some user_input
    else if key =ᵇ codes "ext_rv"
    then some ext_rv
    else none

module _ (p : Platform) where
  abbrev pub instruction : RvVar → Bytes → RvInstruction
  instruction v enc = record { variable = v; value = enc }

  -- The cases "dns", "ip", "wifi_ssid" and "wifi_pw".
  unfoldable pub parse_text : RvVar → Value → Result InstructionError RvInstruction
  parse_text v value = do
    s ← or_err (as_string value) not_string
    enc ← map_err not_encoded (encode_rv_value p v (text s))
    ok (instruction v enc)

  unfoldable pub parse_protocol : Value → Result InstructionError RvInstruction
  parse_protocol value = do
    s ← or_err (as_string value) not_string
    code ← or_err (protocol_code_from_string p.codes s) (unsupported_protocol s)
    enc ← map_err not_encoded (encode_rv_value p protocol (uint code))
    ok (instruction protocol enc)

  unfoldable pub parse_medium : Value → Result InstructionError RvInstruction
  parse_medium value = do
    s ← or_err (as_string value) not_string
    m ← or_err (medium_code_from_string p.codes s) (unsupported_medium s)
    enc ← map_err not_encoded (encode_rv_value p medium (uint m))
    ok (instruction medium enc)

  -- The cases "device_port" and "owner_port".
  unfoldable pub parse_port :
      (Value → Result InstructionError ℕ) → RvVar → Value → Result InstructionError RvInstruction
  parse_port port_parser v value = do
    num ← port_parser value
    enc ← map_err not_encoded (encode_rv_value p v (uint num))
    ok (instruction v enc)

  -- The cases "dev_only", "owner_only", "rv_bypass" and "user_input": only `true` is written.
  unfoldable pub parse_flag : RvVar → Value → Result InstructionError RvInstruction
  parse_flag v value = do
    b ← or_err (as_bool value) not_boolean
    if b then ok (instruction v []) else err false_flag

  unfoldable pub parse_delay : Value → Result InstructionError RvInstruction
  parse_delay value = do
    num ← or_err (as_number value) not_integer
    if is_whole num
        then (if lt_const num 0 then err negative_delay else do
          enc ← map_err not_encoded (encode_rv_value p delaysec (uint (to_uint p num 4294967295)))
          ok (instruction delaysec enc))
        else err not_whole

  -- The cases "sv_cert_hash" and "cl_cert_hash".
  unfoldable pub parse_hash : RvVar → Value → Result InstructionError RvInstruction
  parse_hash v value = do
    s ← or_err (as_string value) not_string
    b ← or_err (Hex.decode s) bad_hex
    enc ← or_err (p.cbor.marshal_bytes b) hash_not_marshalled
    ok (instruction v enc)

  unfoldable pub parse_ext_rv : Value → Result InstructionError RvInstruction
  parse_ext_rv value = do
    arr ← or_err (as_array value) not_array
    ss ← map_err not_string_at (as_strings 0 arr)
    enc ← map_err not_encoded (encode_rv_value p ext_rv (texts ss))
    ok (instruction ext_rv enc)

  -- The body of the case that builds a variable.
  unfoldable pub parse_variable :
      (Value → Result InstructionError ℕ)
      → Text
      → RvVar
      → Value
      → Result InstructionError RvInstruction
  parse_variable ports key dns value = parse_text dns value
  parse_variable ports key ip_address value = parse_text ip_address value
  parse_variable ports key protocol value = parse_protocol value
  parse_variable ports key medium value = parse_medium value
  parse_variable ports key dev_port value = parse_port ports dev_port value
  parse_variable ports key owner_port value = parse_port ports owner_port value
  parse_variable ports key wifi_ssid value = parse_text wifi_ssid value
  parse_variable ports key wifi_pw value = parse_text wifi_pw value
  parse_variable ports key dev_only value = parse_flag dev_only value
  parse_variable ports key owner_only value = parse_flag owner_only value
  parse_variable ports key bypass value = parse_flag bypass value
  parse_variable ports key delaysec value = parse_delay value
  parse_variable ports key sv_cert_hash value = parse_hash sv_cert_hash value
  parse_variable ports key cl_cert_hash value = parse_hash cl_cert_hash value
  parse_variable ports key user_input value = parse_flag user_input value
  parse_variable ports key ext_rv value = parse_ext_rv value
  parse_variable ports key (other n) value = err (unknown_key key)

  unfoldable pub parse_rv_instruction :
      Text → Value → (Value → Result InstructionError ℕ) → Result InstructionError RvInstruction
  parse_rv_instruction key value port_parser = elim (key_variable key) [
    | none ↦ err (unknown_key key)
    | some v ↦ parse_variable port_parser key v value
  ]
