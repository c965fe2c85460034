-- ===== src/V2/Converter.antt =====
-- `convertToV2JSON` of internal/handlers/rvinfo/converter.go, up to the final `json.Marshal`.
use go_fdo_server.Prelude.{true, List, [], ◌∷◌, Text, codes, Result, ok, or_err, ◌>>=◌}
use go_fdo_server.Prelude.Hex
use go_fdo_server.Prelude.Float.{of_ℕ}
use go_fdo_server.Rv.{
  RvVar, dns, ip_address, protocol, medium, dev_port, owner_port, wifi_ssid, wifi_pw, dev_only,
  owner_only, bypass, delaysec, sv_cert_hash, cl_cert_hash, user_input, ext_rv, other,
  RvInstruction,
}
use go_fdo_server.Rv.Json.{Value, bool, number, str, array, Object, of_strings}
use go_fdo_server.Rv.Codes.{protocol_string_from_code, medium_string_from_code}
use go_fdo_server.Rv.Cbor.{Platform}

-- A value that cannot be unmarshalled at its variable's type.
pub data ConvertError : Type 0 where
  not_unmarshalled : RvVar → ConvertError

-- The name under which a variable's value is written.
abbrev pub item_key : RvVar → Text
item_key dns = codes "dns"
item_key ip_address = codes "ip"
item_key protocol = codes "protocol"
item_key medium = codes "medium"
item_key dev_port = codes "device_port"
item_key owner_port = codes "owner_port"
item_key wifi_ssid = codes "wifi_ssid"
item_key wifi_pw = codes "wifi_pw"
item_key dev_only = codes "dev_only"
item_key owner_only = codes "owner_only"
item_key bypass = codes "rv_bypass"
item_key delaysec = codes "delay_seconds"
item_key sv_cert_hash = codes "sv_cert_hash"
item_key cl_cert_hash = codes "cl_cert_hash"
item_key user_input = codes "user_input"
item_key ext_rv = codes "ext_rv"
item_key (other n) = []

module _ (p : Platform) where
  -- The value that the case of a variable writes. `other` has no case.
  unfoldable pub item_value : RvInstruction → RvVar → Result ConvertError Value
  item_value i dns = do
    s ← or_err (p.cbor.unmarshal_text i.value) (not_unmarshalled dns)
    ok (str s)
  item_value i ip_address = do
    ip ← or_err (p.cbor.unmarshal_ip i.value) (not_unmarshalled ip_address)
    ok (str (p.net.ip_string ip))
  item_value i protocol = do
    code ← or_err (p.cbor.unmarshal_uint8 i.value) (not_unmarshalled protocol)
    ok (str (protocol_string_from_code p.codes code))
  item_value i medium = do
    m ← or_err (p.cbor.unmarshal_uint8 i.value) (not_unmarshalled medium)
    ok (str (medium_string_from_code p.codes m))
  item_value i dev_port = do
    port ← or_err (p.cbor.unmarshal_uint16 i.value) (not_unmarshalled dev_port)
    ok (number (of_ℕ port))
  item_value i owner_port = do
    port ← or_err (p.cbor.unmarshal_uint16 i.value) (not_unmarshalled owner_port)
    ok (number (of_ℕ port))
  item_value i wifi_ssid = do
    s ← or_err (p.cbor.unmarshal_text i.value) (not_unmarshalled wifi_ssid)
    ok (str s)
  item_value i wifi_pw = do
    s ← or_err (p.cbor.unmarshal_text i.value) (not_unmarshalled wifi_pw)
    ok (str s)
  item_value i delaysec = do
    secs ← or_err (p.cbor.unmarshal_uint32 i.value) (not_unmarshalled delaysec)
    ok (number (of_ℕ secs))
  item_value i sv_cert_hash = do
    hash ← or_err (p.cbor.unmarshal_bytes i.value) (not_unmarshalled sv_cert_hash)
    ok (str (Hex.encode hash))
  item_value i cl_cert_hash = do
    hash ← or_err (p.cbor.unmarshal_bytes i.value) (not_unmarshalled cl_cert_hash)
    ok (str (Hex.encode hash))
  item_value i ext_rv = do
    ss ← or_err (p.cbor.unmarshal_texts i.value) (not_unmarshalled ext_rv)
    ok (array (of_strings ss))
  item_value i v = ok (bool true)

  -- The object that one instruction becomes: empty for a variable that the switch does not name.
  unfoldable pub convert_variable : RvInstruction → RvVar → Result ConvertError Object
  convert_variable i (other n) = ok []
  convert_variable i v = do value ← item_value i v; ok ((item_key v, value) ∷ [])

  unfoldable pub convert_instruction : RvInstruction → Result ConvertError Object
  unfolding convert_variable
  convert_instruction i = convert_variable i i.variable

  unfoldable pub convert_group : List RvInstruction → Result ConvertError (List Object)
  convert_group [] = ok []
  convert_group (i ∷ is) = do
    item ← convert_instruction i
    rest ← convert_group is
    ok (item ∷ rest)

  unfoldable pub convert_to_v2_json :
      List (List RvInstruction) → Result ConvertError (List (List Object))
  convert_to_v2_json [] = ok []
  convert_to_v2_json (d ∷ ds) = do
    group ← convert_group d
    rest ← convert_to_v2_json ds
    ok (group ∷ rest)
