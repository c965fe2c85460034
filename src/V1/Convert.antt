-- ===== src/V1/Convert.antt =====
-- `ConvertRvInstructionsToV1JSON` of internal/db/db.go, up to the final `json.Marshal`.
use go_fdo_server.Prelude.{
  true, false, Option, none, some, List, [], ◌∷◌, Bytes, Text, codes, Result, ok, or_err, ◌>>=◌,
}
use go_fdo_server.Prelude.Hex
use go_fdo_server.Prelude.Decimal.{format_uint}
use go_fdo_server.Rv.{
  RvVar, dns, ip_address, protocol, medium, dev_port, owner_port, wifi_ssid, wifi_pw, dev_only,
  owner_only, bypass, delaysec, sv_cert_hash, cl_cert_hash, user_input, ext_rv, other,
  RvInstruction,
}
use go_fdo_server.Rv.Codes.{protocol_string_from_code, medium_string_from_code}
use go_fdo_server.Rv.Cbor.{Platform}
use go_fdo_server.V1.Human.{RvHuman}

pub data ConvertError : Type 0 where
  not_unmarshalled : RvVar → ConvertError
  ext_rv_not_marshalled : ConvertError

-- `rvHuman{}`
abbrev pub empty_item : RvHuman
empty_item = record {
  dns_name = [];
  ip = [];
  protocol_name = [];
  medium_name = [];
  device_port = [];
  owner_port_text = [];
  wifi_ssid_name = [];
  wifi_password = [];
  is_dev_only = false;
  is_owner_only = false;
  rv_bypass = false;
  delay_seconds = none;
  sv_hash = [];
  cl_hash = [];
  user_input_text = [];
  ext_rv_text = [];
}

-- `json_texts` is Go's `json.Marshal` of a []string.
module _ (p : Platform) (json_texts : List Text → Option Text) where
  abbrev read {ℓ} : {A : Type ℓ} → RvVar → Option A → Result ConvertError A
  read v r = or_err r (not_unmarshalled v)

  -- The case of a variable, on the item so far.
  unfoldable pub set_variable : RvVar → Bytes → RvHuman → Result ConvertError RvHuman
  set_variable dns x item = do
    s ← read dns (p.cbor.unmarshal_text x)
    ok (record item { dns_name = s })
  set_variable ip_address x item = do
    ip ← read ip_address (p.cbor.unmarshal_ip x)
    ok (record item { ip = p.net.ip_string ip })
  set_variable protocol x item = do
    code ← read protocol (p.cbor.unmarshal_uint8 x)
    ok (record item { protocol_name = protocol_string_from_code p.codes code })
  set_variable medium x item = do
    m ← read medium (p.cbor.unmarshal_uint8 x)
    ok (record item { medium_name = medium_string_from_code p.codes m })
  set_variable dev_port x item = do
    port ← read dev_port (p.cbor.unmarshal_uint16 x)
    ok (record item { device_port = format_uint port })
  set_variable owner_port x item = do
    port ← read owner_port (p.cbor.unmarshal_uint16 x)
    ok (record item { owner_port_text = format_uint port })
  set_variable wifi_ssid x item = do
    ssid ← read wifi_ssid (p.cbor.unmarshal_text x)
    ok (record item { wifi_ssid_name = ssid })
  set_variable wifi_pw x item = do
    pw ← read wifi_pw (p.cbor.unmarshal_text x)
    ok (record item { wifi_password = pw })
  set_variable dev_only x item = ok (record item { is_dev_only = true })
  set_variable owner_only x item = ok (record item { is_owner_only = true })
  set_variable bypass x item = ok (record item { rv_bypass = true })
  set_variable delaysec x item = do
    secs ← read delaysec (p.cbor.unmarshal_uint32 x)
    ok (record item { delay_seconds = some secs })
  set_variable sv_cert_hash x item = do
    hash ← read sv_cert_hash (p.cbor.unmarshal_bytes x)
    ok (record item { sv_hash = Hex.encode hash })
  set_variable cl_cert_hash x item = do
    hash ← read cl_cert_hash (p.cbor.unmarshal_bytes x)
    ok (record item { cl_hash = Hex.encode hash })
  set_variable user_input x item = ok (record item { user_input_text = codes "true" })
  set_variable ext_rv x item = do
    ss ← read ext_rv (p.cbor.unmarshal_texts x)
    json ← or_err (json_texts ss) ext_rv_not_marshalled
    ok (record item { ext_rv_text = json })
  set_variable (other n) x item = ok item

  -- The loop over the instructions of a directive.
  unfoldable pub convert_instructions : List RvInstruction → RvHuman → Result ConvertError RvHuman
  unfolding set_variable
  convert_instructions [] item = ok item
  convert_instructions (i ∷ is) item = do
    item' ← set_variable i.variable i.value item
    convert_instructions is item'

  unfoldable pub convert_directives : List (List RvInstruction) → Result ConvertError (List RvHuman)
  convert_directives [] = ok []
  convert_directives (d ∷ ds) = do
    item ← convert_instructions d empty_item
    rest ← convert_directives ds
    ok (item ∷ rest)
