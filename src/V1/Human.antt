-- ===== src/V1/Human.antt =====
-- `ParseHumanReadableRvJSON` of internal/db/db.go, after `json.Unmarshal` has filled the items: a
-- key that is missing leaves the zero value of its field.
use go_fdo_server.Prelude.{
  ℕ, suc, Bool, ◌&&◌, Option, none, some, List, [], ◌∷◌, ◌++◌, Text, Result, ok, err, or_err,
  map_err, ◌>>=◌, ◌=ᵇ◌, if◌then◌else◌,
}
use go_fdo_server.Prelude.Hex
use go_fdo_server.Rv.{
  RvVar, dns, ip_address, protocol, medium, dev_port, owner_port, wifi_ssid, wifi_pw, dev_only,
  owner_only, bypass, delaysec, sv_cert_hash, cl_cert_hash, user_input, ext_rv, RvInstruction,
}
use go_fdo_server.Rv.Json.{str}
use go_fdo_server.Rv.Codes.{protocol_code_from_string, medium_code_from_string}
use go_fdo_server.Rv.Cbor.{Platform, EncodeError, GoValue, text, uint, encode_rv_value}
use go_fdo_server.V1.Port.{PortError, parse_port_value}

-- The fields of `rvHuman`; the two functions that use the type differ in `omitempty` only.
pub record RvHuman : Type 0 where
  pub dns_name : Text
  pub ip : Text
  pub protocol_name : Text
  pub medium_name : Text
  pub device_port : Text
  pub owner_port_text : Text
  pub wifi_ssid_name : Text
  pub wifi_password : Text
  pub is_dev_only : Bool
  pub is_owner_only : Bool
  pub rv_bypass : Bool
  pub delay_seconds : Option ℕ
  pub sv_hash : Text
  pub cl_hash : Text
  pub user_input_text : Text
  pub ext_rv_text : Text

pub data HumanError : Type 0 where
  no_address : ℕ → HumanError
  not_encoded : EncodeError → HumanError
  unsupported_protocol unsupported_medium : Text → HumanError
  bad_port : PortError → HumanError
  bad_hex hash_not_marshalled : HumanError

module _ (p : Platform) where
  encoded : RvVar → GoValue → Result HumanError (List RvInstruction)
  encoded v x = do
    enc ← map_err not_encoded (encode_rv_value p v x)
    ok (record { variable = v; value = enc } ∷ [])

  -- `if item.X != "" { … }`
  unless_empty :
      Text → Result HumanError (List RvInstruction) → Result HumanError (List RvInstruction)
  unless_empty s m = if s =ᵇ [] then ok [] else m

  unfoldable pub text_part : RvVar → Text → Result HumanError (List RvInstruction)
  unfolding encoded unless_empty
  text_part v s = unless_empty s (encoded v (text s))

  unfoldable pub protocol_part : Text → Result HumanError (List RvInstruction)
  unfolding encoded unless_empty
  protocol_part s = unless_empty s (do
    code ← or_err (protocol_code_from_string p.codes s) (unsupported_protocol s)
    encoded protocol (uint code))

  unfoldable pub medium_part : Text → Result HumanError (List RvInstruction)
  unfolding encoded unless_empty
  medium_part s = unless_empty s (do
    m ← or_err (medium_code_from_string p.codes s) (unsupported_medium s)
    encoded medium (uint m))

  unfoldable pub port_part : RvVar → Text → Result HumanError (List RvInstruction)
  unfolding encoded unless_empty
  port_part v s =
      unless_empty s (do num ← map_err bad_port (parse_port_value (str s)); encoded v (uint num))

  unfoldable pub flag_part : RvVar → Bool → List RvInstruction
  flag_part v b = if b then record { variable = v; value = [] } ∷ [] else []

  unfoldable pub delay_part : Option ℕ → Result HumanError (List RvInstruction)
  unfolding encoded
  delay_part none = ok []
  delay_part (some secs) = encoded delaysec (uint secs)

  unfoldable pub hash_part : RvVar → Text → Result HumanError (List RvInstruction)
  unfolding unless_empty
  hash_part v s = unless_empty s (do
    b ← or_err (Hex.decode s) bad_hex
    enc ← or_err (p.cbor.marshal_bytes b) hash_not_marshalled
    ok (record { variable = v; value = enc } ∷ []))

  -- The first half of the loop's body: the endpoint.
  unfoldable pub endpoint_group : RvHuman → Result HumanError (List RvInstruction)
  endpoint_group item = do
    a ← text_part dns item.dns_name
    b ← text_part ip_address item.ip
    c ← protocol_part item.protocol_name
    d ← medium_part item.medium_name
    e ← port_part dev_port item.device_port
    f ← port_part owner_port item.owner_port_text
    ok (a ++ (b ++ (c ++ (d ++ (e ++ f)))))

  -- The second half: network, flags, hashes, and the two values that come last.
  unfoldable pub option_group : RvHuman → Result HumanError (List RvInstruction)
  option_group item = do
    a ← text_part wifi_ssid item.wifi_ssid_name
    b ← text_part wifi_pw item.wifi_password
    c ← delay_part item.delay_seconds
    d ← hash_part sv_cert_hash item.sv_hash
    e ← hash_part cl_cert_hash item.cl_hash
    let flags =
        flag_part dev_only item.is_dev_only
        ++ (flag_part owner_only item.is_owner_only ++ flag_part bypass item.rv_bypass)
    ok (a ++ (b ++ (flags ++ (c ++ (d ++ e)))))

  unfoldable pub parse_item : ℕ → RvHuman → Result HumanError (List RvInstruction)
  parse_item i item = if (item.dns_name =ᵇ []) && (item.ip =ᵇ []) then err (no_address i) else do
    endpoint ← endpoint_group item
    options ← option_group item
    input ← text_part user_input item.user_input_text
    ext ← text_part ext_rv item.ext_rv_text
    ok (endpoint ++ (options ++ (input ++ ext)))

  unfoldable pub parse_items : ℕ → List RvHuman → Result HumanError (List (List RvInstruction))
  parse_items i [] = ok []
  parse_items i (item ∷ items) = do
    group ← parse_item i item
    rest ← parse_items (suc i) items
    ok (group ∷ rest)

  unfoldable pub parse_human_readable_rv_json :
      List RvHuman → Result HumanError (List (List RvInstruction))
  parse_human_readable_rv_json items = parse_items 0 items
