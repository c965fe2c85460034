-- ===== src/Tests/Documents.antt =====
-- The instruction documents: sample documents of both versions, and the theorems applied to them.
use go_fdo_server.Prelude.{
  ℕ, ◌≡◌, ◌≢◌, ◌↔◌, ◌≤◌, refl, Bool, true, false, Option, none, some, List, [], ◌∷◌, Bytes, Text,
  codes, Result, ok, err, inl, inr, ◌⊎◌, arith,
}
use go_fdo_server.Prelude.Float.{of_ℕ}
use go_fdo_server.Prelude.Decimal.{format_uint}
use go_fdo_server.Rv.{RvVar, dns, ip_address, dev_port, user_input, ext_rv, RvInstruction}
use go_fdo_server.Rv.Json.{Value, str, number, Object}
use go_fdo_server.Rv.Codes.{
  protocol_code_from_string, protocol_string_from_code, protocol_code-string_iff, IsNamedProtocol,
}
use go_fdo_server.V2.Directives.{parse_v2_json}
use go_fdo_server.V2.Converter.{convert_to_v2_json}
use go_fdo_server.V2.RoundTrip.{parse_v2_json-convert_to_v2_json}
use go_fdo_server.V2.Shape.{HasAddress, IsComplete, parse_v2_json-IsComplete}
use go_fdo_server.V1.Port.{parse_port_value, parse_port_value-format_uint}
use go_fdo_server.V1.Human.{RvHuman, parse_item}
use go_fdo_server.V1.Convert.{empty_item, convert_instructions}
use go_fdo_server.V1.Losses.{
  IsErr, parse_item-HasAddress, convert-ext_rv-IsErr, convert-user_input_true,
}
use go_fdo_server.V1.To2Addr.{
  To2Human, RvTo2Addr, parse_human_to_to2_addrs_json, AreUsable,
  parse_human_to_to2_addrs_json-AreUsable,
}
use go_fdo_server.Tests.Libraries.{sample_platform, sample_codes, sample_net, sample_transports}

-- `[[{"dns": "rv"}, {"device_port": 8080}]]`
abbrev document : List (List Object)
document =
    (((codes "dns", str (codes "rv")) ∷ []) ∷ ((codes "device_port", number (of_ℕ 8080)) ∷ []) ∷ [])
    ∷ []

abbrev instructions : List (List RvInstruction)
instructions =
    (record { variable = dns; value = 3 ∷ codes "rv" }
      ∷ record { variable = dev_port; value = 0 ∷ 8080 ∷ [] }
      ∷ [])
    ∷ []

document-parsed : parse_v2_json sample_platform document ≡ ok instructions
unfolding parse_v2_json go_fdo_server.V2.Directives.parse_group
    go_fdo_server.V2.Parser.parse_rv_instruction go_fdo_server.V2.Parser.key_variable
    go_fdo_server.Prelude.◌=ᵇ◌ go_fdo_server.V2.Parser.parse_variable
    go_fdo_server.V2.Parser.parse_text go_fdo_server.Rv.Json.as_string
    go_fdo_server.Rv.Cbor.encode_rv_value go_fdo_server.V2.Parser.parse_port
    go_fdo_server.V2.Parser.parse_port_value go_fdo_server.Rv.Json.as_number
    go_fdo_server.Prelude.Float.is_whole go_fdo_server.Prelude.Float.lt_const
    go_fdo_server.Prelude.Float.gt_const go_fdo_server.Prelude.Float.magnitude
document-parsed = refl

parse_v2_json-convert_to_v2_json_example :
    (written : List (List Object)) × (convert_to_v2_json sample_platform instructions ≡ ok written)
    × (parse_v2_json sample_platform written ≡ ok instructions)
parse_v2_json-convert_to_v2_json_example =
    parse_v2_json-convert_to_v2_json sample_platform document document-parsed

parse_v2_json-IsComplete_example : IsComplete document instructions
parse_v2_json-IsComplete_example = parse_v2_json-IsComplete sample_platform document document-parsed

protocol_code-string_iff_example :
    (protocol_code_from_string sample_codes (protocol_string_from_code sample_codes 9) ≡ some 9)
    ↔ IsNamedProtocol sample_codes 9
protocol_code-string_iff_example = protocol_code-string_iff sample_codes 9

printed_port : parse_port_value (str (format_uint 8080)) ≡ ok 8080
printed_port = parse_port_value-format_uint 8080 (omega arith) (omega arith)

-- An item with a DNS name, a text for user_input, and no ext_rv.
abbrev user_item : RvHuman
user_item = record empty_item { dns_name = codes "rv"; user_input_text = codes "no" }

abbrev user_group : List RvInstruction
user_group =
    record { variable = dns; value = 3 ∷ codes "rv" }
    ∷ record { variable = user_input; value = 3 ∷ codes "no" }
    ∷ []

user_item-parsed : parse_item sample_platform 0 user_item ≡ ok user_group
unfolding parse_item go_fdo_server.Prelude.◌=ᵇ◌ go_fdo_server.V1.Human.endpoint_group
    go_fdo_server.V1.Human.text_part go_fdo_server.Rv.Cbor.encode_rv_value
    go_fdo_server.V1.Human.protocol_part go_fdo_server.V1.Human.medium_part
    go_fdo_server.V1.Human.port_part go_fdo_server.V1.Human.option_group
    go_fdo_server.V1.Human.delay_part go_fdo_server.V1.Human.hash_part
    go_fdo_server.V1.Human.flag_part
user_item-parsed = refl

-- An item with an IP address and an ext_rv.
abbrev ext_item : RvHuman
ext_item = record empty_item { ip = codes "10.0.0.1"; ext_rv_text = codes "x" }

abbrev ext_group : List RvInstruction
ext_group =
    record { variable = ip_address; value = 2 ∷ codes "10.0.0.1" }
    ∷ record { variable = ext_rv; value = 3 ∷ codes "x" }
    ∷ []

ext_item-parsed : parse_item sample_platform 0 ext_item ≡ ok ext_group
unfolding parse_item go_fdo_server.Prelude.◌=ᵇ◌ go_fdo_server.V1.Human.endpoint_group
    go_fdo_server.V1.Human.text_part go_fdo_server.Rv.Cbor.encode_rv_value
    go_fdo_server.V1.Human.protocol_part go_fdo_server.V1.Human.medium_part
    go_fdo_server.V1.Human.port_part go_fdo_server.V1.Human.option_group
    go_fdo_server.V1.Human.delay_part go_fdo_server.V1.Human.hash_part
    go_fdo_server.V1.Human.flag_part
ext_item-parsed = refl

abbrev no_json : List Text → Option Text
no_json ss = none

abbrev written_item : RvHuman
written_item = record empty_item { dns_name = codes "rv"; user_input_text = codes "true" }

user_group-written :
    convert_instructions sample_platform no_json user_group empty_item ≡ ok written_item
unfolding convert_instructions
user_group-written = refl

parse_item-HasAddress_example : HasAddress ext_group
parse_item-HasAddress_example = parse_item-HasAddress sample_platform 0 ext_item ext_item-parsed

convert-ext_rv-IsErr_example :
    IsErr (convert_instructions sample_platform no_json ext_group empty_item)
convert-ext_rv-IsErr_example =
    convert-ext_rv-IsErr sample_platform no_json 0 ext_item ext_item-parsed (λ h. cc h)

convert-user_input_true_example : written_item.user_input_text ≡ codes "true"
convert-user_input_true_example =
    convert-user_input_true sample_platform no_json 0 user_item user_item-parsed (λ h. cc h)
      user_group-written

abbrev to2_items : List To2Human
to2_items =
    record { dns = codes "owner"; ip = []; port = codes "8043"; protocol = codes "https" } ∷ []

abbrev to2_addrs : List RvTo2Addr
to2_addrs =
    record {
      ip_address = none;
      dns_address = some (codes "owner");
      port = 8043;
      transport_protocol = 5;
    }
    ∷ []

to2_items-parsed :
    parse_human_to_to2_addrs_json sample_net sample_transports to2_items ≡ ok to2_addrs
unfolding parse_human_to_to2_addrs_json go_fdo_server.V1.To2Addr.parse_to2_item
    go_fdo_server.Prelude.◌=ᵇ◌ parse_port_value go_fdo_server.Prelude.Decimal.atoi
    go_fdo_server.V1.To2Addr.transport_protocol_from_string
to2_items-parsed = refl

parse_human_to_to2_addrs_json-AreUsable_example : AreUsable to2_items to2_addrs
parse_human_to_to2_addrs_json-AreUsable_example =
    parse_human_to_to2_addrs_json-AreUsable sample_net sample_transports to2_items to2_items-parsed
