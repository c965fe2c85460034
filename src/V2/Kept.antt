-- ===== src/V2/Kept.antt =====
-- Each instruction that `parseRvInstruction` builds is written by the converter as a value that parses
-- to it again, one lemma for each case.
use go_fdo_server.Prelude.{
  ℕ, ◌≤◌, ◌≡◌, true, some, Text, ok, Option-cases, Result-cases, inl, inr, arith, refl, ◌=ᵇ◌,
}
use go_fdo_server.Prelude.Hex
use go_fdo_server.Prelude.Hex.{decode-encode, decode-AreBytes}
use go_fdo_server.Prelude.Float.{Float64, of_ℕ, of_ℕ_lem, of_ℕ_bounds, magnitude_bounds}
use go_fdo_server.Rv.{
  RvVar, dns, ip_address, protocol, medium, dev_port, owner_port, wifi_ssid, wifi_pw, dev_only,
  owner_only, bypass, delaysec, sv_cert_hash, cl_cert_hash, user_input, ext_rv, other,
  RvInstruction,
}
use go_fdo_server.Rv.Json.{
  Value, bool, number, str, array, as_string, as_bool, as_number, as_array, as_strings, of_strings,
  as_strings-of_strings,
}
use go_fdo_server.Rv.Codes.{
  protocol_code_from_string, medium_code_from_string, protocol_string-code, medium_string-code,
  protocol_code_from_string-le, medium_code_from_string-le,
}
use go_fdo_server.Rv.Cbor.{Platform, to_uint, encode_rv_value}
use go_fdo_server.V2.Parser.{
  parse_port_value, parse_text, parse_protocol, parse_medium, parse_port, parse_flag, parse_delay,
  parse_hash, parse_ext_rv, parse_variable, key_variable,
}
use go_fdo_server.V2.Converter.{item_key, item_value}

module _ (p : Platform) where
  -- An instruction reads back if what the converter writes for it parses to it again.
  abbrev pub ReadsBack : RvVar → RvInstruction → Type 0
  ReadsBack v i =
      (w : Value) × (item_value p i v ≡ ok w)
      × (parse_variable p parse_port_value (item_key v) v w ≡ ok i)

  abbrev pub Kept : RvVar → Type 0
  Kept v =
      (key : Text) (value : Value) (i : RvInstruction)
      → parse_variable p parse_port_value key v value ≡ ok i
      → ReadsBack v i

  dns-Kept : Kept dns
  unfolding parse_variable parse_text item_value encode_rv_value as_string
  dns-Kept key (str s) i h = (str s, ground (arith, p.cbor.text_law s i.value), ground arith)
  dns-Kept key value i h = ground arith

  wifi_ssid-Kept : Kept wifi_ssid
  unfolding parse_variable parse_text item_value encode_rv_value as_string
  wifi_ssid-Kept key (str s) i h = (str s, ground (arith, p.cbor.text_law s i.value), ground arith)
  wifi_ssid-Kept key value i h = ground arith

  wifi_pw-Kept : Kept wifi_pw
  unfolding parse_variable parse_text item_value encode_rv_value as_string
  wifi_pw-Kept key (str s) i h = (str s, ground (arith, p.cbor.text_law s i.value), ground arith)
  wifi_pw-Kept key value i h = ground arith

  ip_address-Kept : Kept ip_address
  unfolding parse_variable parse_text item_value encode_rv_value as_string
  ip_address-Kept key (str s) i h = elim (Option-cases (p.net.parse_ip s)) [
    | inl bad ↦ ground arith
    | inr (ip, parsed) ↦ (
      str (p.net.ip_string ip),
      ground (arith, p.cbor.ip_law ip i.value),
      ground (arith, p.net.parse_ip-ip_string s ip),
    )
  ]
  ip_address-Kept key value i h = ground arith

  protocol-Kept : Kept protocol
  unfolding parse_variable parse_protocol item_value encode_rv_value as_string
  protocol-Kept key (str s) i h = elim (Option-cases (protocol_code_from_string p.codes s)) [
    | inl bad ↦ ground arith
    | inr (c, known) ↦ (
      str s,
      ground (
        arith,
        p.cbor.uint8_law c i.value,
        protocol_code_from_string-le p.codes s known,
        protocol_string-code p.codes s known,
      ),
      ground arith,
    )
  ]
  protocol-Kept key value i h = ground arith

  medium-Kept : Kept medium
  unfolding parse_variable parse_medium item_value encode_rv_value as_string
  medium-Kept key (str s) i h = elim (Option-cases (medium_code_from_string p.codes s)) [
    | inl bad ↦ ground arith
    | inr (c, known) ↦ (
      str s,
      ground (
        arith,
        p.cbor.uint8_law c i.value,
        medium_code_from_string-le p.codes s known,
        medium_string-code p.codes s known,
      ),
      ground arith,
    )
  ]
  medium-Kept key value i h = ground arith

  -- A port that is accepted lies between 1 and 65535, and is read back from its integer.
  pub parse_port_value_bounds :
      (v : Value) {n : ℕ} → parse_port_value v ≡ ok n → (1 ≤ n) × (n ≤ 65535)
  unfolding parse_port_value as_number
  parse_port_value_bounds (number f) h = ground (arith, magnitude_bounds f 1 65535)
  parse_port_value_bounds v h = ground arith

  parse_port_value-of_ℕ : (n : ℕ) → 1 ≤ n → n ≤ 65535 → parse_port_value (number (of_ℕ n)) ≡ ok n
  unfolding parse_port_value as_number
  parse_port_value-of_ℕ n h k = ground (arith, of_ℕ_lem n, of_ℕ_bounds n 1 65535 h k)

  dev_port-Kept : Kept dev_port
  unfolding parse_variable parse_port item_value encode_rv_value
  dev_port-Kept key value i h = elim (Result-cases (parse_port_value value)) [
    | inl (e, bad) ↦ ground arith
    | inr (n, good) ↦
        let (lo, hi) = parse_port_value_bounds value good in
        (
          number (of_ℕ n),
          ground (arith, p.cbor.uint16_law n i.value),
          ground (arith, parse_port_value-of_ℕ n lo hi),
        )
  ]

  owner_port-Kept : Kept owner_port
  unfolding parse_variable parse_port item_value encode_rv_value
  owner_port-Kept key value i h = elim (Result-cases (parse_port_value value)) [
    | inl (e, bad) ↦ ground arith
    | inr (n, good) ↦
        let (lo, hi) = parse_port_value_bounds value good in
        (
          number (of_ℕ n),
          ground (arith, p.cbor.uint16_law n i.value),
          ground (arith, parse_port_value-of_ℕ n lo hi),
        )
  ]

  to_uint-le : (f : Float64) (max : ℕ) → to_uint p f max ≤ max
  unfolding to_uint
  to_uint-le f max = ground (arith, p.overflow_le f max)

  to_uint-of_ℕ : (n max : ℕ) → n ≤ max → to_uint p (of_ℕ n) max ≡ n
  unfolding to_uint
  to_uint-of_ℕ n max h = ground (arith, of_ℕ_lem n)

  delaysec-Kept : Kept delaysec
  unfolding parse_variable parse_delay item_value encode_rv_value as_number
  delaysec-Kept key (number f) i h =
      let n = to_uint p f 4294967295 in
      let small = to_uint-le f 4294967295 in
      (
        number (of_ℕ n),
        ground (arith, p.cbor.uint32_law n i.value),
        ground (arith, of_ℕ_lem n, of_ℕ_bounds n 0 4294967295, to_uint-of_ℕ n 4294967295 small),
      )
  delaysec-Kept key value i h = ground arith

  sv_cert_hash-Kept : Kept sv_cert_hash
  unfolding parse_variable parse_hash item_value as_string
  sv_cert_hash-Kept key (str s) i h = elim (Option-cases (Hex.decode s)) [
    | inl bad ↦ ground arith
    | inr (b, decoded) ↦ (
      str (Hex.encode b),
      ground (arith, p.cbor.bytes_law b i.value),
      ground (arith, decode-encode b (decode-AreBytes s decoded)),
    )
  ]
  sv_cert_hash-Kept key value i h = ground arith

  cl_cert_hash-Kept : Kept cl_cert_hash
  unfolding parse_variable parse_hash item_value as_string
  cl_cert_hash-Kept key (str s) i h = elim (Option-cases (Hex.decode s)) [
    | inl bad ↦ ground arith
    | inr (b, decoded) ↦ (
      str (Hex.encode b),
      ground (arith, p.cbor.bytes_law b i.value),
      ground (arith, decode-encode b (decode-AreBytes s decoded)),
    )
  ]
  cl_cert_hash-Kept key value i h = ground arith

  ext_rv-Kept : Kept ext_rv
  unfolding parse_variable parse_ext_rv item_value encode_rv_value as_array
  ext_rv-Kept key (array vs) i h = elim (Result-cases (as_strings 0 vs)) [
    | inl (e, bad) ↦ ground arith
    | inr (ss, good) ↦ (
      array (of_strings ss),
      ground (arith, p.cbor.texts_law ss i.value),
      ground (arith, as_strings-of_strings 0 ss),
    )
  ]
  ext_rv-Kept key value i h = ground arith

  flag-Kept :
      (v : RvVar) (value : Value) (i : RvInstruction)
      → parse_flag p v value ≡ ok i
      → parse_flag p v (bool true) ≡ ok i
  unfolding parse_flag as_bool
  flag-Kept v (bool b) i h = ground arith
  flag-Kept v value i h = ground arith

  pub variable-Kept : (v : RvVar) → Kept v
  variable-Kept dns = dns-Kept
  variable-Kept ip_address = ip_address-Kept
  variable-Kept protocol = protocol-Kept
  variable-Kept medium = medium-Kept
  variable-Kept dev_port = dev_port-Kept
  variable-Kept owner_port = owner_port-Kept
  variable-Kept wifi_ssid = wifi_ssid-Kept
  variable-Kept wifi_pw = wifi_pw-Kept
  variable-Kept dev_only =
      unfold parse_variable item_value in
      λ key value i h. (bool true, refl, flag-Kept dev_only value i h)
  variable-Kept owner_only =
      unfold parse_variable item_value in
      λ key value i h. (bool true, refl, flag-Kept owner_only value i h)
  variable-Kept bypass =
      unfold parse_variable item_value in
      λ key value i h. (bool true, refl, flag-Kept bypass value i h)
  variable-Kept delaysec = delaysec-Kept
  variable-Kept sv_cert_hash = sv_cert_hash-Kept
  variable-Kept cl_cert_hash = cl_cert_hash-Kept
  variable-Kept user_input =
      unfold parse_variable item_value in
      λ key value i h. (bool true, refl, flag-Kept user_input value i h)
  variable-Kept ext_rv = ext_rv-Kept
  variable-Kept (other n) = unfold parse_variable in λ key value i h. cc

  -- The instruction that a case builds has the case's variable.
  pub variable-parse_variable :
      (v : RvVar) (key : Text) (value : Value) (i : RvInstruction)
      → parse_variable p parse_port_value key v value ≡ ok i
      → i.variable ≡ v
  unfolding parse_variable parse_text parse_protocol parse_medium parse_port parse_flag parse_delay
      parse_hash parse_ext_rv
  variable-parse_variable dns key value i h = ground arith
  variable-parse_variable v key value i h = ground arith

  -- The converter writes the key that the parser reads.
  pub key_variable-item_key :
      (v : RvVar) (w : Value) (i : RvInstruction)
      → parse_variable p parse_port_value (item_key v) v w ≡ ok i
      → key_variable (item_key v) ≡ some v
  unfolding key_variable ◌=ᵇ◌ parse_variable
  key_variable-item_key (other n) w i h = cc
  key_variable-item_key v w i h = refl
