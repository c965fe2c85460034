-- ===== src/Tests/Libraries.antt =====
-- Sample values of what comes from outside: small functions that obey the laws.
use go_fdo_server.Prelude.{
  ℕ, ◌≤◌, ◌≡◌, refl, true, ◌&&◌, Option, none, some, List, [], ◌∷◌, Bytes, Text, leb, ◌==◌,
  if◌then◌else◌, arith,
}
use go_fdo_server.Rv.Codes.{RvCodes, AreDistinct, AreUint8}
use go_fdo_server.Rv.Cbor.{Cbor, Net, Platform}
use go_fdo_server.V1.To2Addr.{Transports}

-- A value behind a tag.
abbrev pub untag : ℕ → Bytes → Option Bytes
untag n [] = none
untag n (x ∷ s) = if x == n then some s else none

pub untag_law : (n : ℕ) (s b : Bytes) → some (n ∷ s) ≡ some b → (n == n) ≡ true → untag n b ≡ some s
untag_law n s b h k = let same : n ∷ s ≡ b = cc h in rw (← same, k) refl

abbrev pub uint_of : ℕ → Bytes → Option ℕ
uint_of max [] = none
uint_of max (x ∷ []) = none
uint_of max (x ∷ n ∷ rest) = if (x == 0) && leb n max then some n else none

pub uint_law :
    (max n : ℕ) (b : Bytes) → some (0 ∷ n ∷ []) ≡ some b → n ≤ max → uint_of max b ≡ some n
uint_law max n b h k = let same : 0 ∷ n ∷ [] ≡ b = cc h in rw (← same) (ground arith)

-- At most one text.
abbrev pub encode_texts : List Text → Option Bytes
encode_texts [] = some (4 ∷ [])
encode_texts (s ∷ []) = some (5 ∷ s)
encode_texts (s ∷ t ∷ ss) = none

abbrev pub decode_texts : Bytes → Option (List Text)
decode_texts [] = none
decode_texts (x ∷ s) = if x == 4 then some [] else if x == 5 then some (s ∷ []) else none

pub texts_law : (ss : List Text) (b : Bytes) → encode_texts ss ≡ some b → decode_texts b ≡ some ss
texts_law [] b h = let same : 4 ∷ [] ≡ b = cc h in rw (← same) refl
texts_law (s ∷ []) b h = let same : 5 ∷ s ≡ b = cc h in rw (← same) refl
texts_law (s ∷ t ∷ ss) b h = cc h

pub text_is_no_array : (s b : Bytes) → some (3 ∷ s) ≡ some b → decode_texts b ≡ none
text_is_no_array s b h = let same : 3 ∷ s ≡ b = cc h in rw (← same) refl

abbrev pub sample_cbor : Cbor
sample_cbor = record {
  marshal_text = λ s. some (3 ∷ s);
  marshal_bool = λ b. some ((if b then 21 else 20) ∷ []);
  marshal_bytes = λ s. some (2 ∷ s);
  marshal_ip = λ s. some (2 ∷ s);
  marshal_uint = λ n. some (0 ∷ n ∷ []);
  marshal_int64 = λ f. none;
  marshal_texts = encode_texts;
  unmarshal_text = untag 3;
  unmarshal_bytes = untag 2;
  unmarshal_ip = untag 2;
  unmarshal_uint8 = uint_of 255;
  unmarshal_uint16 = uint_of 65535;
  unmarshal_uint32 = uint_of 4294967295;
  unmarshal_texts = decode_texts;
  text_law = λ s b h. untag_law 3 s b h refl;
  bytes_law = λ s b h. untag_law 2 s b h refl;
  ip_law = λ s b h. untag_law 2 s b h refl;
  uint8_law = uint_law 255;
  uint16_law = uint_law 65535;
  uint32_law = uint_law 4294967295;
  texts_law = texts_law;
  text_is_no_array = text_is_no_array;
}

abbrev pub sample_net : Net
sample_net = record {
  parse_ip = λ s. some s;
  ip_string = λ ip. ip;
  parse_ip-ip_string = λ s ip h. refl;
}

pub protocols_distinct : AreDistinct (0 ∷ 1 ∷ 2 ∷ 3 ∷ 4 ∷ 5 ∷ 6 ∷ [])
protocols_distinct = ground arith

pub media_distinct : AreDistinct (20 ∷ 21 ∷ [])
media_distinct = ground arith

pub in_range : AreUint8 (0 ∷ 1 ∷ 2 ∷ 3 ∷ 4 ∷ 5 ∷ 6 ∷ 20 ∷ 21 ∷ [])
in_range = ground arith

abbrev pub sample_codes : RvCodes
sample_codes = record {
  rest = 0;
  http = 1;
  https = 2;
  tcp = 3;
  tls = 4;
  coap_tcp = 5;
  coap_udp = 6;
  eth_all = 20;
  wifi_all = 21;
  protocols_distinct = protocols_distinct;
  media_distinct = media_distinct;
  in_range = in_range;
}

pub overflow_le : (max : ℕ) → max ≤ max
overflow_le max = omega arith

abbrev pub sample_platform : Platform
sample_platform = record {
  cbor = sample_cbor;
  net = sample_net;
  codes = sample_codes;
  overflow = λ f max. max;
  overflow_le = λ f max. overflow_le max;
}

abbrev pub sample_transports : Transports
sample_transports = record {
  tcp_transport = 1;
  tls_transport = 2;
  http_transport = 3;
  coap_transport = 4;
  https_transport = 5;
  coaps_transport = 6;
}
