-- ===== src/V1/To2Addr.antt =====
-- `parseHumanToTO2AddrsJSON` and `transportProtocolFromString` of internal/db/db.go, after
-- `json.Unmarshal` has filled the items.
use go_fdo_server.Prelude.{
  ℕ, suc, ◌≤◌, ◌≡◌, ◌⊎◌, inl, inr, Bool, true, false, Option, none, some, List, [], ◌∷◌, Bytes,
  Text, codes, Result, ok, err, or_err, map_err, ◌>>=◌, >>=-eq-ok, map_err-eq-ok, arith, ◌=ᵇ◌,
  =ᵇ_iff, if◌then◌else◌, ◌≢◌, Bool-cases,
}
use go_fdo_server.Rv.Json.{str}
use go_fdo_server.Rv.Cbor.{Net}
use go_fdo_server.V1.Port.{PortError, parse_port_value, parse_port_value_bounds}

pub record To2Human : Type 0 where
  pub dns : Text
  pub ip : Text
  pub port : Text
  pub protocol : Text

-- protocol.RvTO2Addr: a nil pointer is `none`; a port or protocol that is not given is 0.
pub record RvTo2Addr : Type 0 where
  pub ip_address : Option Bytes
  pub dns_address : Option Text
  pub port : ℕ
  pub transport_protocol : ℕ

-- The transport constants of go-fdo's protocol package.
pub record Transports : Type 0 where
  pub tcp_transport : ℕ
  pub tls_transport : ℕ
  pub http_transport : ℕ
  pub coap_transport : ℕ
  pub https_transport : ℕ
  pub coaps_transport : ℕ

pub data To2Error : Type 0 where
  invalid_ip unsupported_transport : Text → To2Error
  no_address : ℕ → To2Error
  bad_port : PortError → To2Error

dns_pointer : Text → Option Text
dns_pointer s = if s =ᵇ [] then none else some s

-- `ipPtr == nil && dnsPtr == nil`
both_nil : Option Bytes → Option Text → Bool
both_nil none none = true
both_nil ip dns = false

module _ (net : Net) (k : Transports) where
  open k use {
    tcp_transport, tls_transport, http_transport, coap_transport, https_transport, coaps_transport,
  }

  unfoldable pub transport_protocol_from_string : Text → Option ℕ
  transport_protocol_from_string s =
      if s =ᵇ codes "tcp"
      then some tcp_transport
      else if s =ᵇ codes "tls"
      then some tls_transport
      else if s =ᵇ codes "http"
      then some http_transport
      else if s =ᵇ codes "coap"
      then some coap_transport
      else if s =ᵇ codes "https"
      then some https_transport
      else if s =ᵇ codes "coaps"
      then some coaps_transport
      else none

  parse_address : Text → Result To2Error (Option Bytes)
  parse_address s =
      if s =ᵇ [] then ok none else (do ip ← or_err (net.parse_ip s) (invalid_ip s); ok (some ip))

  parse_port : Text → Result To2Error ℕ
  parse_port s = if s =ᵇ [] then ok 0 else map_err bad_port (parse_port_value (str s))

  parse_protocol : Text → Result To2Error ℕ
  parse_protocol s =
      if s =ᵇ [] then ok 0 else or_err (transport_protocol_from_string s) (unsupported_transport s)

  -- The body of the loop, at index `i`.
  unfoldable pub parse_to2_item : ℕ → To2Human → Result To2Error RvTo2Addr
  unfolding parse_address dns_pointer both_nil parse_port parse_protocol
  parse_to2_item i item = do
    ip ← parse_address item.ip
    if both_nil ip (dns_pointer item.dns) then err (no_address i) else do
      port ← parse_port item.port
      proto ← parse_protocol item.protocol
      ok (record {
        ip_address = ip;
        dns_address = dns_pointer item.dns;
        port = port;
        transport_protocol = proto;
      })

  unfoldable pub parse_to2_items : ℕ → List To2Human → Result To2Error (List RvTo2Addr)
  parse_to2_items i [] = ok []
  parse_to2_items i (item ∷ items) = do
    addr ← parse_to2_item i item
    rest ← parse_to2_items (suc i) items
    ok (addr ∷ rest)

  unfoldable pub parse_human_to_to2_addrs_json : List To2Human → Result To2Error (List RvTo2Addr)
  unfolding parse_to2_items
  parse_human_to_to2_addrs_json items = parse_to2_items 0 items

-- An address that a device can use: a DNS name or an IP address is given, the port is in range or
-- not given, and what is given is what the item says.
pub record IsUsable (item : To2Human) (a : RvTo2Addr) : Type 0 where
  pub named : (a.ip_address ≢ none) ⊎ (a.dns_address ≢ none)
  pub dns_kept : ((item.dns ≡ []) × (a.dns_address ≡ none)) ⊎ (a.dns_address ≡ some item.dns)
  pub port_in_range : ((item.port ≡ []) × (a.port ≡ 0)) ⊎ ((1 ≤ a.port) × (a.port ≤ 65535))

abbrev pub AreUsable : List To2Human → List RvTo2Addr → Type 0
AreUsable [] [] = Unit
AreUsable (item ∷ items) (a ∷ as') = IsUsable item a × AreUsable items as'
AreUsable items as' = ⊥

dns_kept_lem : (s : Text) → ((s ≡ []) × (dns_pointer s ≡ none)) ⊎ (dns_pointer s ≡ some s)
unfolding dns_pointer
dns_kept_lem s = ground (arith, =ᵇ_iff s [])

both_nil-named :
    (ip : Option Bytes) (dns : Option Text) → both_nil ip dns ≡ false → (ip ≢ none) ⊎ (dns ≢ none)
unfolding both_nil
both_nil-named none none h = cc
both_nil-named none (some d) h = inr (cc)
both_nil-named (some i) d h = inl (cc)

module _ (net : Net) (k : Transports) where
  parse_port_range :
      (s : Text) {n : ℕ}
      → parse_port net k s ≡ ok n
      → ((s ≡ []) × (n ≡ 0)) ⊎ ((1 ≤ n) × (n ≤ 65535))
  unfolding parse_port
  parse_port_range s {n} h = elim (Bool-cases (s =ᵇ [])) [
    | inl empty ↦ ground (arith, =ᵇ_iff s [])
    | inr full ↦ inr (parse_port_value_bounds (str s) (map_err-eq-ok bad_port _ (rw full at h)))
  ]

  -- The steps of an accepted item.
  parse_to2_item_inv :
      (i : ℕ) (item : To2Human) {a : RvTo2Addr}
      → parse_to2_item net k i item ≡ ok a
      → (both_nil a.ip_address a.dns_address ≡ false)
        × (a.dns_address ≡ dns_pointer item.dns)
        × (parse_port net k item.port ≡ ok a.port)
  unfolding parse_to2_item
  parse_to2_item_inv i item h = ground arith

  parse_to2_item-IsUsable :
      (i : ℕ) (item : To2Human) {a : RvTo2Addr}
      → parse_to2_item net k i item ≡ ok a
      → IsUsable item a
  parse_to2_item-IsUsable i item {a} h =
      let (given, dns, port) = parse_to2_item_inv i item h in
      record {
        named = both_nil-named a.ip_address a.dns_address given;
        dns_kept = ground (arith, dns, dns_kept_lem item.dns);
        port_in_range = parse_port_range item.port port;
      }

  parse_to2_items-AreUsable :
      (i : ℕ) (items : List To2Human) {out : List RvTo2Addr}
      → parse_to2_items net k i items ≡ ok out
      → AreUsable items out
  unfolding parse_to2_items
  parse_to2_items-AreUsable i [] h = ground arith
  parse_to2_items-AreUsable i (item ∷ items) {out} h =
      let (a, first, h1) = >>=-eq-ok (parse_to2_item net k i item) _ h in
      let (rest, more, h2) = >>=-eq-ok (parse_to2_items net k (suc i) items) _ h1 in
      let same : out ≡ a ∷ rest = cc h2 in
      rw same (parse_to2_item-IsUsable i item first, parse_to2_items-AreUsable (suc i) items more)

  -- Of an accepted owner info, every address can be used: it has a DNS name or an IP address, its
  -- DNS name is the given one, and its port is between 1 and 65535, or 0 where none is given.
  pub parse_human_to_to2_addrs_json-AreUsable :
      (items : List To2Human) {out : List RvTo2Addr}
      → parse_human_to_to2_addrs_json net k items ≡ ok out
      → AreUsable items out
  unfolding parse_human_to_to2_addrs_json
  parse_human_to_to2_addrs_json-AreUsable items h = parse_to2_items-AreUsable 0 items h
