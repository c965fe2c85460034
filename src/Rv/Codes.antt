-- ===== src/Rv/Codes.antt =====
-- internal/utils/rvinfo.go: the texts of protocol and medium codes.
use go_fdo_server.Prelude.{
  ℕ, ◌≤◌, ◌≡◌, ◌≢◌, ◌↔◌, ◌⊎◌, Option, none, some, List, [], ◌∷◌, arith, Text, codes, ◌==◌, ◌=ᵇ◌,
  =ᵇ_iff, if◌then◌else◌,
}
use go_fdo_server.Prelude.Decimal.{format_uint}

abbrev Differs : ℕ → List ℕ → Type 0
Differs x [] = Unit
Differs x (y ∷ ys) = (x ≢ y) × Differs x ys

abbrev pub AreDistinct : List ℕ → Type 0
AreDistinct [] = Unit
AreDistinct (x ∷ xs) = Differs x xs × AreDistinct xs

abbrev pub AreUint8 : List ℕ → Type 0
AreUint8 [] = Unit
AreUint8 (x ∷ xs) = (x ≤ 255) × AreUint8 xs

-- The constants of go-fdo's protocol package that the code names. Go refuses a switch that names
-- one value twice, so the constants of each switch differ.
pub record RvCodes : Type 0 where
  pub rest : ℕ
  pub http : ℕ
  pub https : ℕ
  pub tcp : ℕ
  pub tls : ℕ
  pub coap_tcp : ℕ
  pub coap_udp : ℕ
  pub eth_all : ℕ
  pub wifi_all : ℕ
  pub protocols_distinct : AreDistinct (rest ∷ http ∷ https ∷ tcp ∷ tls ∷ coap_tcp ∷ coap_udp ∷ [])
  pub media_distinct : AreDistinct (eth_all ∷ wifi_all ∷ [])
  pub in_range :
      AreUint8 (rest ∷ http ∷ https ∷ tcp ∷ tls ∷ coap_tcp ∷ coap_udp ∷ eth_all ∷ wifi_all ∷ [])

module _ (k : RvCodes) where
  open k use {rest, http, https, tcp, tls, coap_tcp, coap_udp, eth_all, wifi_all}

  unfoldable pub protocol_string_from_code : ℕ → Text
  protocol_string_from_code code =
      if code == rest
      then codes "rest"
      else if code == http
      then codes "http"
      else if code == https
      then codes "https"
      else if code == tcp
      then codes "tcp"
      else if code == tls
      then codes "tls"
      else if code == coap_tcp
      then codes "coap+tcp"
      else if code == coap_udp
      then codes "coap"
      else format_uint code

  unfoldable pub medium_string_from_code : ℕ → Text
  medium_string_from_code medium =
      if medium == eth_all
      then codes "eth_all"
      else if medium == wifi_all
      then codes "wifi_all"
      else format_uint medium

  unfoldable pub protocol_code_from_string : Text → Option ℕ
  protocol_code_from_string s =
      if s =ᵇ codes "rest"
      then some rest
      else if s =ᵇ codes "http"
      then some http
      else if s =ᵇ codes "https"
      then some https
      else if s =ᵇ codes "tcp"
      then some tcp
      else if s =ᵇ codes "tls"
      then some tls
      else if s =ᵇ codes "coap+tcp"
      then some coap_tcp
      else if s =ᵇ codes "coap"
      then some coap_udp
      else none

  unfoldable pub medium_code_from_string : Text → Option ℕ
  medium_code_from_string s =
      if s =ᵇ codes "eth_all"
      then some eth_all
      else if s =ᵇ codes "wifi_all"
      then some wifi_all
      else none

  pub protocol_code_from_string-le :
      (s : Text) {c : ℕ} → protocol_code_from_string s ≡ some c → c ≤ 255
  unfolding protocol_code_from_string
  protocol_code_from_string-le s h = ground (arith, k.in_range)

  pub medium_code_from_string-le : (s : Text) {c : ℕ} → medium_code_from_string s ≡ some c → c ≤ 255
  unfolding medium_code_from_string
  medium_code_from_string-le s h = ground (arith, k.in_range)

  -- Every accepted protocol name is the name of the code that it stands for.
  pub protocol_string-code :
      (s : Text) {c : ℕ} → protocol_code_from_string s ≡ some c → protocol_string_from_code c ≡ s
  unfolding protocol_code_from_string protocol_string_from_code
  protocol_string-code s h = ground (
    arith,
    k.protocols_distinct,
    =ᵇ_iff s (codes "rest"),
    =ᵇ_iff s (codes "http"),
    =ᵇ_iff s (codes "https"),
    =ᵇ_iff s (codes "tcp"),
    =ᵇ_iff s (codes "tls"),
    =ᵇ_iff s (codes "coap+tcp"),
    =ᵇ_iff s (codes "coap"),
  )

  pub medium_string-code :
      (s : Text) {c : ℕ} → medium_code_from_string s ≡ some c → medium_string_from_code c ≡ s
  unfolding medium_code_from_string medium_string_from_code
  medium_string-code s h =
      ground (arith, k.media_distinct, =ᵇ_iff s (codes "eth_all"), =ᵇ_iff s (codes "wifi_all"))

  abbrev pub IsNamedProtocol : ℕ → Type 0
  IsNamedProtocol c =
      (c ≡ rest)
      ⊎ (c ≡ http)
      ⊎ (c ≡ https)
      ⊎ (c ≡ tcp)
      ⊎ (c ≡ tls)
      ⊎ (c ≡ coap_tcp)
      ⊎ (c ≡ coap_udp)

  protocol_code-IsNamedProtocol :
      (s : Text) {c : ℕ} → protocol_code_from_string s ≡ some c → IsNamedProtocol c
  unfolding protocol_code_from_string
  protocol_code-IsNamedProtocol s h = ground arith

  protocol_code-string :
      (c : ℕ) → IsNamedProtocol c → protocol_code_from_string (protocol_string_from_code c) ≡ some c
  unfolding protocol_code_from_string protocol_string_from_code ◌=ᵇ◌
  protocol_code-string c h = ground (arith, k.protocols_distinct)

  -- The text of a protocol code is read back as that code exactly when the code is one of the seven
  -- that have a name.
  pub protocol_code-string_iff :
      (c : ℕ)
      → (protocol_code_from_string (protocol_string_from_code c) ≡ some c) ↔ IsNamedProtocol c
  protocol_code-string_iff c =
      (protocol_code-IsNamedProtocol (protocol_string_from_code c), protocol_code-string c)
