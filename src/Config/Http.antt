-- ===== src/Config/Http.antt =====
-- `HTTPConfig` of cmd/config.go.
use go_fdo_server.Prelude.{
  ◌≡◌, ◌↔◌, ◌≢◌, Bool, false, ◌&&◌, ◌||◌, not, Text, [], ◌++◌, codes, Result, ok, err, ◌=ᵇ◌, =ᵇ_iff,
  if◌then◌else◌, arith,
}

pub record HttpConfig : Type 0 where
  pub cert_path : Text
  pub key_path : Text
  pub ip : Text
  pub port : Text

pub data HttpError : Type 0 where
  ip_required port_required both_or_neither : HttpError

abbrev pub is_empty : Text → Bool
is_empty s = s =ᵇ []

unfoldable pub listen_address : HttpConfig → Text
listen_address h = h.ip ++ codes ":" ++ h.port

unfoldable pub use_tls : HttpConfig → Bool
use_tls h = not (is_empty h.cert_path) && not (is_empty h.key_path)

unfoldable pub validate : HttpConfig → Result HttpError (Unit {0})
validate h =
    if is_empty h.ip
    then err ip_required
    else if is_empty h.port
    then err port_required
    else if (is_empty h.cert_path && not (is_empty h.key_path))
        || (not (is_empty h.cert_path) && is_empty h.key_path)
    then err both_or_neither
    else ok tt

-- A configuration that passes has an address and a port, and serves without TLS only when it names
-- neither a certificate nor a key.
pub validate-use_tls :
    (h : HttpConfig)
    → validate h ≡ ok tt
    → (h.ip ≢ []) × (h.port ≢ []) × ((use_tls h ≡ false) ↔ ((h.cert_path ≡ []) × (h.key_path ≡ [])))
unfolding validate use_tls
validate-use_tls h valid =
    ground (arith, =ᵇ_iff h.ip [], =ᵇ_iff h.port [], =ᵇ_iff h.cert_path [], =ᵇ_iff h.key_path [])
