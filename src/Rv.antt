-- ===== src/Rv.antt =====
-- The rendezvous instructions of the go-fdo library, and what this repository does with them in
-- both of its management APIs: the names of protocol and medium codes, and the value encoding.
pub mod Codes
pub mod Cbor
pub mod Json
use go_fdo_server.Prelude.{Bytes, ℕ}

-- protocol.RvVar: the variables that the code names, and the other values of the type.
pub data RvVar : Type 0 where
  dns ip_address protocol medium dev_port owner_port wifi_ssid wifi_pw : RvVar
  dev_only owner_only bypass delaysec sv_cert_hash cl_cert_hash user_input ext_rv : RvVar
  other : ℕ → RvVar

-- protocol.RvInstruction: a nil value is the empty slice.
pub record RvInstruction : Type 0 where
  pub variable : RvVar
  pub value : Bytes
