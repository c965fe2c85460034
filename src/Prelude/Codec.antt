-- ===== src/Prelude/Codec.antt =====
-- A pair of library calls that turn a value into bytes and back, such as cbor.Marshal and
-- cbor.Unmarshal at one type.
use go_fdo_server.Prelude.{◌≡◌, Option, some, Bytes}

pub record Codec (A : Type 0) : Type 0 where
  pub marshal : A → Option Bytes
  pub unmarshal : Bytes → Option A
  pub unmarshal-marshal : (a : A) {b : Bytes} → marshal a ≡ some b → unmarshal b ≡ some a
