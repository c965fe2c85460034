-- ===== src/Vouchers.antt =====
-- Ownership vouchers: the rows of internal/db/models.go, their storage in internal/db, and their API in
-- api/handlers/vouchers.go.
pub mod Storage
pub mod Verify
pub mod Api
use go_fdo_server.Prelude.{ℕ, Option, Bytes, Text}

-- A row of vouchers, under its GUID. Times are natural numbers.
pub record Voucher : Type 0 where
  pub cbor : Bytes
  pub device_info : Text
  pub created_at : ℕ
  pub updated_at : ℕ
