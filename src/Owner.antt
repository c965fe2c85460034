-- ===== src/Owner.antt =====
-- The state of the owner and of the manufacturer: internal/db/state.go, internal/db/state_to2.go.
pub mod Columns
pub mod Rows
pub mod To2
pub mod Di
pub mod Stored
