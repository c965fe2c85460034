-- ===== src/V1.antt =====
-- internal/db/db.go and the handlers of the first management API: rendezvous information as a flat
-- array of objects with many keys, and the owner's TO2 addresses.
pub mod Port
pub mod Human
pub mod Convert
pub mod Losses
pub mod To2Addr
