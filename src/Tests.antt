-- ===== src/Tests.antt =====
-- Sample libraries and a sample database, and the theorems applied to them.
pub mod Libraries
pub mod Database
mod Documents
mod Rendezvous
mod Owner
mod Certificates
pub mod Sessions
mod Singleton
mod Vouchers
