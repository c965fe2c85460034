-- ===== src/Rendezvous.antt =====
-- The rendezvous server: the owner's blobs with their expiry, the sessions of the TO0 and TO1
-- protocols, the wait time that TO0 grants, and the periodic cleanup.
pub mod Wait
pub mod Blob
pub mod Visible
pub mod Session
pub mod Token
pub mod Nonce
pub mod Cleanup
