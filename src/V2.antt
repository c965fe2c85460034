-- ===== src/V2.antt =====
-- internal/handlers/rvinfo: the second management API of the rendezvous information. Its JSON is an
-- array of directives, each an array of objects with one key.
pub mod Parser
pub mod Directives
pub mod Converter
pub mod Kept
pub mod RoundTrip
pub mod Shape
