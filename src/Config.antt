-- ===== src/Config.antt =====
-- The configuration of the servers: cmd/config.go, cmd/rendezvous.go, cmd/owner.go and
-- cmd/manufacturing.go.
pub mod Http
pub mod ServiceInfo
