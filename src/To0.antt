-- ===== src/To0.antt =====
-- The owner's side of TO0: internal/to0/to0.go, and the scheduler of cmd/owner.go that calls it.
pub mod Register
pub mod Candidates
pub mod Scheduler
