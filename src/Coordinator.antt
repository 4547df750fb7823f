-- ===== src/Coordinator.antt =====
-- The queries and writes of the coordinator.
pub mod Planning
pub mod Writes
pub mod Points
pub mod IteratorReader
mod Tests
