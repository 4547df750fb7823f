-- ===== src/Raft.antt =====
-- The state that raftmeta keeps beside the metadata.
pub mod Apply
pub mod Leases
pub mod Linearizable
pub mod Node
mod Tests
