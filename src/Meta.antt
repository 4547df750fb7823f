-- ===== src/Meta.antt =====
-- The cluster metadata of services/meta/data.go, a part of it to each child.
pub mod Types
pub mod Nodes
pub mod Owners
pub mod Delete
pub mod Groups
pub mod GroupDeletion
pub mod ShardOwners
pub mod Store
mod Tests
