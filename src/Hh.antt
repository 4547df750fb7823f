-- ===== src/Hh.antt =====
-- The hinted handoff of services/hh, a part of it to each child.
pub mod Bytes
pub mod Disk
pub mod Segment
pub mod Queue
mod Tests
