-- ===== src/X.antt =====
-- Code that the parts of the program share.
pub mod CyclicBuffer
pub mod Math
pub mod Tests
