-- ===== src/Migrate.antt =====
-- Shard migration.
pub mod Manager
mod Tests
