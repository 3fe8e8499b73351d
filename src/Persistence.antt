-- ===== src/Persistence.antt =====
-- src/persistence: the RDB file.
pub mod Rdb
