-- ===== src/Sync/Reload.antt =====
-- The state that is read back from the record that was saved:
-- components/note4_companion/note4_sync_engine.cc.
pub mod Compact
pub mod Records
pub mod Tables
pub mod Settled
pub mod Written
pub mod Loaded
pub mod Bytes
pub mod Header
pub mod Recovery
