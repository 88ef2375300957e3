-- ===== src/Sync.antt =====
-- The sync engine of the companion: values, acknowledgements and command results that a store keeps
-- over restarts. components/note4_companion/note4_sync_engine.cc.
pub mod Table
pub mod State
pub mod Persist
pub mod Outgoing
pub mod Incoming
pub mod Commands
pub mod Invariant
pub mod Puts
pub mod Acknowledges
pub mod Applied
pub mod Accepts
pub mod Commits
pub mod Results
pub mod History
pub mod Cursors
pub mod Reconciles
pub mod Load
pub mod Reload
mod Tests
