-- ===== src/Indexer/Replay.antt =====
-- Repeated events (backend/src/indexer/projections.ts).
pub mod Frame
pub mod Handlers
pub mod Rows
pub mod Messages
pub mod Once
pub mod Lost
mod Tests
