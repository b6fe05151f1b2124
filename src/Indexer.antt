-- ===== src/Indexer.antt =====
-- The indexer of on-chain events (backend/src/indexer).
pub mod Value
pub mod State
pub mod Atomic
pub mod Notify
pub mod Chain
pub mod Reorg
pub mod Poller
pub mod Backfill
pub mod Projections
mod Samples
pub mod Replay
