-- ===== src/Sync.antt =====
-- The indexer's own work in main.go: the workers that process the queued blocks, the rollback
-- handler, and the bookkeeping of the chain's tip and of the place to resume from.
pub mod Worker
pub mod Runs
pub mod Settled
pub mod Rollback
pub mod Rewound
pub mod Tip
pub mod Distance
mod Tests
