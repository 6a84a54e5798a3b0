-- ===== src/Era.antt =====
-- The era arithmetic of the indexer: slots, epochs and times (processors/block_processor.go), the
-- era names of the different packages, and the settings chosen by epoch.
pub mod Slots
pub mod Names
pub mod Config
pub mod Epochs
pub mod Boundaries
pub mod Agreement
pub mod Settings
mod Tests
