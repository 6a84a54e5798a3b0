-- ===== src/Block.antt =====
-- The block processor, processors/block_processor.go: what it takes from the ledger's objects, the
-- rows it makes of them, and the order in which it stores them.
pub mod Ledger
pub mod Gates
pub mod Rows
pub mod Address
pub mod Bounded
pub mod Outputs
pub mod Inputs
pub mod Keyed
pub mod Leader
pub mod Leading
pub mod Parts
pub mod Process
pub mod Stored
pub mod Rolled
pub mod Kept
pub mod Present
mod Tests
