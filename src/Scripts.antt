-- ===== src/Scripts.antt =====
-- Scripts, datums and redeemers: processors/script_processor.go with the rows of models/assets.go.
pub mod Rows
pub mod Scripts
pub mod Redeemers
pub mod Processor
pub mod Dropped
pub mod Held
pub mod Sole
pub mod Hashed
mod Tests
