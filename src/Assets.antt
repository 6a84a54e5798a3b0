-- ===== src/Assets.antt =====
-- Native assets: processors/asset_processor.go with the rows of models/assets.go.
pub mod Rows
pub mod Processor
pub mod Batches
pub mod Keys
pub mod Minted
pub mod Kept
pub mod Rolled
mod Tests
