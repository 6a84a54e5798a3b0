-- ===== src/Metadata.antt =====
-- The fetcher of off-chain metadata, metadata/fetcher.go, with the rows of models/offchain.go.
pub mod Json
pub mod Rows
pub mod Requests
pub mod Details
pub mod Fetch
pub mod Workers
pub mod Verified
pub mod InFlight
pub mod Attempts
pub mod Identifiers
pub mod Named
mod Tests
