-- ===== src/Governance.antt =====
-- Governance: processors/governance_processor.go with the rows of models/governance.go.
pub mod Rows
pub mod Hashes
pub mod Votes
pub mod Actions
pub mod Certificates
pub mod Kept
pub mod Proposed
pub mod Anchored
pub mod Lost
mod Tests
