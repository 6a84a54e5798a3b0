-- ===== src/Stake.antt =====
-- Certificates and withdrawals: processors/certificate_processor.go and
-- processors/withdrawal_processor.go.
pub mod Certificates
pub mod Pools
pub mod Handlers
pub mod Withdrawals
pub mod Credited
pub mod Errorless
pub mod Known
pub mod Backed
pub mod Kept
pub mod Bulk
mod Tests
