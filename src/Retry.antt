-- ===== src/Retry.antt =====
-- Retries of database operations: database/retry.go, and the reconnection of
-- database/connection_recovery.go.
pub mod Classify
pub mod Loop
pub mod LoopLaws
pub mod Recovery
pub mod RecoveryLaws
mod Tests
