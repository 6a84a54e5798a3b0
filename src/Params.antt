-- ===== src/Params.antt =====
-- What is stored for each epoch: the protocol parameters (processors/epoch_params_provider.go) and
-- the ADA pots (processors/ada_pots_calculator.go).
pub mod Table
pub mod Provider
pub mod Backfill
pub mod AdaPots
mod Tests
