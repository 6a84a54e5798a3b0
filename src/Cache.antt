-- ===== src/Cache.antt =====
-- The least-recently-used caches of the processors (processors/generic_lru_cache.go and
-- processors/byte_lru_cache.go), and the stake address cache that is built on the generic one
-- (processors/stake_address_cache.go); and the maps of existing rows.
pub mod Lru
pub mod Nodes
pub mod Order
pub mod Puts
pub mod Runs
pub mod StakeAddress
pub mod StakeKeys
pub mod StakeWorlds
pub mod Existence
pub mod Backing
pub mod Again
mod Tests
