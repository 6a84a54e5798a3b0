-- ===== src/Stake/Certificates.antt =====
-- The certificates as processors/certificate_processor.go sees them, the rows that it makes of them
-- (models/staking.go), and the state that it works on. The database and the fetcher's queue are
-- parameters. What goes to the log alone is left out.
use nectar.Prelude.{ℕ, Bool, Option, List, Text, ◌++◌, ◌∷◌, []}
use nectar.Prelude.Int.{ℤ}
use nectar.Cache.StakeAddress.{StakeTable, StakeCache}

-- A relay by its type: an address, a host with a port, a service, or another type.
pub data Relay : Type 0 where
  single_host_address : Option Text → Option Text → Option ℕ → Relay
  single_host_name : Option Text → Option ℕ → Relay
  multi_host_name : Option Text → Relay
  unknown_relay : Relay

-- The margin is a fraction, which the row rounds to a float.
pub record PoolRegistration : Type 0 where
  pub operator : Text
  pub vrf_key_hash : Text
  pub pledge : ℕ
  pub cost : ℕ
  pub margin : ℕ × ℕ
  pub reward_account : Text
  pub owners : List Text
  pub relays : List Relay
  -- URL and hash
  pub pool_metadata : Option (Text × Text)

-- The types of `processCertificate`, with what their handlers read.
pub data Cert : Type 0 where
  nil_certificate : Cert
  stake_registration : Text → Cert
  stake_deregistration : Text → Cert
  -- the credential, which may be nil, and the pool
  stake_delegation : Option Text → Text → Cert
  pool_registration : PoolRegistration → Cert
  -- the pool and the epoch
  pool_retirement : Text → ℕ → Cert
  registration : Text → Cert
  deregistration : Text → Cert
  genesis_key_delegation move_instantaneous_rewards : Cert
  vote_delegation stake_vote_delegation stake_registration_delegation : Cert
  vote_registration_delegation stake_vote_registration_delegation : Cert
  auth_committee_hot resign_committee_cold : Cert
  registration_drep deregistration_drep update_drep : Cert
  unknown_certificate : Cert

pub record PoolUpdate : Type 0 where
  pub tx_hash : Text
  pub cert_index : ℕ
  pub pool_hash : Text
  pub pledge : ℤ
  pub reward_addr_hash : Text
  pub vrf_key_hash : Text
  pub margin : ℕ × ℕ
  pub fixed_cost : ℤ
  pub active_epoch_no : ℕ

pub record PoolRelay : Type 0 where
  pub update_tx_hash : Text
  pub update_cert_index : ℕ
  pub relay_index : ℕ
  pub ip_v4 : Option Text
  pub ip_v6 : Option Text
  pub dns_name : Option Text
  pub dns_srv_name : Option Text
  pub port : Option ℕ

-- a row: the transaction, the index of the certificate, and what the table has besides
pub data StakeRow : Type 0 where
  registration_row : Text → ℕ → Text → StakeRow
  deregistration_row : Text → ℕ → Text → StakeRow
  -- the address, the pool, the active epoch and the slot
  delegation_row : Text → ℕ → Text → Text → ℕ → ℕ → StakeRow
  pool_update_row : PoolUpdate → StakeRow
  -- the pool and the retiring epoch
  pool_retire_row : Text → ℕ → Text → ℕ → StakeRow
  -- the hash, the pool, the URL and the transaction
  pool_metadata_row : Text → Text → Text → Text → StakeRow
  pool_relay_row : PoolRelay → StakeRow
  pool_owner_row : Text → ℕ → Text → StakeRow
  pool_hash_row : Text → Text → StakeRow
  -- the transaction, the address and the amount
  withdrawal_row : Text → Text → ℤ → StakeRow

-- `First` on the pool hashes: found, no such record, or another error.
pub data PoolFound : Type 0 where
  pool_there pool_missing : PoolFound
  pool_query_failed : Text → PoolFound

pub record StakeDb (World : Type 0) : Type 0 where
  pub stakes : StakeTable World
  -- An insert that does nothing on a conflict: its error (`none` is nil).
  pub insert : StakeRow → World → Option Text × World
  pub find_pool : Text → World → PoolFound
  pub load_pools : World → Option (List Text)
  -- the slot of a transaction's block
  pub slot_of : Text → World → Option ℕ
  -- `QueuePoolMetadata` of the fetcher, if there is one
  pub queue_metadata : Text → Text → Text → World → World
  -- whether a stake address is there
  pub has_stake : Text → World → Bool

-- `warnings` is what goes to the unified error system.
pub record StakeState (World : Type 0) : Type 0 where
  pub world : World
  pub stake_cache : StakeCache
  pub pool_cache : List (Text × Bool)
  pub warnings : List Text

abbrev pub warn : {World : Type 0} → Text → StakeState World → StakeState World
warn message s = record s { warnings = s.warnings ++ (message ∷ []) }
