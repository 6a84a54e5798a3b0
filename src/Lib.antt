-- ===== src/Lib.antt =====
-- nectar, an indexer for the Cardano blockchain: it follows a node's chain, writes the blocks to
-- a MySQL-compatible database, and shows its progress on a dashboard.
--
-- The program's parts and how they interact. main.go receives the blocks of the chain (roll
-- forward) and the rollbacks, queues the blocks, and lets workers process them; each worker has a
-- connection and a block processor (processors/block_processor.go), which is replaced when the
-- connection is lost. A block's header and each of its transactions are stored in a database
-- transaction of their own, which is retried; the parts of a transaction go to the other
-- processors: those of certificates, withdrawals, native assets, scripts and governance are
-- modelled, that of metadata is not. The mint of a transaction goes through a map of the block
-- processor, whose keys the asset processor takes apart again. A fetcher with workers of its own
-- gets the metadata that the chain names by URL and hash. The processors compute the epoch, the
-- time and the era of a slot, choose batch sizes by epoch, keep LRU caches, and retry what the
-- database refuses (database/retry.go, database/connection_recovery.go). Errors go to the unified
-- error system (errors/), which filters and counts them for the dashboard, and to the processors'
-- own collector. For each epoch the protocol parameters and the ADA pots are stored. The web
-- interface (auth/, web/) admits users and sends updates to the clients of a websocket hub.
--
-- Which file models which part:
--   * Prelude (and Prelude/): what the models share. Numbers are native naturals, `uint64` and
--     `int64` results are written modulo 2^64, Go's strings are lists of bytes, its maps
--     association lists.
--   * Era/Slots, Era/Names, Era/Config: `getEpochForSlot`, `getBlockTime`, `isEpochBoundary` of
--     processors/block_processor.go, `calculateEpochFromTransaction` of
--     processors/certificate_processor.go, the era names of constants/eras.go, main.go,
--     processors/epoch_params_provider.go and processors/era_config.go, and `GetEraConfig` with the
--     state that `ProcessBlock` keeps of it. Era/Epochs, Boundaries, Agreement, Settings: proofs.
--   * Cache/Lru: processors/generic_lru_cache.go and processors/byte_lru_cache.go, with a heap for
--     the pointers that map and list share. Cache/StakeAddress: processors/stake_address_cache.go.
--     Cache/Nodes, Order, Puts, Runs, StakeKeys: proofs.
--   * Retry/Classify, Retry/Loop: database/retry.go. Retry/Recovery: database/connection_recovery.go
--     as a step function on events. Retry/LoopLaws, RecoveryLaws: proofs.
--   * Errors/Filter, Errors/Unified: errors/unified_error_system.go, with a heap for the errors that
--     its map and its list share. Errors/Collector, Errors/Reports: processors/error_collector.go, the
--     latter with what it passes on and writes. Errors/LogLines, Sequences, Intercepted, DriverLog:
--     errors/migration.go, errors/stderr_interceptor.go, errors/mysql_logger.go. Errors/UnifiedLaws,
--     Served, CollectorLaws, Parsed, Routed, Agreement, Flushed and the end of Sequences: proofs.
--   * Params/Table, Params/Provider: processors/epoch_params_provider.go. Params/AdaPots:
--     processors/ada_pots_calculator.go. Params/Backfill: proofs.
--   * Sync/Worker, Sync/Rollback, Sync/Tip: `blockWorker`, `chainSyncRollBackwardHandler` with the
--     functions it calls, and the tip and resumption functions of main.go. Sync/Runs, Settled,
--     Rewound, Distance: proofs.
--   * Web/Auth: auth/auth.go. Web/Hub: web/websocket.go. Web/Admission, Channels, Safe: proofs.
--   * Metadata/Json, Rows, Requests, Details, Fetch, Workers: the fetcher of metadata/fetcher.go, with
--     the rows of models/offchain.go; Workers has its queue, its workers and the goroutines that wait
--     as a state that events change. Metadata/Verified, Named, InFlight, Attempts,
--     Identifiers: proofs.
--   * Block/Ledger: what the ledger's library returns. Block/Gates, Rows, Address, Outputs, Inputs,
--     Leader, Parts, Process: processors/block_processor.go, from the parts of a transaction that an
--     era has, and the rows, to `processTransaction` and `ProcessBlock`. Block/Bounded, Keyed,
--     Leading, Stored, Rolled, Kept, Present: proofs. `FastCreate` of database/tidb.go is in Parts.
--   * Stake/Certificates, Pools, Handlers: processors/certificate_processor.go with the rows of
--     models/staking.go. Stake/Withdrawals, Bulk: processors/withdrawal_processor.go. Stake/Errorless,
--     Known, Backed, Kept, Credited, the end of Bulk and Cache/StakeWorlds: proofs.
--   * Cache/Existence: the maps of the rows that are in the database, of governance_processor.go and
--     asset_processor.go. Cache/Backing, Again: proofs.
--   * Assets/Rows, Processor, Batches: processors/asset_processor.go. Assets/Keys, Minted, Kept,
--     Rolled: proofs.
--   * Scripts/Rows, Scripts, Redeemers, Processor: processors/script_processor.go with
--     `GenerateRedeemerHash` of models/assets.go. Scripts/Dropped, Held, Sole, Hashed: proofs.
--   * Governance/Rows, Hashes, Votes, Actions, Certificates: processors/governance_processor.go with
--     the rows and hashes of models/governance.go. Governance/Kept, Proposed, Anchored, Lost: proofs.
--   * The Tests of each part apply the results to concrete inputs.
--
-- Parameters. The database (gorm and MySQL), the pool of connections, the block processor of a
-- worker, the operations that are retried, the driver, the clock and the captured stacks are
-- arguments of the definitions, with what is assumed of them as hypotheses of the theorems: an
-- upsert that succeeds stores its row and no other, a deletion leaves no record above its bound
-- and brings none in, a block that is found by its slot has that slot, a stake address that is
-- found by its hash has that hash, an insert of a slot leader without an error stores it, a block
-- that is found by its hash has that hash, the state keeps the results of the runs of a worker's
-- block processor, an insert of a transaction's row leaves it or finds it, no call deletes one of
-- them or a pool hash, and a pool hash or an
-- asset that is found, inserted or a duplicate is in its table, a row of redeemer data and a
-- voting anchor are only stored where their key is new, SHA-256 gives bytes, 32 of them. The
-- tokens of the web interface, the HTTP client, the parsers of URLs, addresses and JSON, the
-- hashes, the ledger's objects and the processors that a transaction's parts go to are parameters
-- too.
--
-- Bounds and fuel. The loop of `BackfillEpochParams` runs on fuel; as many rounds as there are
-- epochs, and one more, are enough. The retry loops count the rounds of the source: four attempts
-- of `RetryTransaction` and of a worker, ten of `reconnectWithBackoff`. Other loops are
-- structural. The slot and time results hold for slots below the bounds that they state.
--
-- Not modelled: the metadata of transactions and rewards beyond the calls of their processors,
-- the statistics of scripts, the configuration files, the queries for the state of the node
-- (statequery/), the statistics of withdrawals, the bulk inserts, the pages of the web server,
-- the set-up of the database, the dashboard and the terminal, floating-point rates and
-- percentages, the files behind the logs, and the goroutines themselves: each method under a
-- mutex is one step, and a worker is modelled on its own queue.
pub mod Prelude
pub mod Era
pub mod Cache
pub mod Retry
pub mod Errors
pub mod Params
pub mod Sync
pub mod Web
pub mod Metadata
pub mod Block
pub mod Stake
pub mod Assets
pub mod Scripts
pub mod Governance
