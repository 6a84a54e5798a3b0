-- ===== src/Block/Process.antt =====
-- `processEraAwareTransactions`, `EnsureHealthyConnection`, `processEpochBoundary`,
-- `processBlockHeader` and `ProcessBlock` of processors/block_processor.go. The inserts, the queries,
-- the other processors and the connection are parameters. Performance logs are left out.
use nectar.Prelude.{
  ℕ, suc, ◌++◌, Bool, not, ◌&&◌, Option, none, some, List, [], ◌∷◌, leb, if◌then◌else◌, Text, text,
  contains,
}
use nectar.Prelude.Hex.{digits}
use nectar.Retry.Loop.{Outcome, succeeded, failed, exhausted, retry}
use nectar.Era.Slots.{BlockType, shelley, get_epoch_for_slot, is_epoch_boundary}
use nectar.Era.Config.{enter_epoch}
use nectar.Block.Ledger.{LedgerTx, LedgerBlock}
use nectar.Block.Gates.{since}
use nectar.Block.Rows.{BlockRow, block_row}
use nectar.Block.Leader.{LeaderTable, get_or_create_slot_leader}
use nectar.Block.Parts.{
  Call, fast_create, epoch_boundary, isolation, Parts, Processor, run_part, process_transaction,
}

pub record Header (World : Type 0) : Type 0 where
  pub leaders : LeaderTable World
  pub insert_block : BlockRow → Call World
  -- the block with a hash
  pub find_block : Text → World → Option BlockRow
  pub create_epoch : ℕ → BlockRow → Call World
  pub calculate_ada_pots : ℕ → ℕ → Call World
  pub provide_epoch_params : ℕ → Call World
  -- whether there is a state query service, and its two calls
  pub has_service : Bool
  pub calculate_epoch_rewards : ℕ → Call World
  pub process_refunds : ℕ → Call World

pub record Connection (World : Type 0) : Type 0 where
  pub get_handle : World → Option Text
  pub ping : World → Option Text
  pub select_one : Call World
  pub do_one : World → World
  -- `SET TRANSACTION ISOLATION LEVEL`, and the commit of a transaction
  pub set_isolation : Call World
  pub commit : World → Option Text

module _ {World : Type 0} (conn : Connection World) where
  -- A transaction of the database: an error, or one of the commit, leaves the world as it was; the
  -- processor's own state is not restored.
  unfoldable pub transactional :
      (Processor World → Option Text × Processor World)
      → Processor World
      → Option Text × Processor World
  unfolding run_part
  transactional body s =
      let (err, s1) = body (run_part isolation conn.set_isolation s) in
      elim err [
        | some e ↦ (some e, record s1 { world = s.world })
        | none ↦ elim (conn.commit s1.world) [
          | none ↦ (none, s1)
          | some e ↦ (some e, record s1 { world = s.world })
        ]
      ]

  -- the error of `RetryTransaction`
  unfoldable pub retry_error : Outcome → Option Text
  unfolding digits
  retry_error succeeded = none
  retry_error (failed e) = some e
  retry_error (exhausted n) =
      some (text "transaction failed after " ++ (digits n ++ text " retries"))

  unfoldable pub ensure_healthy_connection : Call World
  unfolding contains
  ensure_healthy_connection w = elim (conn.get_handle w) [
    | some e ↦ (some (text "failed to get underlying database connection: " ++ e), w)
    | none ↦ elim (conn.ping w) [
      | some e ↦ (some (text "connection ping failed: " ++ e), w)
      | none ↦
          let (err, w1) = conn.select_one w in
          elim err [
            | none ↦ (none, w1)
            | some e ↦
                if contains (text "commands out of sync") e
                then (some (text "connection has pending results: " ++ e), conn.do_one w1)
                else (some (text "connection test query failed: " ++ e), w1)
          ]
    ]
  ]

  -- The transactions in their order, each in a transaction of its own; one that is there already is
  -- passed over, and another error ends the loop.
  unfoldable pub process_era_aware_transactions :
      Parts World
      → Text
      → ℕ
      → BlockType
      → ℕ
      → List LedgerTx
      → Processor World
      → Option Text × Processor World
  unfolding process_transaction transactional retry retry_error contains digits
  process_era_aware_transactions parts block_hash block_number b idx [] s = (none, s)
  process_era_aware_transactions parts block_hash block_number b idx (t ∷ ts) s =
      let finish = retry (transactional (process_transaction parts t b block_hash idx)) s in
      let rest =
        process_era_aware_transactions parts block_hash block_number b (suc idx) ts finish.state in
      elim (retry_error finish.outcome) [
        | none ↦ rest
        | some e ↦
            if contains (text "Duplicate entry") e
            then rest
            else if leb 4492800 block_number && leb block_number 4493000
            then (
              some (
                  text "transaction "
                  ++ (digits idx
                      ++ (text " at Byron-Shelley boundary (block "
                          ++ (digits block_number ++ (text "): " ++ e))))),
              finish.state,
            )
            else (some (text "transaction " ++ (digits idx ++ (text ": " ++ e))), finish.state)
      ]

module _ {World : Type 0} (header : Header World) where
  -- a call whose error is logged
  abbrev logged : Call World → World → World
  logged call w = (call w).1

  -- `processEpochBoundary`: only the error of the epoch's row is returned.
  unfoldable pub process_epoch_boundary : BlockRow → ℕ → BlockType → Call World
  process_epoch_boundary row epoch_no b w =
      let (err, w1) = header.create_epoch epoch_no row w in
      let w2 =
        if leb 208 epoch_no
        then logged (header.calculate_ada_pots epoch_no row.slot_no) w1
        else w1 in
      let w3 = logged (header.provide_epoch_params epoch_no) w2 in
      let w4 =
        if header.has_service && leb 213 epoch_no
        then logged (header.process_refunds epoch_no)
            (logged (header.calculate_epoch_rewards epoch_no) w3)
        else w3 in
      if not (since shelley b) then (none, w) else elim err [
        | some e ↦ (some (text "failed to create epoch: " ++ e), w1)
        | none ↦ (none, w4)
      ]

  -- The new row, or the one that is found where the insert fails.
  unfoldable pub store_block :
      LedgerBlock → BlockType → BlockRow → Processor World → Option Text × Processor World
  unfolding run_part process_epoch_boundary get_epoch_for_slot is_epoch_boundary
  store_block block b row s =
      let (err, w) = fast_create (header.insert_block row) s.world in
      let stored = record s { world = w; db_block = some row } in
      elim err [
        | none ↦ (
          none,
          if is_epoch_boundary block.slot_number b
              then run_part epoch_boundary (process_epoch_boundary row row.epoch_no b) stored
              else stored,
        )
        | some e ↦ elim (header.find_block row.hash w) [
          | some found ↦ (none, record s { world = w; db_block = some found })
          | none ↦
              (some (text "failed to create block: " ++ e), record s { world = w; db_block = none })
        ]
      ]

  unfoldable pub process_block_header :
      LedgerBlock → BlockType → Processor World → Option Text × Processor World
  unfolding get_or_create_slot_leader block_row store_block
  process_block_header block b s =
      let (leader, cache, w) =
        get_or_create_slot_leader header.leaders block b s.slot_leader_cache s.world in
      let s1 = record s { world = w; slot_leader_cache = cache } in
      elim leader [
        | none ↦ (some (text "failed to get slot leader"), record s1 { db_block = none })
        | some hash ↦ store_block block b (block_row block b hash) s1
      ]

module _ {World : Type 0} (conn : Connection World) (header : Header World)
    (parts : Parts World) where
  -- the transactions, after the header's transaction
  unfoldable pub process_transactions :
      LedgerBlock → BlockType → Processor World → Option Text × Processor World
  unfolding process_era_aware_transactions
  process_transactions block b s = elim s.db_block [
    | none ↦ (none, s)
    | some row ↦
        let (err, s1) =
          process_era_aware_transactions conn parts row.hash block.block_number b 0
            block.transactions s in
        elim err [
          | none ↦ (none, s1)
          | some e ↦ (some (text "failed to process transactions: " ++ e), s1)
        ]
  ]

  unfoldable pub process_block :
      LedgerBlock → BlockType → Processor World → Option Text × Processor World
  unfolding get_epoch_for_slot enter_epoch ensure_healthy_connection retry transactional
      process_block_header process_transactions retry_error digits
  process_block block b s =
      let s0 = record s { era = enter_epoch (get_epoch_for_slot block.slot_number b) s.era } in
      let (unhealthy, w) = ensure_healthy_connection conn s0.world in
      let finish =
        retry (transactional conn (process_block_header header block b))
          (record s0 { world = w; db_block = none }) in
      elim unhealthy [
        | some e ↦
            (some (text "connection unhealthy before processing: " ++ e), record s0 { world = w })
        | none ↦ elim (retry_error conn finish.outcome) [
          | some e ↦ (some (text "failed to process block header: " ++ e), finish.state)
          | none ↦ process_transactions block b finish.state
        ]
      ]
