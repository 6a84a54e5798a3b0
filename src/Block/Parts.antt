-- ===== src/Block/Parts.antt =====
-- `processTransaction` of processors/block_processor.go. The parts of a transaction and the `INSERT
-- IGNORE` of its row are parameters: each gets the state of the world and returns its error (`none` is nil)
-- with what it leaves.
use nectar.Prelude.{
  ℕ, ◌∷◌, ◌++◌, Bool, not, Option, none, some, List, [], if◌then◌else◌, is_empty, Text, text,
  contains,
}
use nectar.Prelude.Int.{ℤ}
use nectar.Cache.Lru.{ByteCache}
use nectar.Era.Slots.{BlockType, alonzo, babbage}
use nectar.Era.Config.{EraState}
use nectar.Block.Ledger.{Certificate, LedgerTx}
use nectar.Block.Gates.{
  since, get_transaction_certificates, get_transaction_withdrawals, get_transaction_mint,
  has_governance_data,
}
use nectar.Block.Rows.{TxRow, BlockRow, tx_row}

abbrev pub Call : Type 0 → Type 0
Call World = World → Option Text × World

-- the parts of a transaction, by their operations' names in the warnings
pub data Operation : Type 0 where
  inputs outputs metadata withdrawals mint scripts : Operation
  collateral collateral_return reference_inputs required_signers : Operation
  certificates governance : Operation
  epoch_boundary isolation : Operation

pub record Parts (World : Type 0) : Type 0 where
  pub insert_tx : TxRow → Call World
  pub process_inputs : LedgerTx → BlockType → Call World
  pub process_outputs : LedgerTx → BlockType → Call World
  pub process_metadata : LedgerTx → Call World
  pub process_withdrawals : LedgerTx → List (Text × ℕ) → BlockType → Call World
  pub process_mint : LedgerTx → List (Text × ℤ) → Call World
  pub process_scripts : LedgerTx → BlockType → Call World
  pub process_collateral : LedgerTx → BlockType → Call World
  pub process_collateral_return : LedgerTx → BlockType → Call World
  pub process_reference_inputs : LedgerTx → BlockType → Call World
  pub process_required_signers : LedgerTx → BlockType → Call World
  pub process_certificates : LedgerTx → List Certificate → Call World
  pub process_governance : LedgerTx → BlockType → Call World

-- The database, the processor's own state, the warnings, and `dbBlock` of `ProcessBlock`.
pub record Processor (World : Type 0) : Type 0 where
  pub world : World
  pub slot_leader_cache : ByteCache
  pub era : EraState
  pub warnings : List (Operation × Text)
  pub db_block : Option BlockRow

module _ {World : Type 0} where
  abbrev pub warned : Operation → Processor World → Option Text × World → Processor World
  warned op s (none, w) = record s { world = w }
  warned op s (some e, w) = record s { world = w; warnings = s.warnings ++ ((op, e) ∷ []) }

  -- A call whose error is a warning and nothing else.
  unfoldable pub run_part : Operation → Call World → Processor World → Processor World
  run_part op call s = warned op s (call s.world)

  unfoldable pub run_if : Bool → Operation → Call World → Processor World → Processor World
  unfolding run_part
  run_if b op call s = if b then run_part op call s else s

-- an error that names a duplicate entry is none
unfoldable pub real_error : Option Text → Option Text
unfolding contains
real_error none = none
real_error (some e) = if contains (text "Duplicate entry") e then none else some e

-- `FastCreate` of database/tidb.go, around the `INSERT IGNORE`
unfoldable pub fast_create : {World : Type 0} → Call World → Call World
unfolding real_error
fast_create create w = let (err, w1) = create w in (real_error err, w1)

module _ {World : Type 0} (parts : Parts World) (t : LedgerTx) (b : BlockType) where
  open parts use {
    process_inputs, process_outputs, process_metadata, process_withdrawals, process_mint,
    process_scripts, process_collateral, process_collateral_return, process_reference_inputs,
    process_required_signers, process_certificates, process_governance,
  }

  -- inputs to scripts
  unfoldable pub process_first_parts : Processor World → Processor World
  unfolding run_part run_if get_transaction_withdrawals get_transaction_mint
  process_first_parts s =
      let s1 = run_part inputs (process_inputs t b) s in
      let s2 = run_part outputs (process_outputs t b) s1 in
      let s3 = run_if t.has_metadata metadata (process_metadata t) s2 in
      let drawn = get_transaction_withdrawals t b in
      let s4 = run_if (not (is_empty drawn)) withdrawals (process_withdrawals t drawn b) s3 in
      let minted = get_transaction_mint t b in
      let s5 = run_if (not (is_empty minted)) mint (process_mint t minted) s4 in
      run_part scripts (process_scripts t b) s5

  -- collateral inputs to governance
  unfoldable pub process_last_parts : Processor World → Processor World
  unfolding run_part run_if get_transaction_certificates has_governance_data
  process_last_parts s =
      let s1 = run_if (since alonzo b) collateral (process_collateral t b) s in
      let s2 = run_if (since babbage b) collateral_return (process_collateral_return t b) s1 in
      let s3 = run_if (since babbage b) reference_inputs (process_reference_inputs t b) s2 in
      let s4 = run_if (since alonzo b) required_signers (process_required_signers t b) s3 in
      let certs = get_transaction_certificates t b in
      let s5 = run_if (not (is_empty certs)) certificates (process_certificates t certs) s4 in
      run_if (has_governance_data t b) governance (process_governance t b) s5

  -- Only an error of the insert is returned.
  unfoldable pub after_insert :
      Option Text → World → Processor World → Option Text × Processor World
  unfolding process_first_parts process_last_parts
  after_insert (some e) w s =
      (some (text "failed to insert transaction: " ++ e), record s { world = w })
  after_insert none w s = (none, process_last_parts (process_first_parts (record s { world = w })))

  unfoldable pub process_transaction : Text → ℕ → Processor World → Option Text × Processor World
  unfolding tx_row fast_create after_insert
  process_transaction block_hash block_index s =
      let (err, w) = fast_create (parts.insert_tx (tx_row t block_hash block_index b)) s.world in
      after_insert err w s
