-- ===== src/Scripts/Processor.antt =====
-- `ProcessTransaction` of processors/script_processor.go. The witnesses of the transaction, if it has
-- any, and the datums of its outputs are arguments. Its error is always nil: the errors of the parts
-- are logged or collected, and the hashers without a key are made without an error.
use nectar.Prelude.{Option, none, some, List, if◌then◌else◌, Text}
use nectar.Era.Slots.{BlockType, alonzo, babbage}
use nectar.Block.Ledger.{TxOutput}
use nectar.Block.Gates.{since}
use nectar.Scripts.Rows.{ScriptTables, Hashes, WitnessSet, ScriptState}
use nectar.Scripts.Scripts.{
  process_transaction_scripts, process_witness_datums, process_inline_datums,
}
use nectar.Scripts.Redeemers.{process_redeemers}

module _ {World : Type 0} (tables : ScriptTables World) (h : Hashes) (tx_hash : Text)
    (b : BlockType) where
  unfoldable pub process_witnesses : Option WitnessSet → ScriptState World → ScriptState World
  unfolding process_transaction_scripts process_redeemers process_witness_datums
  process_witnesses none s = s
  process_witnesses (some ws) s =
      let s1 = process_transaction_scripts tables h tx_hash ws s in
      let s2 = process_redeemers tables h tx_hash ws.redeemers s1 in
      if since alonzo b then process_witness_datums tables h tx_hash 0 ws.plutus_data s2 else s2

  unfoldable pub process_script_parts :
      Option WitnessSet → List TxOutput → ScriptState World → ScriptState World
  unfolding process_witnesses process_inline_datums
  process_script_parts witnesses outputs s =
      let s1 = process_witnesses witnesses s in
      if since babbage b then process_inline_datums tables h tx_hash outputs s1 else s1
