-- ===== src/Scripts/Sole.antt =====
-- The redeemers that processors/script_processor.go stores, over whole transactions.
use nectar.Prelude.{
  ℕ, ◌+◌, Option, none, some, List, [], ◌∷◌, ◌++◌, if-cases, option-cases, is_empty, Text, text,
}
use nectar.Prelude.Hex.{digits}
use nectar.Era.Slots.{BlockType, alonzo, babbage}
use nectar.Block.Ledger.{TxOutput}
use nectar.Block.Gates.{since}
use nectar.Scripts.Rows.{
  ScriptTables, Hashes, NativeScript, WitnessSet, RedeemerTag, spend, mint, cert, reward, Redeemers,
  ScriptState,
}
use nectar.Scripts.Scripts.{
  ensure_datum, process_plutus_script, process_native_script, process_native_scripts,
  process_plutus_scripts, process_plutus_v3_scripts, process_transaction_scripts,
  process_witness_datums, process_inline_datums,
}
use nectar.Scripts.Redeemers.{process_redeemer_by_tag_and_index, process_indexes, process_redeemers}
use nectar.Scripts.Processor.{process_witnesses, process_script_parts}
use nectar.Prelude.Keys.{Keys}
use nectar.Scripts.Dropped.{RedeemerLaws}
use nectar.Scripts.Held.{
  Good, Fine, ensure_datum-Keeps, process_plutus_script-Keeps, process_native_script-Keeps,
  redeemer-Keeps, log_on-Fine, warn_on-Fine, collect_on-Fine,
}

module _ {World : Type 0} (tables : ScriptTables World) (data_keys : World → Keys)
    (stored : World → Keys) (laws : RedeemerLaws tables data_keys stored) (h : Hashes)
    (tx_hash : Text) where
  process_native_scripts-Fine :
      (scripts : List NativeScript) (s : ScriptState World)
      → Fine tables data_keys stored laws h tx_hash s
      → Fine tables data_keys stored laws h tx_hash
          (process_native_scripts tables h tx_hash scripts s)
  unfolding process_native_scripts
  process_native_scripts-Fine [] s p = p
  process_native_scripts-Fine (script ∷ scripts) s p = process_native_scripts-Fine scripts _ (
      log_on-Fine tables data_keys stored laws h tx_hash
        (process_native_script tables h tx_hash script) s
        (process_native_script-Keeps tables data_keys stored laws h tx_hash script) p)

  process_plutus_scripts-Fine :
      (script_type message : Text) (scripts : List Text) (s : ScriptState World)
      → Fine tables data_keys stored laws h tx_hash s
      → Fine tables data_keys stored laws h tx_hash
          (process_plutus_scripts tables h tx_hash script_type message scripts s)
  unfolding process_plutus_scripts
  process_plutus_scripts-Fine script_type message [] s p = p
  process_plutus_scripts-Fine script_type message (script ∷ scripts) s p =
      process_plutus_scripts-Fine script_type message scripts _ (
        warn_on-Fine tables data_keys stored laws h tx_hash message
          (process_plutus_script tables h tx_hash script_type script) s
          (process_plutus_script-Keeps tables data_keys stored laws h tx_hash script_type script) p)

  process_plutus_v3_scripts-Fine :
      (scripts : List Text) (s : ScriptState World)
      → Fine tables data_keys stored laws h tx_hash s
      → Fine tables data_keys stored laws h tx_hash
          (process_plutus_v3_scripts tables h tx_hash scripts s)
  unfolding process_plutus_v3_scripts
  process_plutus_v3_scripts-Fine [] s p = p
  process_plutus_v3_scripts-Fine (script ∷ scripts) s p = process_plutus_v3_scripts-Fine scripts _ (
      log_on-Fine tables data_keys stored laws h tx_hash
        (process_plutus_script tables h tx_hash (text "plutus_v3") script) s
        (process_plutus_script-Keeps tables data_keys stored laws h tx_hash (text "plutus_v3")
          script)
        p)

  process_indexes-Fine :
      (r : Redeemers) (tag : RedeemerTag) (indexes : List ℕ) (s : ScriptState World)
      → Fine tables data_keys stored laws h tx_hash s
      → Fine tables data_keys stored laws h tx_hash
          (process_indexes tables h tx_hash r tag indexes s)
  unfolding process_indexes
  process_indexes-Fine r tag [] s p = p
  process_indexes-Fine r tag (i ∷ indexes) s p = process_indexes-Fine r tag indexes _ (
      collect_on-Fine tables data_keys stored laws h tx_hash (text "failed to process redeemer: ")
        (process_redeemer_by_tag_and_index tables h tx_hash r tag i) s
        (redeemer-Keeps tables data_keys stored laws h tx_hash r tag i) p)

  process_redeemers-Fine :
      (redeemers : Option Redeemers) (s : ScriptState World)
      → Fine tables data_keys stored laws h tx_hash s
      → Fine tables data_keys stored laws h tx_hash (process_redeemers tables h tx_hash redeemers s)
  unfolding process_redeemers
  process_redeemers-Fine none s p = p
  process_redeemers-Fine (some r) s p = process_indexes-Fine r reward (r.indexes reward) _ (
      process_indexes-Fine r cert (r.indexes cert) _ (
        process_indexes-Fine r mint (r.indexes mint) _
          (process_indexes-Fine r spend (r.indexes spend) s p)))

  process_witness_datums-Fine :
      (i : ℕ) (datums : List (Option Text)) (s : ScriptState World)
      → Fine tables data_keys stored laws h tx_hash s
      → Fine tables data_keys stored laws h tx_hash
          (process_witness_datums tables h tx_hash i datums s)
  unfolding process_witness_datums
  process_witness_datums-Fine i [] s p = p
  process_witness_datums-Fine i (none ∷ datums) s p = process_witness_datums-Fine (i + 1) datums s p
  process_witness_datums-Fine i (some bytes ∷ datums) s p =
      process_witness_datums-Fine (i + 1) datums _ (
        if-cases (Fine tables data_keys stored laws h tx_hash) (is_empty bytes) _ _ (λ _. p)
          (λ _.
            collect_on-Fine tables data_keys stored laws h tx_hash
              (text "Failed to store datum " ++ (digits i ++ text ": "))
              (ensure_datum tables h tx_hash bytes) s
              (ensure_datum-Keeps tables data_keys stored laws h tx_hash bytes) p))

  process_inline_datums-Fine :
      (outputs : List TxOutput) (s : ScriptState World)
      → Fine tables data_keys stored laws h tx_hash s
      → Fine tables data_keys stored laws h tx_hash
          (process_inline_datums tables h tx_hash outputs s)
  unfolding process_inline_datums
  process_inline_datums-Fine [] s p = p
  process_inline_datums-Fine (output ∷ outputs) s p = process_inline_datums-Fine outputs _ (
      option-cases (Fine tables data_keys stored laws h tx_hash) output.datum _ _ p (λ bytes.
        warn_on-Fine tables data_keys stored laws h tx_hash (text "Failed to store inline datum: ")
          (ensure_datum tables h tx_hash bytes) s
          (ensure_datum-Keeps tables data_keys stored laws h tx_hash bytes) p))

  process_transaction_scripts-Fine :
      (ws : WitnessSet) (s : ScriptState World)
      → Fine tables data_keys stored laws h tx_hash s
      → Fine tables data_keys stored laws h tx_hash
          (process_transaction_scripts tables h tx_hash ws s)
  unfolding process_transaction_scripts
  process_transaction_scripts-Fine ws s p = process_plutus_v3_scripts-Fine ws.plutus_v3_scripts _ (
      process_plutus_scripts-Fine (text "plutus_v2") (text "Failed to process PlutusV2 script: ")
        ws.plutus_v2_scripts _
        (process_plutus_scripts-Fine (text "plutus_v1") (text "Failed to process PlutusV1 script: ")
          ws.plutus_v1_scripts _ (process_native_scripts-Fine ws.native_scripts s p)))

  process_witnesses-Fine :
      (b : BlockType) (witnesses : Option WitnessSet) (s : ScriptState World)
      → Fine tables data_keys stored laws h tx_hash s
      → Fine tables data_keys stored laws h tx_hash
          (process_witnesses tables h tx_hash b witnesses s)
  unfolding process_witnesses
  process_witnesses-Fine b none s p = p
  process_witnesses-Fine b (some ws) s p =
      let p2 = process_redeemers-Fine ws.redeemers _ (process_transaction_scripts-Fine ws s p) in
      if-cases (Fine tables data_keys stored laws h tx_hash) (since alonzo b) _ _
        (λ _. process_witness_datums-Fine 0 ws.plutus_data _ p2) (λ _. p2)

  -- Where no two redeemers of the table have one data hash and each of these hashes is in the table of
  -- redeemer data, this is so after any transaction as well, if a record of data is refused where its
  -- hash is there, a refused insert changes neither table, and scripts and datums are other tables.
  pub process_script_parts-Sole :
      (b : BlockType) (witnesses : Option WitnessSet) (outputs : List TxOutput)
      (s : ScriptState World)
      → Good tables data_keys stored laws h tx_hash s.store.world
      → Good tables data_keys stored laws h tx_hash
          (process_script_parts tables h tx_hash b witnesses outputs s).store.world
  unfolding process_script_parts Fine
  process_script_parts-Sole b witnesses outputs s p =
      let p1 = process_witnesses-Fine b witnesses s p in
      if-cases (Fine tables data_keys stored laws h tx_hash) (since babbage b) _ _
        (λ _. process_inline_datums-Fine outputs _ p1) (λ _. p1)
