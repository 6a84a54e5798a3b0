-- ===== src/Scripts/Scripts.antt =====
-- The scripts and datums of processors/script_processor.go.
use nectar.Prelude.{
  ℕ, ◌+◌, true, Option, none, some, List, [], ◌∷◌, ◌++◌, if◌then◌else◌, is_empty, Text, text,
  text_discrete,
}
use nectar.Prelude.Hex.{hex, digits}
use nectar.Cache.Existence.{there, missing, query_failed, RowTable}
use nectar.Cache.Lru.{get, put}
use nectar.Block.Ledger.{TxOutput}
use nectar.Scripts.Rows.{
  Script, Datum, ScriptTables, Hashes, NativeScript, WitnessSet, Known, ScriptStore, ScriptState,
}

-- `EnsureScript` and `EnsureDatum`: one routine on two tables.
module _ {World : Type 0} (table : RowTable World) where
  unfoldable pub ensure_known : Text → Text → Known → World → Option Text × Known × World
  unfolding get put text_discrete
  ensure_known message key cache w =
      let (c1, cached) = get text_discrete key cache in
      let added = put text_discrete key true c1 in
      let (err, w1) = table.create w in
      elim cached [
        | some b ↦ (none, c1, w)
        | none ↦ elim (table.find w) [
          | there ↦ (none, added, w)
          | query_failed e ↦ (some (text "database error: " ++ e), c1, w)
          | missing ↦ elim err [ none ↦ (none, added, w1) | some e ↦ (some (message ++ e), c1, w1) ]
        ]
      ]

abbrev pub StoreCall : Type 0 → Type 0
StoreCall World = ScriptStore World → Option Text × ScriptStore World

module _ {World : Type 0} where
  abbrev pub collect : Text → ScriptState World → ScriptState World
  collect message s = record s { collected = s.collected ++ (message ∷ []) }

  abbrev pub warn : Text → ScriptState World → ScriptState World
  warn message s = record s { warnings = s.warnings ++ (message ∷ []) }

  -- A call whose error goes to the log alone, is a warning, or is collected.
  unfoldable pub log_on : StoreCall World → ScriptState World → ScriptState World
  log_on call s = record s { store = (call s.store).1 }

  unfoldable pub warn_on : Text → StoreCall World → ScriptState World → ScriptState World
  warn_on message call s =
      let (err, store) = call s.store in
      let s1 = record s { store = store } in
      elim err [ none ↦ s1 | some e ↦ warn (message ++ e) s1 ]

  unfoldable pub collect_on : Text → StoreCall World → ScriptState World → ScriptState World
  collect_on message call s =
      let (err, store) = call s.store in
      let s1 = record s { store = store } in
      elim err [ none ↦ s1 | some e ↦ collect (message ++ e) s1 ]

module _ {World : Type 0} (tables : ScriptTables World) (h : Hashes) (tx_hash : Text) where
  unfoldable pub ensure_script : Script → StoreCall World
  unfolding ensure_known hex
  ensure_script row s =
      let table : RowTable World = record {
        find = tables.find_script row.hash;
        create = tables.create_script row;
      } in
      let (err, cache, w) =
        ensure_known table (text "failed to create script: ") (hex row.hash) s.script_cache
          s.world in
      (err, record s { world = w; script_cache = cache })

  unfoldable pub ensure_datum : Text → StoreCall World
  unfolding ensure_known hex
  ensure_datum bytes s =
      let hash = h.blake2b_256 bytes in
      let row : Datum = record { hash = hash; tx_hash = tx_hash; bytes = bytes } in
      let table : RowTable World = record {
        find = tables.find_datum hash;
        create = tables.create_datum row;
      } in
      let (err, cache, w) =
        ensure_known table (text "failed to create datum: ") (hex hash) s.datum_cache s.world in
      (err, record s { world = w; datum_cache = cache })

  -- the row of a script by its bytes and the encoding that stands for JSON
  unfoldable pub script_row : Text → Text → Option Text → Script
  unfolding hex
  script_row script_type bytes encoded = record {
    hash = h.blake2b_224 bytes;
    tx_hash = tx_hash;
    script_type = script_type;
    json = elim encoded [ none ↦ none | some e ↦ some (hex e) ];
    bytes = bytes;
  }

  abbrev pub stored_as : Option Text × ScriptStore World → Option Text × ScriptStore World
  stored_as (none, s) = (none, s)
  stored_as (some e, s) = (some (text "failed to store script: " ++ e), s)

  -- `processScript` on the two kinds of script that it gets
  unfoldable pub process_plutus_script : Text → Text → StoreCall World
  unfolding ensure_script script_row
  process_plutus_script script_type bytes s =
      stored_as (ensure_script (script_row script_type bytes (h.encode bytes)) s)

  unfoldable pub process_native_script : NativeScript → StoreCall World
  unfolding ensure_script script_row
  process_native_script script s = elim script.item [
    | none ↦ (some (text "cannot encode native script item"), s)
    | some bytes ↦ stored_as (ensure_script (script_row (text "native") bytes script.whole) s)
  ]

  unfoldable pub process_native_scripts : List NativeScript → ScriptState World → ScriptState World
  unfolding process_native_script log_on
  process_native_scripts [] s = s
  process_native_scripts (script ∷ scripts) s =
      process_native_scripts scripts (log_on (process_native_script script) s)

  -- `ProcessPlutusV1Scripts` and `ProcessPlutusV2Scripts`, by the type and the warning
  unfoldable pub process_plutus_scripts :
      Text → Text → List Text → ScriptState World → ScriptState World
  unfolding process_plutus_script warn_on
  process_plutus_scripts script_type message [] s = s
  process_plutus_scripts script_type message (script ∷ scripts) s =
      process_plutus_scripts script_type message scripts
        (warn_on message (process_plutus_script script_type script) s)

  -- `ProcessPlutusV3Scripts`
  unfoldable pub process_plutus_v3_scripts : List Text → ScriptState World → ScriptState World
  unfolding process_plutus_script log_on
  process_plutus_v3_scripts [] s = s
  process_plutus_v3_scripts (script ∷ scripts) s =
      process_plutus_v3_scripts scripts (log_on (process_plutus_script (text "plutus_v3") script) s)

  unfoldable pub process_transaction_scripts : WitnessSet → ScriptState World → ScriptState World
  unfolding process_native_scripts process_plutus_scripts process_plutus_v3_scripts
  process_transaction_scripts ws s =
      let s1 = process_native_scripts ws.native_scripts s in
      let s2 =
        process_plutus_scripts (text "plutus_v1") (text "Failed to process PlutusV1 script: ")
          ws.plutus_v1_scripts s1 in
      let s3 =
        process_plutus_scripts (text "plutus_v2") (text "Failed to process PlutusV2 script: ")
          ws.plutus_v2_scripts s2 in
      process_plutus_v3_scripts ws.plutus_v3_scripts s3

  -- A datum that is nil or empty is passed over.
  abbrev witness_datum : ℕ → Option Text → ScriptState World → ScriptState World
  unfolding ensure_datum collect_on digits
  witness_datum i none s = s
  witness_datum i (some bytes) s =
      if is_empty bytes
      then s
      else collect_on (text "Failed to store datum " ++ (digits i ++ text ": "))
          (ensure_datum bytes) s

  -- the datums from an index on
  unfoldable pub process_witness_datums :
      ℕ → List (Option Text) → ScriptState World → ScriptState World
  unfolding ensure_datum collect_on digits
  process_witness_datums i [] s = s
  process_witness_datums i (datum ∷ datums) s =
      process_witness_datums (i + 1) datums (witness_datum i datum s)

  unfoldable pub process_inline_datums : List TxOutput → ScriptState World → ScriptState World
  unfolding ensure_datum warn_on
  process_inline_datums [] s = s
  process_inline_datums (output ∷ outputs) s = process_inline_datums outputs (elim output.datum [
    | none ↦ s
    | some bytes ↦ warn_on (text "Failed to store inline datum: ") (ensure_datum bytes) s
  ])
