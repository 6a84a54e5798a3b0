-- ===== src/Assets/Batches.antt =====
-- The batches of processors/asset_processor.go: `ProcessOutputAssetsBatch`,
-- `ProcessTransactionAssetsBatch` and `ProcessNativeAssets`.
use nectar.Prelude.{ℕ, suc, Option, none, some, List, [], ◌∷◌, ◌++◌, take, Text, text}
use nectar.Prelude.Int.{to_uint64}
use nectar.Prelude.Hex.{hex, digits}
use nectar.Era.Slots.{to_uint32}
use nectar.Block.Ledger.{Assets, TxOutput}
use nectar.Assets.Rows.{AssetTables, AssetState}
use nectar.Assets.Processor.{
  each_asset, process_output_asset, process_output_assets, process_transaction_mints,
}

module _ {World : Type 0} (tables : AssetTables World) (tx_hash : Text) where
  unfoldable process_output_assets_batch : ℕ → Option Assets → AssetState World → AssetState World
  unfolding each_asset process_output_asset to_uint64 hex digits
  process_output_assets_batch index none s = s
  process_output_assets_batch index (some assets) s =
      each_asset
        (text "Output asset error for tx "
          ++ (take 16 (hex tx_hash) ++ (text ", output=" ++ (digits index ++ text ": "))))
        (λ policy name amount.
          process_output_asset tables tx_hash (to_uint32 index) policy name (to_uint64 amount))
        assets s

  -- the outputs from an index on
  unfoldable batch_outputs : ℕ → List TxOutput → AssetState World → AssetState World
  unfolding process_output_assets_batch
  batch_outputs i [] s = s
  batch_outputs i (output ∷ outputs) s =
      batch_outputs (suc i) outputs (process_output_assets_batch i output.assets s)

  unfoldable process_transaction_assets_batch :
      Option Assets → List TxOutput → AssetState World → AssetState World
  unfolding process_transaction_mints batch_outputs
  process_transaction_assets_batch mint outputs s =
      batch_outputs 0 outputs (process_transaction_mints tables tx_hash mint s)

  abbrev native_output : ℕ → Option Assets → AssetState World → AssetState World
  unfolding process_output_assets
  native_output i none s = s
  native_output i (some assets) s = process_output_assets tables tx_hash (to_uint32 i) assets s

  unfoldable native_outputs : ℕ → List TxOutput → AssetState World → AssetState World
  unfolding process_output_assets
  native_outputs i [] s = s
  native_outputs i (output ∷ outputs) s =
      native_outputs (suc i) outputs (native_output i output.assets s)

  unfoldable process_native_assets :
      Option Assets → List TxOutput → AssetState World → AssetState World
  unfolding process_transaction_mints native_outputs
  process_native_assets mint outputs s =
      native_outputs 0 outputs (process_transaction_mints tables tx_hash mint s)
