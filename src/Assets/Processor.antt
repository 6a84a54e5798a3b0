-- ===== src/Assets/Processor.antt =====
-- The operations of processors/asset_processor.go.
use nectar.Prelude.{
  ℕ, ltb, ◌==◌, not, Option, none, some, List, [], ◌∷◌, ◌++◌, if◌then◌else◌, length, Text, text,
  contains, split_at,
}
use nectar.Prelude.Int.{ℤ, to_uint64}
use nectar.Prelude.Hex.{hex_decode, digits}
use nectar.Block.Ledger.{Assets}
use nectar.Assets.Rows.{
  MaTxMint, MaTxOut, AssetTables, AssetStore, AssetState, is_duplicate_entry,
  get_or_create_multi_asset,
}

abbrev pub AssetCall : Type 0 → Type 0
AssetCall World = AssetStore World → Option Text × AssetStore World

module _ {World : Type 0} where
  abbrev pub warn : Text → AssetState World → AssetState World
  warn message s = record s { warnings = s.warnings ++ (message ∷ []) }

  -- A call whose error is a warning.
  unfoldable pub warn_on : Text → AssetCall World → AssetState World → AssetState World
  warn_on message call s =
      let (err, store) = call s.store in
      let s1 = record s { store = store } in
      elim err [ none ↦ s1 | some e ↦ warn (message ++ e) s1 ]

  unfoldable pub each_name :
      Text → (Text → ℤ → AssetCall World) → List (Text × ℤ) → AssetState World → AssetState World
  unfolding warn_on
  each_name message call [] s = s
  each_name message call ((name, amount) ∷ names) s =
      each_name message call names (warn_on message (call name amount) s)

  -- the two loops over the policies and their assets
  unfoldable pub each_asset :
      Text → (Text → Text → ℤ → AssetCall World) → Assets → AssetState World → AssetState World
  unfolding each_name
  each_asset message call [] s = s
  each_asset message call ((policy, names) ∷ assets) s =
      each_asset message call assets (each_name message (call policy) names s)

module _ {World : Type 0} (tables : AssetTables World) (tx_hash : Text) where
  -- an insert after the asset; a row that is there already is no error
  unfoldable pub after_asset : Text → Text → Text → (World → Option Text × World) → AssetCall World
  unfolding get_or_create_multi_asset contains
  after_asset policy name message create s =
      let (err, s1) = get_or_create_multi_asset tables policy name s in
      let (failure, w) = create s1.world in
      let s2 = record s1 { world = w } in
      elim err [
        | some e ↦ (some (text "failed to ensure multi-asset: " ++ e), s1)
        | none ↦ elim failure [
          | none ↦ (none, s2)
          | some e ↦ if is_duplicate_entry e then (none, s2) else (some (message ++ e), s2)
        ]
      ]

  unfoldable pub ma_tx_mint : Text → Text → ℤ → MaTxMint
  ma_tx_mint policy name amount = record {
    tx_hash = tx_hash;
    policy = policy;
    name = name;
    quantity = amount;
  }

  unfoldable pub process_mint_operation : Text → Text → ℤ → AssetCall World
  unfolding after_asset ma_tx_mint
  process_mint_operation policy name amount =
      after_asset policy name (text "failed to create mint record: ")
        (tables.create_mint (ma_tx_mint policy name amount))

  unfoldable pub ma_tx_out : ℕ → Text → Text → ℕ → MaTxOut
  ma_tx_out index policy name quantity = record {
    tx_hash = tx_hash;
    tx_index = index;
    policy = policy;
    name = name;
    quantity = quantity;
  }

  unfoldable pub process_output_asset : ℕ → Text → Text → ℕ → AssetCall World
  unfolding after_asset ma_tx_out
  process_output_asset index policy name quantity =
      after_asset policy name (text "failed to create output asset record: ")
        (tables.create_out (ma_tx_out index policy name quantity))

  -- The asset is made sure of, and the collateral output looked for; no row is made.
  unfoldable pub process_collateral_output_asset : ℕ → Text → Text → ℕ → AssetCall World
  unfolding get_or_create_multi_asset
  process_collateral_output_asset index policy name quantity s =
      let (err, s1) = get_or_create_multi_asset tables policy name s in
      elim err [
        | some e ↦ (some (text "failed to ensure multi-asset: " ++ e), s1)
        | none ↦ elim (tables.find_collateral_out tx_hash index s1.world) [
          | none ↦ (none, s1)
          | some e ↦ (some (text "failed to find collateral output: " ++ e), s1)
        ]
      ]

  unfoldable pub process_transaction_mints : Option Assets → AssetState World → AssetState World
  unfolding each_asset process_mint_operation
  process_transaction_mints none s = s
  process_transaction_mints (some mint) s =
      each_asset (text "Mint operation error: ") process_mint_operation mint s

  unfoldable pub process_output_assets : ℕ → Assets → AssetState World → AssetState World
  unfolding each_asset process_output_asset to_uint64
  process_output_assets index assets s =
      each_asset (text "Output asset error: ")
        (λ policy name amount. process_output_asset index policy name (to_uint64 amount)) assets s

  unfoldable pub process_collateral_output_assets : ℕ → Assets → AssetState World → AssetState World
  unfolding each_asset process_collateral_output_asset to_uint64
  process_collateral_output_assets index assets s =
      each_asset (text "Collateral output asset error: ")
        (λ policy name amount. process_collateral_output_asset index policy name (to_uint64 amount))
        assets s

  -- one entry of the map, by the policy and the name that its key decodes to; a name that cannot be
  -- decoded and an error of the operation go to the log alone
  unfoldable pub process_decoded :
      Text → Option Text → Option Text → ℤ → AssetState World → AssetState World
  unfolding process_mint_operation
  process_decoded policy_text none name amount s =
      warn (text "Failed to decode policy ID " ++ policy_text) s
  process_decoded policy_text (some policy) none amount s = s
  process_decoded policy_text (some policy) (some name) amount s = record s {
    store = (process_mint_operation policy name amount s.store).1;
  }

  unfoldable pub process_mint_parts : Text → List Text → ℤ → AssetState World → AssetState World
  unfolding process_decoded hex_decode
  process_mint_parts asset_id (policy ∷ name ∷ []) amount s =
      process_decoded policy (hex_decode policy) (hex_decode name) amount s
  process_mint_parts asset_id _ amount s = warn (text "Invalid asset ID format: " ++ asset_id) s

  -- `ProcessMint` on the pairs of the map in the order of one visit, which may be any; its error is
  -- always nil. A policy has 28 bytes: the log line of a mint, which takes the first eight digits of
  -- the policy, would panic on one of less than four.
  unfoldable pub process_mint : List (Text × ℤ) → AssetState World → AssetState World
  unfolding process_mint_parts split_at
  process_mint [] s = s
  process_mint ((asset_id, amount) ∷ mint) s =
      process_mint mint (process_mint_parts asset_id (split_at (λ c. c == 46) asset_id) amount s)

-- `NewAssetProcessor`
abbrev pub new_asset_processor : {World : Type 0} → World → AssetState World
new_asset_processor w = record { store = record { world = w; asset_cache = [] }; warnings = [] }

-- `ClearCache`
unfoldable pub clear_assets : {World : Type 0} → AssetState World → AssetState World
clear_assets s = record s { store = record { world = s.store.world; asset_cache = [] } }

-- the error of `ValidateAsset`
unfoldable validate_asset : Text → Text → Option Text
unfolding digits
validate_asset policy name =
    if not (length policy == 28)
    then some (text "invalid policy ID length: expected 28, got " ++ digits (length policy))
    else if ltb 32 (length name)
    then some (text "asset name too long: maximum 32 bytes, got " ++ digits (length name))
    else none
