-- ===== src/Assets/Kept.antt =====
-- The cache of processors/asset_processor.go and the table of assets.
use nectar.Prelude.{
  ℕ, ◌==◌, Option, none, some, List, [], ◌∷◌, if-cases, option-cases, split_at, Text, text,
}
use nectar.Prelude.Int.{ℤ, to_uint64}
use nectar.Prelude.Hex.{hex_decode}
use nectar.Block.Ledger.{Assets}
use nectar.Cache.Backing.{Stored, RowLaws, moved-Stored, empty-Stored, ensure-Stored}
use nectar.Assets.Rows.{
  MaTxMint, MaTxOut, AssetTables, AssetStore, AssetState, asset_key, is_duplicate_entry,
  asset_table, get_or_create_multi_asset,
}
use nectar.Assets.Processor.{
  AssetCall, warn_on, each_name, each_asset, after_asset, process_mint_operation,
  process_output_asset, process_collateral_output_asset, process_output_assets,
  process_collateral_output_assets, process_decoded, process_mint_parts, process_mint, clear_assets,
  ma_tx_mint, ma_tx_out, new_asset_processor,
}

-- What is relied on, with `Has` for the assets, by their keys, that the table has: the inserts of
-- mints and outputs take no asset away, and the table of assets does what `RowLaws` says.
pub record AssetLaws {World : Type 0} (tables : AssetTables World) (Has : Text → World → Type 0)
    : Type 0 where
  pub assets :
      (policy name : Text)
      → RowLaws Has is_duplicate_entry (asset_key policy name) (asset_table tables policy name)
  pub keeps_mint :
      (row : MaTxMint) (k : Text) (w : World) → Has k w → Has k (tables.create_mint row w).1
  pub keeps_out :
      (row : MaTxOut) (k : Text) (w : World) → Has k w → Has k (tables.create_out row w).1

-- the operations of the processor that the block processor calls, and `ClearCache`
pub data AssetOperation : Type 0 where
  mint : Text → List (Text × ℤ) → AssetOperation
  output_assets collateral_assets : Text → ℕ → Assets → AssetOperation
  clear_cache : AssetOperation

module _ {World : Type 0} (tables : AssetTables World) where
  abbrev operate : AssetOperation → AssetState World → AssetState World
  unfolding process_mint process_output_assets process_collateral_output_assets clear_assets
  operate (mint tx_hash m) s = process_mint tables tx_hash m s
  operate (output_assets tx_hash i assets) s = process_output_assets tables tx_hash i assets s
  operate (collateral_assets tx_hash i assets) s =
      process_collateral_output_assets tables tx_hash i assets s
  operate clear_cache s = clear_assets s

  -- The operations, one after the other.
  unfoldable pub asset_run : List AssetOperation → AssetState World → AssetState World
  unfolding process_mint process_output_assets process_collateral_output_assets clear_assets
  asset_run [] s = s
  asset_run (o ∷ ops) s = asset_run ops (operate o s)

module _ {World : Type 0} (tables : AssetTables World) (Has : Text → World → Type 0)
    (laws : AssetLaws tables Has) where
  -- The assets of the cache are in the table.
  abbrev pub Listed : AssetStore World → Type 0
  Listed s = Stored Has s.asset_cache s.world

  Ends : Option Text × AssetStore World → Type 0
  Ends r = Listed r.1

  Keeps : AssetCall World → Type 0
  Keeps call = (s : AssetStore World) → Listed s → Ends (call s)

  get_or_create_multi_asset-Keeps :
      (policy name : Text) → Keeps (get_or_create_multi_asset tables policy name)
  unfolding Keeps Ends get_or_create_multi_asset
  get_or_create_multi_asset-Keeps policy name s l =
      ensure-Stored Has is_duplicate_entry (asset_key policy name) (asset_table tables policy name)
        (laws.assets policy name) (text "failed to create multi-asset: ") s.asset_cache s.world l

  after_asset-Keeps :
      (tx_hash policy name message : Text) (create : World → Option Text × World)
      → ((k : Text) (w : World) → Has k w → Has k (create w).1)
      → Keeps (after_asset tables tx_hash policy name message create)
  unfolding Keeps Ends after_asset
  after_asset-Keeps tx_hash policy name message create kept s l =
      let (err, s1) = get_or_create_multi_asset tables policy name s in
      let l1 = get_or_create_multi_asset-Keeps policy name s l in
      let w = (create s1.world).1 in
      let l2 = moved-Stored Has s1.asset_cache s1.world w (λ k. kept k s1.world) l1 in
      option-cases Ends err _ _
        (option-cases Ends (create s1.world).0 _ _ l2
          (λ e. if-cases Ends (is_duplicate_entry e) _ _ (λ _. l2) (λ _. l2)))
        (λ _. l1)

  process_mint_operation-Keeps :
      (tx_hash policy name : Text) (amount : ℤ)
      → Keeps (process_mint_operation tables tx_hash policy name amount)
  unfolding process_mint_operation
  process_mint_operation-Keeps tx_hash policy name amount =
      let row = ma_tx_mint tables tx_hash policy name amount in
      after_asset-Keeps tx_hash policy name (text "failed to create mint record: ")
        (tables.create_mint row) (laws.keeps_mint row)

  process_output_asset-Keeps :
      (tx_hash : Text) (index : ℕ) (policy name : Text) (quantity : ℕ)
      → Keeps (process_output_asset tables tx_hash index policy name quantity)
  unfolding process_output_asset
  process_output_asset-Keeps tx_hash index policy name quantity =
      let row = ma_tx_out tables tx_hash index policy name quantity in
      after_asset-Keeps tx_hash policy name (text "failed to create output asset record: ")
        (tables.create_out row) (laws.keeps_out row)

  process_collateral_output_asset-Keeps :
      (tx_hash : Text) (index : ℕ) (policy name : Text) (quantity : ℕ)
      → Keeps (process_collateral_output_asset tables tx_hash index policy name quantity)
  unfolding Keeps Ends process_collateral_output_asset
  process_collateral_output_asset-Keeps tx_hash index policy name quantity s l =
      let (err, s1) = get_or_create_multi_asset tables policy name s in
      let l1 = get_or_create_multi_asset-Keeps policy name s l in
      option-cases Ends err _ _
        (option-cases Ends (tables.find_collateral_out tx_hash index s1.world) _ _ l1 (λ _. l1))
        (λ _. l1)

  -- the same of a state with its warnings
  Fine : AssetState World → Type 0
  Fine s = Listed s.store

  warn_on-Fine :
      (message : Text) (call : AssetCall World) (s : AssetState World)
      → Keeps call
      → Fine s
      → Fine (warn_on message call s)
  unfolding warn_on Keeps Ends Fine
  warn_on-Fine message call s kept l =
      option-cases Fine (call s.store).0 _ _ (kept s.store l) (λ _. kept s.store l)

  each_name-Fine :
      (message : Text) (call : Text → ℤ → AssetCall World)
      → ((name : Text) (amount : ℤ) → Keeps (call name amount))
      → (names : List (Text × ℤ)) (s : AssetState World) → Fine s
      → Fine (each_name message call names s)
  unfolding each_name
  each_name-Fine message call kept [] s l = l
  each_name-Fine message call kept ((name, amount) ∷ names) s l =
      each_name-Fine message call kept names _
        (warn_on-Fine message (call name amount) s (kept name amount) l)

  each_asset-Fine :
      (message : Text) (call : Text → Text → ℤ → AssetCall World)
      → ((policy name : Text) (amount : ℤ) → Keeps (call policy name amount))
      → (assets : Assets) (s : AssetState World) → Fine s
      → Fine (each_asset message call assets s)
  unfolding each_asset
  each_asset-Fine message call kept [] s l = l
  each_asset-Fine message call kept ((policy, names) ∷ assets) s l =
      each_asset-Fine message call kept assets _
        (each_name-Fine message (call policy) (kept policy) names s l)

  process_decoded-Fine :
      (tx_hash policy_text : Text) (policy name : Option Text) (amount : ℤ) (s : AssetState World)
      → Fine s
      → Fine (process_decoded tables tx_hash policy_text policy name amount s)
  unfolding process_decoded Fine Keeps Ends
  process_decoded-Fine tx_hash policy_text none name amount s l = l
  process_decoded-Fine tx_hash policy_text (some policy) none amount s l = l
  process_decoded-Fine tx_hash policy_text (some policy) (some name) amount s l =
      process_mint_operation-Keeps tx_hash policy name amount s.store l

  process_mint_parts-Fine :
      (tx_hash asset_id : Text) (parts : List Text) (amount : ℤ) (s : AssetState World)
      → Fine s
      → Fine (process_mint_parts tables tx_hash asset_id parts amount s)
  unfolding process_mint_parts Fine
  process_mint_parts-Fine tx_hash asset_id (policy ∷ name ∷ []) amount s l =
      process_decoded-Fine tx_hash policy (hex_decode policy) (hex_decode name) amount s l
  process_mint_parts-Fine tx_hash asset_id [] amount s l = l
  process_mint_parts-Fine tx_hash asset_id (policy ∷ []) amount s l = l
  process_mint_parts-Fine tx_hash asset_id (policy ∷ name ∷ other ∷ rest) amount s l = l

  process_mint-Fine :
      (tx_hash : Text) (m : List (Text × ℤ)) (s : AssetState World)
      → Fine s
      → Fine (process_mint tables tx_hash m s)
  unfolding process_mint
  process_mint-Fine tx_hash [] s l = l
  process_mint-Fine tx_hash ((asset_id, amount) ∷ m) s l =
      process_mint-Fine tx_hash m _
        (process_mint_parts-Fine tx_hash asset_id (split_at (λ c. c == 46) asset_id) amount s l)

  cleared-Fine : (s : AssetState World) → Fine (clear_assets s)
  unfolding Fine clear_assets
  cleared-Fine s = empty-Stored Has s.store.world

  operate-Fine : (o : AssetOperation) (s : AssetState World) → Fine s → Fine (operate tables o s)
  unfolding operate process_output_assets process_collateral_output_assets
  operate-Fine (mint tx_hash m) s l = process_mint-Fine tx_hash m s l
  operate-Fine (output_assets tx_hash i assets) s l =
      each_asset-Fine (text "Output asset error: ")
        (λ policy name amount. process_output_asset tables tx_hash i policy name (to_uint64 amount))
        (λ policy name amount. process_output_asset-Keeps tx_hash i policy name (to_uint64 amount))
        assets s l
  operate-Fine (collateral_assets tx_hash i assets) s l =
      each_asset-Fine (text "Collateral output asset error: ")
        (λ policy name amount.
          process_collateral_output_asset tables tx_hash i policy name (to_uint64 amount))
        (λ policy name amount.
          process_collateral_output_asset-Keeps tx_hash i policy name (to_uint64 amount))
        assets s l
  operate-Fine clear_cache s l = cleared-Fine s

  run-Fine :
      (ops : List AssetOperation) (s : AssetState World) → Fine s → Fine (asset_run tables ops s)
  unfolding asset_run
  run-Fine [] s l = l
  run-Fine (o ∷ ops) s l = run-Fine ops (operate tables o s) (operate-Fine o s l)

  -- After any mints, assets of outputs and of collateral outputs, and clearings of the cache, from a
  -- processor with an empty cache, every asset of the cache is in the table of assets, if the table
  -- keeps its assets and its query and insert say whether an asset is there.
  pub asset_run-Listed :
      (ops : List AssetOperation) (w : World)
      → Listed (asset_run tables ops (new_asset_processor w)).store
  unfolding Fine
  asset_run-Listed ops w = run-Fine ops (new_asset_processor w) (empty-Stored Has w)
