-- ===== src/Assets/Rolled.antt =====
-- The cache of processors/asset_processor.go and a transaction of the database that is rolled back
-- and retried: the rows that it made are gone, and the cache is as it was left.
use nectar.Prelude.{
  ◌≡◌, refl, sym, ap, ◌∙◌, Option, none, some, if◌then◌else◌, if-cases, option-cases,
  option-cases_eq, subst, some_not_none, ◌++◌, Text, text,
}
use nectar.Prelude.Int.{ℤ}
use nectar.Cache.Existence.{Existing}
use nectar.Cache.Again.{ensure-again}
use nectar.Assets.Rows.{
  AssetTables, AssetStore, asset_key, is_duplicate_entry, asset_table, get_or_create_multi_asset,
}
use nectar.Assets.Processor.{after_asset, ma_tx_mint, process_mint_operation}

module _ {World : Type 0} (tables : AssetTables World) (tx_hash : Text) where
  get_or_create-again :
      (policy name : Text) (s : AssetStore World) (v : World)
      → (get_or_create_multi_asset tables policy name s).0 ≡ none
      → let again = record (get_or_create_multi_asset tables policy name s).1 { world = v } in
        get_or_create_multi_asset tables policy name again ≡ (none, again)
  unfolding get_or_create_multi_asset
  get_or_create-again policy name s v h =
      let rebuilt : Option Text × Existing × World → Option Text × AssetStore World =
        λ r. (r.0, record { world = r.2; asset_cache = r.1 }) in
      ap rebuilt (
        ensure-again (asset_table tables policy name) is_duplicate_entry
          (text "failed to create multi-asset: ") (asset_key policy name) s.asset_cache s.world v h)

  -- the three ways in which an insert after an asset ends
  ended :
      (P : Option Text × AssetStore World → Type 0) (failure : Option Text) (message : Text)
      (s2 : AssetStore World)
      → ((o : Option Text) → P (o, s2))
      → P (elim failure [
        | none ↦ (none, s2)
        | some e ↦ if is_duplicate_entry e then (none, s2) else (some (message ++ e), s2)
      ])
  ended P failure message s2 p =
      option-cases P failure _ _ (p none)
        (λ e. if-cases P (is_duplicate_entry e) _ _ (λ _. p none) (λ _. p (some (message ++ e))))

  after_asset-cache :
      (policy name message : Text) (create : World → Option Text × World) (s : AssetStore World)
      → (after_asset tables tx_hash policy name message create s).0 ≡ none
      → ((get_or_create_multi_asset tables policy name s).0 ≡ none)
        × ((after_asset tables tx_hash policy name message create s).1.asset_cache
            ≡ (get_or_create_multi_asset tables policy name s).1.asset_cache)
  unfolding after_asset
  after_asset-cache policy name message create s =
      let (err, s1) = get_or_create_multi_asset tables policy name s in
      let (failure, w) = create s1.world in
      let P : Option Text × AssetStore World → Type 0 =
        λ r. r.0 ≡ none → (err ≡ none) × (r.1.asset_cache ≡ s1.asset_cache) in
      option-cases_eq P err _ _
        (λ n. ended P failure message (record s1 { world = w }) (λ o h. (n, refl)))
        (λ e k h. absurd (some_not_none h))

  after_asset-known :
      (policy name message : Text) (create : World → Option Text × World) (s : AssetStore World)
      → get_or_create_multi_asset tables policy name s ≡ (none, s)
      → (after_asset tables tx_hash policy name message create s).1.world ≡ (create s.world).1
  unfolding after_asset
  after_asset-known policy name message create s e =
      let g = get_or_create_multi_asset tables policy name s in
      let P : Option Text × AssetStore World → Type 0 = λ r. r.1.world ≡ (create s.world).1 in
      option-cases_eq P g.0 _ _
        (λ _. ended P (create g.1.world).0 message _ (λ o. ap (λ r. (create r.1.world).1) e))
        (λ x k. absurd (some_not_none (sym k ∙ ap (λ r. r.0) e)))

  -- For an asset that was minted without an error in a transaction of the database that is then rolled
  -- back: minting it again, on the database as it was before, with the processor as it is after, makes
  -- the row of the mint alone, and no row of the asset.
  pub process_mint_operation-rolled_back :
      (policy name : Text) (amount : ℤ) (s : AssetStore World)
      → (process_mint_operation tables tx_hash policy name amount s).0 ≡ none
      → let s1 = (process_mint_operation tables tx_hash policy name amount s).1 in
        (process_mint_operation tables tx_hash policy name amount
          (record s1 { world = s.world })).1.world
        ≡ (tables.create_mint (ma_tx_mint tables tx_hash policy name amount) s.world).1
  unfolding process_mint_operation after_asset
  process_mint_operation-rolled_back policy name amount s h =
      let create = tables.create_mint (ma_tx_mint tables tx_hash policy name amount) in
      let message = text "failed to create mint record: " in
      let (made, cache) = after_asset-cache policy name message create s h in
      after_asset-known policy name message create _ (
        subst
          (λ (c : Existing).
            get_or_create_multi_asset tables policy name
              (record { world = s.world; asset_cache = c })
            ≡ (none, record { world = s.world; asset_cache = c }))
          (sym cache) (get_or_create-again policy name s s.world made))
