-- ===== src/Assets/Rows.antt =====
-- The rows of processors/asset_processor.go, the tables that it works on, as parameters, and the cache
-- of the assets, `MultiAssetCache`. What goes to the log alone is left out.
use nectar.Prelude.{ℕ, Bool, Option, List, ◌++◌, Text, text, contains}
use nectar.Prelude.Int.{ℤ}
use nectar.Prelude.Hex.{hex}
use nectar.Cache.Existence.{Found, Existing, RowTable, ensure}

pub record MultiAsset : Type 0 where
  pub policy : Text
  pub name : Text
  pub fingerprint : Text

pub record MaTxMint : Type 0 where
  pub tx_hash : Text
  pub policy : Text
  pub name : Text
  pub quantity : ℤ

pub record MaTxOut : Type 0 where
  pub tx_hash : Text
  pub tx_index : ℕ
  pub policy : Text
  pub name : Text
  pub quantity : ℕ

-- The queries and the inserts, which do nothing on a conflict, with their errors (`none` is nil).
-- `fingerprint` is the ledger library's.
pub record AssetTables (World : Type 0) : Type 0 where
  pub fingerprint : Text → Text → Text
  pub find_asset : Text → Text → World → Found
  pub create_asset : MultiAsset → World → Option Text × World
  pub create_mint : MaTxMint → World → Option Text × World
  pub create_out : MaTxOut → World → Option Text × World
  -- the query for a collateral output by its transaction and index
  pub find_collateral_out : Text → ℕ → World → Option Text

-- the database and the cache
pub record AssetStore (World : Type 0) : Type 0 where
  pub world : World
  pub asset_cache : Existing

-- `warnings` is what goes to the unified error system.
pub record AssetState (World : Type 0) : Type 0 where
  pub store : AssetStore World
  pub warnings : List Text

unfoldable pub asset_key : Text → Text → Text
unfolding hex
asset_key policy name = hex policy ++ (text ":" ++ hex name)

abbrev pub is_duplicate_entry : Text → Bool
unfolding contains
is_duplicate_entry e = contains (text "Duplicate entry") e

module _ {World : Type 0} (tables : AssetTables World) where
  -- the asset's row
  abbrev pub asset_table : Text → Text → RowTable World
  asset_table policy name = record {
    find = tables.find_asset policy name;
    create =
        tables.create_asset
          (record { policy = policy; name = name; fingerprint = tables.fingerprint policy name });
  }

  -- `GetOrCreateMultiAssetWithTx`
  unfoldable pub get_or_create_multi_asset :
      Text → Text → AssetStore World → Option Text × AssetStore World
  unfolding ensure asset_key contains
  get_or_create_multi_asset policy name s =
      let (err, cache, w) =
        ensure (asset_table policy name) is_duplicate_entry (text "failed to create multi-asset: ")
          (asset_key policy name) s.asset_cache s.world in
      (err, record { world = w; asset_cache = cache })
