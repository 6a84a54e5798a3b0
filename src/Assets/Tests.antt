-- ===== src/Assets/Tests.antt =====
-- A mint of two assets, over a table of assets by their keys.
use nectar.Prelude.{
  ◌≡◌, refl, true, false, none, some, List, [], ◌∷◌, any, if◌then◌else◌, Text, text, text_eq,
  text_eq_refl, none_not_some, arith, ap,
}
use mathlib.Core.List.{Permᴰ}
use nectar.Prelude.Int.{ℤ, pos, negsuc}
use nectar.Cache.Existence.{there, missing}
use nectar.Cache.Backing.{RowLaws}
use nectar.Era.Slots.{alonzo}
use nectar.Block.Ledger.{Assets, LedgerTx}
use nectar.Block.Gates.{get_transaction_mint, mint_key}
use nectar.Assets.Rows.{AssetTables, asset_key, is_duplicate_entry, asset_table}
use nectar.Assets.Processor.{process_mint, process_mint_operation, new_asset_processor}
use nectar.Assets.Keys.{AreBytes, Entry, flatten}
use nectar.Assets.Minted.{mint_stores, process_mint-get_transaction_mint}
use nectar.Assets.Rolled.{process_mint_operation-rolled_back}
use nectar.Assets.Kept.{
  AssetLaws, AssetOperation, mint, output_assets, collateral_assets, clear_cache, asset_run, Listed,
  asset_run-Listed,
}

abbrev tables : AssetTables (List Text)
tables = record {
  fingerprint = λ policy name. policy;
  find_asset = λ policy name w. if any (text_eq (asset_key policy name)) w then there else missing;
  create_asset = λ row w. (none, asset_key row.policy row.name ∷ w);
  create_mint = λ row w. (none, w);
  create_out = λ row w. (none, w);
  find_collateral_out = λ tx_hash index w. none;
}

abbrev Has : Text → List Text → Type 0
Has k w = any (text_eq k) w ≡ true

asset_laws :
    (policy name : Text)
    → RowLaws Has is_duplicate_entry (asset_key policy name) (asset_table tables policy name)
asset_laws policy name = record {
  keeps = λ k w h. ground (arith, h);
  found = λ w e. ground (arith, e);
  made = λ w e. rw (text_eq_refl (asset_key policy name)) refl;
  accepted = λ w e h a. absurd (none_not_some h);
}

laws : AssetLaws tables Has
laws = record { assets = asset_laws; keeps_mint = λ row k w h. h; keeps_out = λ row k w h. h }

-- one policy with two assets, the second one burnt
abbrev policy : Text
policy = text "0123456789012345678901234567"

abbrev minted : Assets
minted = (policy, (text "a", pos 5) ∷ (text "b", negsuc 1) ∷ []) ∷ []

abbrev operations : List AssetOperation
operations =
    mint (text "T") ((text "50.61", pos 5) ∷ (text "x", pos 1) ∷ [])
    ∷ output_assets (text "T") 0 minted
    ∷ clear_cache
    ∷ collateral_assets (text "T") 1 minted
    ∷ []

asset_run-Listed_example :
    Listed tables Has laws (asset_run tables operations (new_asset_processor [])).store
asset_run-Listed_example = asset_run-Listed tables Has laws operations []

abbrev payment : LedgerTx
payment = record {
  hash = text "T";
  cbor_length = 200;
  fee = 5;
  inputs = [];
  outputs = [];
  has_metadata = false;
  withdrawals = [];
  asset_mint = some minted;
  certificates = [];
  votes = false;
  proposals = 0;
  validity_interval_start = 0;
  ttl = 9;
  is_valid = true;
  total_collateral = 0;
  donation = 0;
  collateral = [];
  collateral_return = none;
  reference_inputs = [];
  required_signers = [];
}

distinct : ¬ ((policy ≡ policy) × (text "a" ≡ text "b"))
distinct (p, e) = ground (arith, ap (text_eq (text "a")) e)

-- the map in the other order
abbrev visited : List (Text × ℤ)
visited = (mint_key policy (text "b"), negsuc 1) ∷ (mint_key policy (text "a"), pos 5) ∷ []

visited-Perm : Permᴰ (get_transaction_mint payment alonzo) visited
unfolding get_transaction_mint
visited-Perm = Permᴰ.swap refl refl

process_mint-get_transaction_mint_example :
    (es : List Entry) × Permᴰ (flatten minted) es
    × ((process_mint tables (text "T") visited (new_asset_processor [])).store
        ≡ mint_stores tables (text "T") es (new_asset_processor []).store)
process_mint-get_transaction_mint_example =
    process_mint-get_transaction_mint tables (text "T") payment alonzo minted visited
      (new_asset_processor []) refl refl bytes (refl, (refl, tt)) ((distinct, tt), (tt, tt))
      visited-Perm
  where
    bytes : AreBytes (flatten minted)
    bytes = omega arith

-- The second mint of the asset on the empty database leaves no asset in it.
process_mint_operation-rolled_back_example :
    let s1 =
      (process_mint_operation tables
        (text "T")
        (text "P")
        (text "a")
        (pos 5)
        (new_asset_processor []).store).1 in
    (process_mint_operation tables
      (text "T")
      (text "P")
      (text "a")
      (pos 5)
      (record s1 { world = [] })).1.world
    ≡ []
unfolding process_mint_operation
process_mint_operation-rolled_back_example =
    process_mint_operation-rolled_back tables (text "T") (text "P") (text "a") (pos 5)
      (new_asset_processor []).store refl
