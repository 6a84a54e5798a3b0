-- ===== src/Params/Provider.antt =====
-- `EpochParamsProvider` of processors/epoch_params_provider.go. The database is a parameter:
-- `create` is the upsert on epoch_no, with whether it succeeded, and `max_epoch` the result of
-- the query for the highest epoch.
use nectar.Prelude.{
  ℕ, zero, suc, ◌+◌, ◌%◌, ◌^◌, Bool, false, Option, none, some, ltb, if◌then◌else◌,
}
use nectar.Era.Names.{get_era_for_epoch}
use nectar.Params.Table.{EpochParam, mainnet_epoch_params}

-- The clone of the era's entry, with the epoch's number.
unfoldable pub params_for : ℕ → Option EpochParam
unfolding get_era_for_epoch mainnet_epoch_params
params_for epoch_no = elim (mainnet_epoch_params (get_era_for_epoch epoch_no)) [
  | none ↦ none
  | some params ↦ some (record params { epoch_no = epoch_no })
]

-- How a backfill ends, or that it still runs when the fuel is spent.
pub data Backfill (Store : Type 0) : Type 0 where
  query_failed : Store → Backfill Store
  complete : Store → Backfill Store
  running : Store → Backfill Store

module _ {Store : Type 0} (create : EpochParam → Store → Store × Bool) where
  -- `ProvideEpochParams`: true stands for no error.
  unfoldable pub provide_epoch_params : ℕ → Store → Store × Bool
  unfolding params_for
  provide_epoch_params epoch_no s = elim (params_for epoch_no) [
    | none ↦ (s, false)
    | some params ↦ create params s
  ]

  -- The loop: an error is logged and passed over; the counter is an `uint32`.
  unfoldable pub backfill_from : ℕ → ℕ → ℕ → Store → Backfill Store
  unfolding provide_epoch_params
  backfill_from zero epoch max_epoch s = running s
  backfill_from (suc fuel) epoch max_epoch s =
      let rest =
        backfill_from fuel ((epoch + 1) % 2 ^ 32) max_epoch (provide_epoch_params epoch s).0 in
      if ltb max_epoch epoch then complete s else rest

  -- `BackfillEpochParams`
  unfoldable pub backfill_epoch_params : ℕ → Option ℕ → Store → Backfill Store
  unfolding backfill_from
  backfill_epoch_params fuel none s = query_failed s
  backfill_epoch_params fuel (some max_epoch) s = backfill_from fuel 0 max_epoch s
