-- ===== src/Era/Config.antt =====
-- The performance settings by epoch: processors/era_config.go, and the part of a block processor's
-- state that `updateEraConfig` of processors/block_processor.go keeps.
use nectar.Prelude.{ℕ, ◌*◌, not, ltb, ◌==◌, if◌then◌else◌}

pub record EraConfig : Type 0 where
  pub worker_count : ℕ
  pub tx_batch_size : ℕ
  pub tx_out_batch_size : ℕ
  pub tx_in_batch_size : ℕ
  pub asset_batch_size : ℕ
  pub block_batch_size : ℕ
  pub fetch_range_size : ℕ
  pub queue_size : ℕ

abbrev settings : ℕ → ℕ → ℕ → ℕ → ℕ → ℕ → ℕ → ℕ → EraConfig
settings workers tx tx_out tx_in asset block fetch queue = record {
  worker_count = workers;
  tx_batch_size = tx;
  tx_out_batch_size = tx_out;
  tx_in_batch_size = tx_in;
  asset_batch_size = asset;
  block_batch_size = block;
  fetch_range_size = fetch;
  queue_size = queue;
}

unfoldable pub get_era_config : ℕ → EraConfig
get_era_config epoch_no =
    if ltb epoch_no 208
    then settings 16 1000 2000 2000 1000 200 5000 100000
    else if ltb epoch_no 236
    then settings 12 500 1000 1000 500 100 2000 50000
    else if ltb epoch_no 290
    then settings 10 400 800 800 300 80 1500 30000
    else if ltb epoch_no 365
    then settings 8 300 500 500 200 50 1000 20000
    else settings 6 200 300 300 100 30 500 10000

-- `currentEpoch` and `currentEraConfig` of a `BlockProcessor`.
pub record EraState : Type 0 where
  pub current_epoch : ℕ
  pub current_config : EraConfig

-- As `NewBlockProcessor` sets them.
unfoldable pub new_era_state : EraState
unfolding get_era_config
new_era_state = record { current_epoch = 0; current_config = get_era_config 0 }

unfoldable pub update_era_config : ℕ → EraState → EraState
unfolding get_era_config
update_era_config epoch_no s = record s {
  current_epoch = epoch_no;
  current_config = get_era_config epoch_no;
}

-- The guard at the start of `ProcessBlock`.
unfoldable pub enter_epoch : ℕ → EraState → EraState
unfolding update_era_config
enter_epoch epoch_no s =
    if not (epoch_no == s.current_epoch) then update_era_config epoch_no s else s

-- The batch size that `processTransactionOutputs` uses for a number of outputs.
unfoldable pub output_batch_size : EraConfig → ℕ → ℕ
output_batch_size c count =
    if ltb (c.tx_out_batch_size * 2) count then c.tx_out_batch_size * 2 else c.tx_out_batch_size
