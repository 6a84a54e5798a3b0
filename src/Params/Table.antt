-- ===== src/Params/Table.antt =====
-- `EpochParam` of models/assets.go and `MainnetEpochParams` of processors/epoch_params_provider.go.
-- The fields that no entry of the table sets (the voting thresholds, the cost model, the extra
-- entropy) are left out. A float of the table is written as a decimal.
use nectar.Prelude.{ℕ, Option, none, some}
use nectar.Era.Names.{Era}

-- `decimal m p` is m / 10^p.
pub data Decimal : Type 0 where
  decimal : ℕ → ℕ → Decimal

pub record EpochParam : Type 0 where
  pub epoch_no : ℕ
  pub min_fee_a : ℕ
  pub min_fee_b : ℕ
  pub max_block_size : ℕ
  pub max_tx_size : ℕ
  pub max_bh_size : ℕ
  pub key_deposit : ℕ
  pub pool_deposit : ℕ
  pub max_epoch : ℕ
  pub n_opt : ℕ
  pub a0 : Decimal
  pub rho : Decimal
  pub tau : Decimal
  pub decentralisation : Decimal
  pub protocol_major : ℕ
  pub protocol_minor : ℕ
  pub min_utxo : ℕ
  pub min_pool_cost : ℕ
  pub coins_per_utxo_size : Option ℕ
  pub price_mem : Option Decimal
  pub price_step : Option Decimal
  pub max_tx_ex_mem : Option ℕ
  pub max_tx_ex_steps : Option ℕ
  pub max_block_ex_mem : Option ℕ
  pub max_block_ex_steps : Option ℕ
  pub max_val_size : Option ℕ
  pub collateral_percent : Option ℕ
  pub max_collateral_inputs : Option ℕ
  pub drep_deposit : Option ℕ
  pub gov_action_deposit : Option ℕ
  pub committee_min_size : Option ℕ
  pub committee_max_term_length : Option ℕ
  pub gov_action_lifetime : Option ℕ
  pub drep_activity : Option ℕ

abbrev pub byron_params : EpochParam
byron_params = record {
  epoch_no = 0;
  min_fee_a = 44;
  min_fee_b = 155381;
  max_block_size = 65536;
  max_tx_size = 16384;
  max_bh_size = 1100;
  key_deposit = 0;
  pool_deposit = 0;
  max_epoch = 18;
  n_opt = 0;
  a0 = decimal 0 0;
  rho = decimal 0 0;
  tau = decimal 0 0;
  decentralisation = decimal 1 0;
  protocol_major = 1;
  protocol_minor = 0;
  min_utxo = 0;
  min_pool_cost = 0;
  coins_per_utxo_size = none;
  price_mem = none;
  price_step = none;
  max_tx_ex_mem = none;
  max_tx_ex_steps = none;
  max_block_ex_mem = none;
  max_block_ex_steps = none;
  max_val_size = none;
  collateral_percent = none;
  max_collateral_inputs = none;
  drep_deposit = none;
  gov_action_deposit = none;
  committee_min_size = none;
  committee_max_term_length = none;
  gov_action_lifetime = none;
  drep_activity = none;
}

abbrev pub shelley_params : EpochParam
shelley_params = record byron_params {
  key_deposit = 2000000;
  pool_deposit = 500000000;
  n_opt = 150;
  a0 = decimal 3 1;
  rho = decimal 3 3;
  tau = decimal 2 1;
  decentralisation = decimal 0 0;
  protocol_major = 2;
  min_utxo = 1000000;
  min_pool_cost = 340000000;
  price_mem = some (decimal 577 4);
  price_step = some (decimal 721 7);
  collateral_percent = some 0;
  max_collateral_inputs = some 0;
}

abbrev pub allegra_params : EpochParam
allegra_params = record shelley_params { n_opt = 500; protocol_major = 3 }

abbrev pub mary_params : EpochParam
mary_params = record allegra_params { protocol_major = 4 }

abbrev pub alonzo_params : EpochParam
alonzo_params = record mary_params {
  max_block_size = 90112;
  protocol_major = 5;
  min_utxo = 34482;
  coins_per_utxo_size = some 34482;
  max_tx_ex_mem = some 14000000;
  max_tx_ex_steps = some 10000000000;
  max_block_ex_mem = some 62000000;
  max_block_ex_steps = some 20000000000;
  collateral_percent = some 150;
  max_collateral_inputs = some 3;
}

abbrev pub babbage_params : EpochParam
babbage_params = record alonzo_params {
  protocol_major = 7;
  min_utxo = 0;
  min_pool_cost = 170000000;
  coins_per_utxo_size = some 4310;
  max_val_size = some 5000;
}

abbrev pub conway_params : EpochParam
conway_params = record babbage_params {
  protocol_major = 9;
  drep_deposit = some 500000000;
  gov_action_deposit = some 100000000;
  committee_min_size = some 7;
  committee_max_term_length = some 146;
  gov_action_lifetime = some 6;
  drep_activity = some 20;
}

-- `MainnetEpochParams[era]`
unfoldable pub mainnet_epoch_params : Era → Option EpochParam
mainnet_epoch_params Era.byron = some byron_params
mainnet_epoch_params Era.shelley = some shelley_params
mainnet_epoch_params Era.allegra = some allegra_params
mainnet_epoch_params Era.mary = some mary_params
mainnet_epoch_params Era.alonzo = some alonzo_params
mainnet_epoch_params Era.babbage = some babbage_params
mainnet_epoch_params Era.conway = some conway_params
mainnet_epoch_params _ = none
