-- ===== src/Block/Rows.antt =====
-- The rows of blocks and transactions: `setEraSpecificBlockFields`, `setEraSpecificTxFields` and the
-- records that `processBlockHeader` and `processTransaction` of processors/block_processor.go make,
-- of the structures of models/core.go.
use nectar.Prelude.{
  ℕ, ◌+◌, Bool, true, false, ◌&&◌, Option, none, some, List, [], ◌∷◌, ltb, ◌==◌, if◌then◌else◌,
  is_empty, length, Text,
}
use nectar.Prelude.Hex.{hex}
use nectar.Prelude.Int.{ℤ, pos, to_int64, to_uint64}
use nectar.Era.Slots.{
  BlockType, byron_ebb, byron_main, shelley, allegra, mary, alonzo, babbage, conway, other,
  to_uint32, get_epoch_for_slot, get_block_time,
}
use nectar.Era.Names.{Era, block_era_name}
use nectar.Block.Ledger.{TxOutput, LedgerTx, LedgerBlock, HeaderKind, keyed_header}
use nectar.Block.Gates.{since}

pub record TxRow : Type 0 where
  pub hash : Text
  pub block_hash : Text
  pub block_index : ℕ
  pub size : ℕ
  pub fee : Option ℤ
  pub out_sum : Option ℤ
  pub invalid_before : Option ℤ
  pub invalid_hereafter : Option ℤ
  pub valid_contract : Option Bool
  pub total_collateral : Option ℤ
  pub treasury_donation : Option ℤ

pub record BlockRow : Type 0 where
  pub hash : Text
  pub slot_no : ℕ
  pub epoch_no : ℕ
  pub block_no : ℕ
  pub slot_leader_hash : Text
  pub size : ℕ
  pub time : ℤ
  pub tx_count : ℕ
  pub proto_major : ℕ
  pub proto_minor : ℕ
  pub era : Era
  pub previous_hash : Option Text
  pub vrf_key : Option Text

-- a field that is set where the number is not 0, as an `int64`
abbrev pub if_positive : ℕ → Option ℤ → Option ℤ
unfolding to_int64
if_positive n old = if ltb 0 n then some (to_int64 n) else old

-- the eras with validity intervals
abbrev pub has_validity : BlockType → Bool
has_validity allegra = true
has_validity mary = true
has_validity alonzo = true
has_validity babbage = true
has_validity conway = true
has_validity _ = false

unfoldable pub set_validity : LedgerTx → TxRow → TxRow
unfolding to_int64
set_validity t row = record row {
  invalid_before = if_positive t.validity_interval_start row.invalid_before;
  invalid_hereafter = if_positive t.ttl row.invalid_hereafter;
}

unfoldable pub set_script_fields : LedgerTx → TxRow → TxRow
unfolding to_int64
set_script_fields t row = record row {
  valid_contract = some t.is_valid;
  total_collateral = if_positive t.total_collateral row.total_collateral;
}

unfoldable pub set_era_specific_tx_fields : LedgerTx → BlockType → TxRow → TxRow
unfolding set_validity set_script_fields to_int64
set_era_specific_tx_fields t b row =
    let row1 = if has_validity b then set_validity t row else row in
    let row2 = if since alonzo b then set_script_fields t row1 else row1 in
    if since conway b
    then record row2 { treasury_donation = if_positive t.donation row2.treasury_donation }
    else row2

-- the sum of the amounts, as `int64` additions
unfoldable pub output_sum : ℤ → List TxOutput → ℤ
unfolding to_int64 to_uint64
output_sum sum [] = sum
output_sum sum (o ∷ os) = output_sum (to_int64 (to_uint64 sum + o.amount)) os

unfoldable pub tx_row : LedgerTx → Text → ℕ → BlockType → TxRow
unfolding set_era_specific_tx_fields output_sum to_int64
tx_row t block_hash block_index b = set_era_specific_tx_fields t b (record {
  hash = t.hash;
  block_hash = block_hash;
  block_index = to_uint32 block_index;
  size = to_uint32 t.cbor_length;
  fee = if_positive t.fee none;
  out_sum = if is_empty t.outputs then none else some (output_sum (pos 0) t.outputs);
  invalid_before = none;
  invalid_hereafter = none;
  valid_contract = none;
  total_collateral = none;
  treasury_donation = none;
})

-- the major protocol version of an era
unfoldable pub proto_major_of : BlockType → ℕ
proto_major_of byron_ebb = 1
proto_major_of byron_main = 1
proto_major_of shelley = 2
proto_major_of allegra = 3
proto_major_of mary = 4
proto_major_of alonzo = 6
proto_major_of babbage = 8
proto_major_of conway = 9
proto_major_of (other n) = 0

abbrev pub vrf_key_of : HeaderKind → Option Text
unfolding hex
vrf_key_of (keyed_header key (some vrf)) = some (hex vrf)
vrf_key_of _ = none

unfoldable pub set_era_specific_block_fields : LedgerBlock → BlockType → BlockRow → BlockRow
unfolding proto_major_of hex
set_era_specific_block_fields block b row = record row {
  proto_major = proto_major_of b;
  proto_minor = 0;
  vrf_key = if since shelley b then vrf_key_of block.header else row.vrf_key;
}

unfoldable pub is_zero_hash : Text → Bool
is_zero_hash [] = true
is_zero_hash (c ∷ cs) = (c == 0) && is_zero_hash cs

unfoldable pub block_row : LedgerBlock → BlockType → Text → BlockRow
unfolding set_era_specific_block_fields is_zero_hash get_epoch_for_slot get_block_time
    block_era_name
block_row block b slot_leader_hash = set_era_specific_block_fields block b (record {
  hash = block.hash;
  slot_no = block.slot_number;
  epoch_no = get_epoch_for_slot block.slot_number b;
  block_no = to_uint32 block.block_number;
  slot_leader_hash = slot_leader_hash;
  size = to_uint32 block.body_size;
  time = get_block_time block.slot_number b;
  tx_count = length block.transactions;
  proto_major = 0;
  proto_minor = 0;
  era = block_era_name b;
  previous_hash =
      if ltb 0 block.block_number
      then if is_zero_hash block.prev_hash then none else some block.prev_hash
      else none;
  vrf_key = none;
})
