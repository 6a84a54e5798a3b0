-- ===== src/Block/Outputs.antt =====
-- The rows that `processTransactionOutputs` and `processCollateralReturn` of
-- processors/block_processor.go make of outputs, without the stake addresses that they register.
use nectar.Prelude.{ℕ, suc, Bool, false, Option, none, some, List, [], ◌∷◌, Text}
use nectar.Era.Slots.{BlockType, to_uint32}
use nectar.Block.Ledger.{TxOutput}
use nectar.Block.Gates.{get_output_inline_datum, get_output_reference_script}
use nectar.Block.Address.{
  address_text, collateral_address_text, extract_payment_credential, stake_credential,
}

pub record TxOutRow : Type 0 where
  pub tx_hash : Text
  pub index : ℕ
  pub address : Text
  pub address_raw : Text
  pub address_has_script : Bool
  pub value : ℕ
  pub payment_cred : Option Text
  pub stake_address_hash : Option Text
  pub data_hash : Option Text
  pub inline_datum_hash : Option Text
  pub reference_script_hash : Option Text

-- empty bytes on an error
abbrev raw_bytes : Option Text → Text
raw_bytes none = []
raw_bytes (some bytes) = bytes

module _ (sha256 blake2b256 : Text → Text) (tx_hash : Text) (b : BlockType) where
  -- The row of an output with its text.
  unfoldable pub out_row : ℕ → TxOutput → Text → TxOutRow
  unfolding extract_payment_credential stake_credential get_output_inline_datum
      get_output_reference_script
  out_row i o address = record {
    tx_hash = tx_hash;
    index = to_uint32 i;
    address = address;
    address_raw = raw_bytes o.address.bytes;
    address_has_script = false;
    value = o.amount;
    payment_cred = extract_payment_credential o.address;
    stake_address_hash = stake_credential o.address;
    data_hash = o.datum_hash;
    inline_datum_hash = get_output_inline_datum blake2b256 o b;
    reference_script_hash = get_output_reference_script o b;
  }

  -- The batch of the outputs from an index on; none after a panic.
  unfoldable pub out_rows : ℕ → List TxOutput → Option (List TxOutRow)
  unfolding out_row address_text
  out_rows i [] = some []
  out_rows i (o ∷ os) = elim (address_text sha256 i o.address) [
    | none ↦ none
    | some address ↦ elim (out_rows (suc i) os) [
      | none ↦ none
      | some rows ↦ some (out_row i o address ∷ rows)
    ]
  ]

  -- The collateral return has index 0.
  unfoldable pub collateral_out_row : TxOutput → Option TxOutRow
  unfolding out_row collateral_address_text
  collateral_out_row o = elim (collateral_address_text sha256 o.address) [
    | none ↦ none
    | some address ↦ some (out_row 0 o address)
  ]
