-- ===== src/Block/Inputs.antt =====
-- The rows of the inputs, the collateral and the reference inputs and the required signers of a
-- transaction: `processTransactionInputs`, `processCollateralInputs`, `processReferenceInputs` and
-- `processRequiredSigners` of processors/block_processor.go. A table is a list of rows with the
-- columns of its key; a row whose key is there is passed over by the insert. An error of the
-- database is left to the caller.
use nectar.Prelude.{
  ℕ, suc, Bool, ◌&&◌, Option, none, some, List, [], ◌∷◌, ◌++◌, any, ◌==◌, if◌then◌else◌, Text, text,
  text_eq,
}
use nectar.Era.Slots.{BlockType, alonzo, babbage, to_uint32}
use nectar.Block.Ledger.{TxInput, LedgerTx}
use nectar.Block.Gates.{since, get_input_redeemer}

-- `TxIn`, `CollateralTxIn` and `ReferenceTxIn` have the key of the first two columns.
pub record TxInRow : Type 0 where
  pub tx_in_hash : Text
  pub tx_in_index : ℕ
  pub tx_out_hash : Text
  pub tx_out_index : ℕ
  pub redeemer_hash : Option Text

pub record SignerRow : Type 0 where
  pub tx_hash : Text
  pub signer_index : ℕ
  pub signer_hash : Text

-- Whether two rows have one key.
abbrev pub same_in : TxInRow → TxInRow → Bool
same_in r s = text_eq r.tx_in_hash s.tx_in_hash && (r.tx_in_index == s.tx_in_index)

abbrev pub same_signer : SignerRow → SignerRow → Bool
same_signer r s = text_eq r.tx_hash s.tx_hash && (r.signer_index == s.signer_index)

-- Nothing is done on a conflict of keys.
unfoldable pub insert_row {ℓ} : {A : Type ℓ} → (A → A → Bool) → A → List A → List A
insert_row same r table = if any (same r) table then table else table ++ (r ∷ [])

unfoldable pub insert_ignore {ℓ} : {A : Type ℓ} → (A → A → Bool) → List A → List A → List A
unfolding insert_row
insert_ignore same [] table = table
insert_ignore same (r ∷ rows) table = insert_ignore same rows (insert_row same r table)

module _ (redeemer_hash_of : Text → Text → ℕ → Text) (t : LedgerTx) (b : BlockType) where
  abbrev input_redeemer : ℕ → Option Text
  unfolding get_input_redeemer
  input_redeemer i = elim (get_input_redeemer t i b) [
    | none ↦ none
    | some r ↦ some (redeemer_hash_of t.hash (text "spend") (to_uint32 i))
  ]

  -- the batch of the inputs from an index on
  unfoldable pub input_rows : ℕ → List TxInput → List TxInRow
  unfolding get_input_redeemer
  input_rows i [] = []
  input_rows i (input ∷ inputs) =
      record {
        tx_in_hash = t.hash;
        tx_in_index = to_uint32 i;
        tx_out_hash = input.id;
        tx_out_index = input.index;
        redeemer_hash = input_redeemer i;
      }
      ∷ input_rows (suc i) inputs

  unfoldable pub process_transaction_inputs : List TxInRow → List TxInRow
  unfolding input_rows insert_ignore
  process_transaction_inputs table = insert_ignore same_in (input_rows 0 t.inputs) table

module _ (t : LedgerTx) (b : BlockType) where
  -- The collateral and the reference inputs get no index, which leaves it 0.
  unfoldable pub unindexed_rows : List TxInput → List TxInRow
  unindexed_rows [] = []
  unindexed_rows (input ∷ inputs) =
      record {
        tx_in_hash = t.hash;
        tx_in_index = 0;
        tx_out_hash = input.id;
        tx_out_index = input.index;
        redeemer_hash = none;
      }
      ∷ unindexed_rows inputs

  unfoldable pub process_collateral_inputs : List TxInRow → List TxInRow
  unfolding unindexed_rows insert_ignore
  process_collateral_inputs table =
      if since alonzo b then insert_ignore same_in (unindexed_rows t.collateral) table else table

  unfoldable pub process_reference_inputs : List TxInRow → List TxInRow
  unfolding unindexed_rows insert_ignore
  process_reference_inputs table =
      if since babbage b
      then insert_ignore same_in (unindexed_rows t.reference_inputs) table
      else table

  unfoldable pub signer_rows : ℕ → List Text → List SignerRow
  signer_rows i [] = []
  signer_rows i (signer ∷ signers) =
      record { tx_hash = t.hash; signer_index = to_uint32 i; signer_hash = signer }
      ∷ signer_rows (suc i) signers

  unfoldable pub process_required_signers : List SignerRow → List SignerRow
  unfolding signer_rows insert_ignore
  process_required_signers table =
      if since alonzo b
      then insert_ignore same_signer (signer_rows 0 t.required_signers) table
      else table
