-- ===== src/Block/Keyed.antt =====
-- What the inserts of processors/block_processor.go keep of a transaction's inputs.
use nectar.Prelude.{ℕ, ◌<◌, ◌≡◌, Bool, true, false, ◌&&◌, none, List, ◌==◌, Text, text_eq, All}
use nectar.Era.Slots.{BlockType, to_uint32}
use nectar.Block.Ledger.{TxInput, LedgerTx}
use nectar.Block.Inputs.{TxInRow}

module _ (t : LedgerTx) (b : BlockType) where
  -- whether a row has the key of an input without an index
  abbrev pub unindexed : TxInRow → Bool
  unindexed s = text_eq t.hash s.tx_in_hash && (0 == s.tx_in_index)

  -- the row of an input without an index
  abbrev unindexed_row : TxInput → TxInRow
  unindexed_row input = record {
    tx_in_hash = t.hash;
    tx_in_index = 0;
    tx_out_hash = input.id;
    tx_out_index = input.index;
    redeemer_hash = none;
  }

module _ (redeemer_hash_of : Text → Text → ℕ → Text) (t : LedgerTx) (b : BlockType) where
  -- The rows of the transaction in the table have smaller indices.
  Below : ℕ → TxInRow → Type 0
  Below i s = text_eq t.hash s.tx_in_hash ≡ true → s.tx_in_index < i

  abbrev input_row : ℕ → TxInput → TxInRow
  input_row i input = record {
    tx_in_hash = t.hash;
    tx_in_index = to_uint32 i;
    tx_out_hash = input.id;
    tx_out_index = input.index;
    redeemer_hash = none;
  }

  -- no row of the transaction is in the table
  abbrev pub IsNew : List TxInRow → Type 0
  IsNew table = All (λ s. text_eq t.hash s.tx_in_hash ≡ false) table
