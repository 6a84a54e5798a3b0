-- ===== src/Block/Ledger.antt =====
-- What the ledger's library returns for blocks and transactions, as values: each field is the
-- result of a method that processors/block_processor.go calls.
use nectar.Prelude.{ℕ, Bool, Option, List, Text}
use nectar.Prelude.Int.{ℤ}

-- `String` may panic, and `Bytes` may return an error.
pub record Address : Type 0 where
  pub string_form : Option Text
  pub bytes : Option Text

-- the policies, each with its assets and their amounts
abbrev pub Assets : Type 0
Assets = List (Text × List (Text × ℤ))

pub record TxOutput : Type 0 where
  pub address : Address
  pub amount : ℕ
  pub datum_hash : Option Text
  -- the CBOR of the datum
  pub datum : Option Text
  pub assets : Option Assets

pub record TxInput : Type 0 where
  pub id : Text
  pub index : ℕ

pub record Certificate : Type 0 where
  pub cert_type : ℕ
  pub cbor : Text

pub record LedgerTx : Type 0 where
  pub hash : Text
  pub cbor_length : ℕ
  pub fee : ℕ
  pub inputs : List TxInput
  pub outputs : List TxOutput
  -- whether there is metadata with a value
  pub has_metadata : Bool
  pub withdrawals : List (Text × ℕ)
  pub asset_mint : Option Assets
  pub certificates : List Certificate
  -- whether there are voting procedures
  pub votes : Bool
  pub proposals : ℕ
  pub validity_interval_start : ℕ
  pub ttl : ℕ
  pub is_valid : Bool
  pub total_collateral : ℕ
  pub donation : ℕ
  pub collateral : List TxInput
  pub collateral_return : Option TxOutput
  pub reference_inputs : List TxInput
  pub required_signers : List Text

-- the type of a header, as the two switches on it see it
pub data HeaderKind : Type 0 where
  -- a Shelley or a Babbage header: the issuer's key and the VRF key
  keyed_header : Text → Option Text → HeaderKind
  other_header : HeaderKind

pub record LedgerBlock : Type 0 where
  pub hash : Text
  pub prev_hash : Text
  pub slot_number : ℕ
  pub block_number : ℕ
  pub body_size : ℕ
  pub header : HeaderKind
  pub transactions : List LedgerTx
