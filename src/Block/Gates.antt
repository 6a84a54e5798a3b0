-- ===== src/Block/Gates.antt =====
-- Which parts of a transaction an era has: `getTransactionCertificates`,
-- `getTransactionWithdrawals`, `getTransactionMint`, `hasGovernanceData`, `getInputRedeemer`,
-- `getOutputInlineDatum` and `getOutputReferenceScript` of processors/block_processor.go.
use nectar.Prelude.{
  ℕ, Bool, true, false, ◌&&◌, Option, none, some, List, [], ◌∷◌, ◌++◌, ltb, leb, if◌then◌else◌,
  is_empty, any, Text, text, text_discrete,
}
use nectar.Prelude.Int.{ℤ}
use nectar.Prelude.Dict.{insert}
use nectar.Prelude.Hex.{hex}
use nectar.Era.Slots.{BlockType, shelley, mary, babbage, conway, tag}
use nectar.Block.Ledger.{Assets, TxOutput, Certificate, LedgerTx}

-- `blockType >= era`
abbrev pub since : BlockType → BlockType → Bool
since era b = leb (tag era) (tag b)

unfoldable pub get_transaction_certificates : LedgerTx → BlockType → List Certificate
get_transaction_certificates t b = if since shelley b then t.certificates else []

-- A map from the address: the amount of the last withdrawal with an address stays.
unfoldable pub withdrawal_map : List (Text × ℕ) → List (Text × ℕ) → List (Text × ℕ)
unfolding insert text_discrete
withdrawal_map [] m = m
withdrawal_map ((address, amount) ∷ rest) m =
    withdrawal_map rest (insert text_discrete address amount m)

unfoldable pub get_transaction_withdrawals : LedgerTx → BlockType → List (Text × ℕ)
unfolding withdrawal_map
get_transaction_withdrawals t b = if since shelley b then withdrawal_map t.withdrawals [] else []

-- `policyId.assetName`
unfoldable pub mint_key : Text → Text → Text
unfolding hex
mint_key policy name = hex policy ++ (text "." ++ hex name)

unfoldable pub mint_assets : Text → List (Text × ℤ) → List (Text × ℤ) → List (Text × ℤ)
unfolding insert text_discrete mint_key
mint_assets policy [] m = m
mint_assets policy ((name, amount) ∷ rest) m =
    mint_assets policy rest (insert text_discrete (mint_key policy name) amount m)

unfoldable pub mint_map : Assets → List (Text × ℤ) → List (Text × ℤ)
unfolding mint_assets
mint_map [] m = m
mint_map ((policy, names) ∷ rest) m = mint_map rest (mint_assets policy names m)

abbrev minted : Option Assets → List (Text × ℤ)
unfolding mint_map
minted none = []
minted (some assets) = mint_map assets []

-- the pairs in the order of one visit of the ledger's maps, which may be any
unfoldable pub get_transaction_mint : LedgerTx → BlockType → List (Text × ℤ)
unfolding mint_map
get_transaction_mint t b = if since mary b then minted t.asset_mint else []

-- the certificate types that count as Conway's
abbrev pub is_conway_certificate : Certificate → Bool
is_conway_certificate c = leb 8 c.cert_type && leb c.cert_type 17

unfoldable pub has_governance_data : LedgerTx → BlockType → Bool
has_governance_data t b =
    if since conway b
    then (if t.votes
        then true
        else if ltb 0 t.proposals
        then true
        else any is_conway_certificate t.certificates)
    else false

-- The redeemers cannot be read from the witnesses yet.
unfoldable pub get_input_redeemer : LedgerTx → ℕ → BlockType → Option Text
get_input_redeemer t index b = none

abbrev datum_bytes : Option Text → Text
datum_bytes none = []
datum_bytes (some d) = d

-- `blake2b256` is the library's hash.
unfoldable pub get_output_inline_datum : (Text → Text) → TxOutput → BlockType → Option Text
get_output_inline_datum blake2b256 o b =
    if since babbage b
    then (if is_empty (datum_bytes o.datum) then none else some (blake2b256 (datum_bytes o.datum)))
    else none

-- The reference script cannot be read from the output yet.
unfoldable pub get_output_reference_script : TxOutput → BlockType → Option Text
get_output_reference_script o b = none
