-- ===== src/Block/Address.antt =====
-- The text of an address, and the credentials in its bytes: `processTransactionOutputs`,
-- `processCollateralReturn`, `extractPaymentCredential` and `extractStakeAddress` of
-- processors/block_processor.go. SHA-256 is a parameter. No text stands for a panic: the warning on a
-- long text calls `String` again, where nothing recovers.
use nectar.Prelude.{
  ℕ, ◌/◌, ◌%◌, Bool, false, true, Option, none, some, [], ◌∷◌, ◌++◌, ltb, leb, if◌then◌else◌,
  length, take, drop, Text, text,
}
use nectar.Prelude.Hex.{hex, digits}
use nectar.Block.Ledger.{Address}

-- the text, or what stands for it where `String` panics
abbrev pub fallback_text : Option Text → Text → Text
unfolding hex
fallback_text none otherwise = otherwise
fallback_text (some bytes) otherwise = text "byron_raw_" ++ hex bytes

abbrev pub safe_text : Address → Text → Text
unfolding hex
safe_text a otherwise = elim a.string_form [ none ↦ fallback_text a.bytes otherwise | some s ↦ s ]

-- `len(address.String())` of the warning, which may panic
abbrev pub after_warning : Address → Text → Option Text
after_warning a s = elim a.string_form [ none ↦ none | some t ↦ some s ]

abbrev pub max_address_length : ℕ
max_address_length = 2048

-- what stands for a text that is too long
unfoldable pub long_text : (Text → Text) → ℕ → Option Text → Text → Text
unfolding hex digits
long_text sha256 i none s = text "byron_toolong_" ++ digits (length s) ++ text "_" ++ digits i
long_text sha256 i (some bytes) s =
    let raw = text "byron_long_" ++ hex bytes in
    if ltb max_address_length (length raw) then text "byron_hash_" ++ hex (sha256 bytes) else raw

unfoldable pub address_text : (Text → Text) → ℕ → Address → Option Text
unfolding hex digits long_text
address_text sha256 i a =
    let s = safe_text a (text "invalid_address_" ++ digits i) in
    if ltb max_address_length (length s)
    then after_warning a (long_text sha256 i a.bytes s)
    else some s

abbrev pub max_collateral_address_length : ℕ
max_collateral_address_length = 100

unfoldable pub long_collateral_text : (Text → Text) → Option Text → Text → Text
unfolding hex digits
long_collateral_text sha256 none s = text "byron_long_" ++ digits (length s)
long_collateral_text sha256 (some bytes) s = text "byron_h_" ++ hex (take 8 (sha256 bytes))

unfoldable pub collateral_address_text : (Text → Text) → Address → Option Text
unfolding hex digits long_collateral_text
collateral_address_text sha256 a =
    let s = safe_text a (text "invalid_collateral_address") in
    if ltb max_collateral_address_length (length s)
    then after_warning a (long_collateral_text sha256 a.bytes s)
    else some s

-- `addrBytes[1:29]`
unfoldable pub extract_payment_credential : Address → Option Text
extract_payment_credential a = elim a.bytes [
  | none ↦ none
  | some bytes ↦ if ltb (length bytes) 29 then none else some (take 28 (drop 1 bytes))
]

-- the type of an address, in the upper half of the first byte
abbrev pub address_type : Text → ℕ
address_type [] = 0
address_type (c ∷ cs) = c / 16 % 16

unfoldable pub extract_stake_address : Address → Bool
extract_stake_address a = elim a.bytes [
  | none ↦ false
  | some bytes ↦
      if ltb (length bytes) 57 then false else if ltb 7 (address_type bytes) then false else true
]

-- `addrBytes[29:57]`, where the address has a stake credential
unfoldable pub stake_credential : Address → Option Text
unfolding extract_stake_address
stake_credential a = elim a.bytes [
  | none ↦ none
  | some bytes ↦
      if extract_stake_address a
      then if leb 57 (length bytes) then some (take 28 (drop 29 bytes)) else none
      else none
]
