-- ===== src/Stake/Withdrawals.antt =====
-- `ProcessWithdrawals`, `processWithdrawal` and `ValidateWithdrawal` of
-- processors/withdrawal_processor.go. The parser of addresses is a parameter: no address, or the
-- stake key hash. The state is the processor's own, whose pool cache
-- is of no use here.
use nectar.Prelude.{
  ℕ, ◌++◌, Option, none, some, List, [], ◌∷◌, ltb, ◌==◌, if◌then◌else◌, not, length, Text, text,
  contains,
}
use nectar.Prelude.Int.{to_int64}
use nectar.Prelude.Hex.{digits}
use nectar.Block.Rows.{is_zero_hash}
use nectar.Stake.Certificates.{withdrawal_row, StakeDb, StakeState, warn}
use nectar.Stake.Pools.{ensure_stake_address}

module _ {World : Type 0} (parse : Text → Option Text) (db : StakeDb World) where
  -- The insert; a withdrawal that is there already is no error.
  unfoldable pub create_withdrawal :
      Text → Text → ℕ → StakeState World → Option Text × StakeState World
  unfolding to_int64 contains
  create_withdrawal tx_hash address amount s =
      let (err, w) = db.insert (withdrawal_row tx_hash address (to_int64 amount)) s.world in
      let s1 = record s { world = w } in
      elim err [
        | none ↦ (none, s1)
        | some e ↦
            if contains (text "Duplicate entry") e
            then (none, s1)
            else (some (text "failed to create withdrawal record: " ++ e), s1)
      ]

  -- The stake address is looked for in the database, and made sure of again where it is missing.
  unfoldable pub verify_stake_address :
      Text → Text → StakeState World → Option Text × StakeState World
  unfolding ensure_stake_address
  verify_stake_address key_hash address s =
      let warned =
        warn (text "Attempting to re-create stake address")
          (warn (text "STAKE ADDRESS VERIFICATION FAILED") s) in
      if db.has_stake address s.world
      then (some address, s)
      else ensure_stake_address db key_hash warned

  unfoldable pub process_withdrawal :
      Text → Text → ℕ → StakeState World → Option Text × StakeState World
  unfolding is_zero_hash ensure_stake_address verify_stake_address create_withdrawal digits
  process_withdrawal tx_hash account amount s = elim (parse account) [
    | none ↦ (some (text "failed to parse reward account " ++ account), s)
    | some key_hash ↦
        let (ensured, s1) = ensure_stake_address db key_hash s in
        if is_zero_hash key_hash
        then (
          some (text "reward address " ++ (account ++ text " does not contain stake key hash")),
          s,
        )
        else elim ensured [
          | none ↦ (some (text "failed to get stake address"), s1)
          | some address ↦
              let (verified, s2) = verify_stake_address key_hash address s1 in
              if not (length address == 28)
              then (
                some (text "invalid stake address hash length: got " ++ digits (length address)),
                s1,
              )
              else elim verified [
                | none ↦ (some (text "failed to re-create stake address"), s2)
                | some h ↦ create_withdrawal tx_hash h amount s2
              ]
        ]
  ]

  abbrev warned_withdrawal : Option Text × StakeState World → StakeState World
  warned_withdrawal (none, s) = s
  warned_withdrawal (some e, s) = warn (text "Withdrawal processing error: " ++ e) s

  -- An error is a warning; the withdrawals go on. The order is the map's.
  unfoldable pub process_withdrawals :
      Text → List (Text × ℕ) → StakeState World → Option Text × StakeState World
  unfolding process_withdrawal
  process_withdrawals tx_hash [] s = (none, s)
  process_withdrawals tx_hash ((account, amount) ∷ rest) s =
      process_withdrawals tx_hash rest
        (warned_withdrawal (process_withdrawal tx_hash account amount s))

-- in lovelace
abbrev max_ada_supply : ℕ
max_ada_supply = 45000000000000000

unfoldable pub validate_withdrawal : (Text → Option Text) → Text → ℕ → Option Text
unfolding digits
validate_withdrawal parse account amount = elim (parse account) [
  | none ↦ some (text "invalid reward account format")
  | some key_hash ↦
      if amount == 0
      then some (text "withdrawal amount cannot be zero")
      else if ltb max_ada_supply amount
      then some (text "withdrawal amount exceeds maximum possible: " ++ digits amount)
      else none
]
