-- ===== src/Stake/Bulk.antt =====
-- The batches of withdrawals: `BatchProcessWithdrawals` and `ProcessBulkWithdrawals` of
-- processors/withdrawal_processor.go, and `ProcessWithdrawalsFromTransaction`. Nothing calls them.
use nectar.Prelude.{
  Option-cases, Bool-cases, inl, inr, ℕ, ◌≡◌, refl, ◌==◌, ◌++◌, true, not, Option, none, some, List,
  [], ◌∷◌, if◌then◌else◌, length, Text, text, text_eq, any,
}
use nectar.Prelude.Hex.{digits}
use nectar.Era.Slots.{BlockType, shelley}
use nectar.Block.Gates.{since}
use nectar.Block.Rows.{is_zero_hash}
use nectar.Stake.Certificates.{StakeDb, StakeState, warn}
use nectar.Stake.Pools.{ensure_stake_address}
use nectar.Stake.Withdrawals.{
  create_withdrawal, verify_stake_address, process_withdrawal, process_withdrawals,
}

pub record WithdrawalItem : Type 0 where
  pub tx_hash : Text
  pub reward_account : Text
  pub amount : ℕ

-- the accounts of a batch, each once
unfoldable unique_accounts : List WithdrawalItem → List Text
unique_accounts [] = []
unique_accounts (item ∷ items) =
    let accounts = unique_accounts items in
    if any (text_eq item.reward_account) accounts then accounts else item.reward_account ∷ accounts

module _ {World : Type 0} (parse : Text → Option Text) (db : StakeDb World) where
  abbrev warned_as : Text → Option Text × StakeState World → StakeState World
  warned_as message (none, s) = s
  warned_as message (some e, s) = warn (message ++ e) s

  -- One item of `ProcessBulkWithdrawals`: neither the length of the address nor whether the database
  -- has it is looked at.
  unfoldable pub bulk_withdrawal : WithdrawalItem → StakeState World → StakeState World
  unfolding is_zero_hash ensure_stake_address create_withdrawal
  bulk_withdrawal item s = elim (parse item.reward_account) [
    | none ↦ warn (text "failed to parse reward account") s
    | some key_hash ↦
        let (ensured, s1) = ensure_stake_address db key_hash s in
        if is_zero_hash key_hash
        then warn (text "reward address does not contain stake key hash") s
        else elim ensured [
          | none ↦ warn (text "failed to get stake address") s1
          | some address ↦
              warned_as [] (create_withdrawal parse db item.tx_hash address item.amount s1)
        ]
  ]

  unfoldable process_bulk_withdrawals : List WithdrawalItem → StakeState World → StakeState World
  unfolding bulk_withdrawal
  process_bulk_withdrawals [] s = s
  process_bulk_withdrawals (item ∷ items) s =
      process_bulk_withdrawals items (bulk_withdrawal item s)

  -- The stake key is not looked at. An error goes to the log alone.
  unfoldable preload_stake_address : Text → StakeState World → StakeState World
  unfolding ensure_stake_address
  preload_stake_address account s = elim (parse account) [
    | none ↦ s
    | some key_hash ↦ (ensure_stake_address db key_hash s).1
  ]

  unfoldable preload_stake_addresses : List Text → StakeState World → StakeState World
  unfolding preload_stake_address
  preload_stake_addresses [] s = s
  preload_stake_addresses (account ∷ accounts) s =
      preload_stake_addresses accounts (preload_stake_address account s)

  unfoldable batch_withdrawals : List WithdrawalItem → StakeState World → StakeState World
  unfolding process_withdrawal
  batch_withdrawals [] s = s
  batch_withdrawals (item ∷ items) s = batch_withdrawals items (
      warned_as (text "failed to process withdrawal: ")
        (process_withdrawal parse db item.tx_hash item.reward_account item.amount s))

  unfoldable batch_process_withdrawals : List WithdrawalItem → StakeState World → StakeState World
  unfolding unique_accounts preload_stake_addresses batch_withdrawals
  batch_process_withdrawals items s =
      batch_withdrawals items (preload_stake_addresses (unique_accounts items) s)

  -- `ProcessWithdrawalsFromTransaction`, with the texts of the addresses that are not nil
  unfoldable process_withdrawals_from_transaction :
      Text → List (Text × ℕ) → BlockType → StakeState World → Option Text × StakeState World
  unfolding process_withdrawals
  process_withdrawals_from_transaction tx_hash withdrawals b s =
      if since shelley b then process_withdrawals parse db tx_hash withdrawals s else (none, s)

  -- What a state is without its warnings.
  abbrev pub Alike : StakeState World → StakeState World → Type 0
  Alike s r = (s.world ≡ r.world) × (s.stake_cache ≡ r.stake_cache)

  warned-Alike :
      (message : Text) (r : Option Text × StakeState World) → Alike (warned_as message r) r.1
  warned-Alike message (none, s) = (refl, refl)
  warned-Alike message (some e, s) = (refl, refl)

  verified :
      (key address : Text) (s : StakeState World)
      → db.has_stake address s.world ≡ true
      → verify_stake_address parse db key address s ≡ (some address, s)
  unfolding verify_stake_address
  verified key address s h = rw h refl

  -- the item after its stake address is made sure of
  ensured-Alike :
      (item : WithdrawalItem) (key address : Text) (s1 : StakeState World)
      → (length address == 28) ≡ true
      → db.has_stake address s1.world ≡ true
      → let (verified, s2) = verify_stake_address parse db key address s1 in
        let r : Option Text × StakeState World =
          if not (length address == 28)
          then (
            some (text "invalid stake address hash length: got " ++ digits (length address)),
            s1,
          )
          else elim verified [
            | none ↦ (some (text "failed to re-create stake address"), s2)
            | some h ↦ create_withdrawal parse db item.tx_hash h item.amount s2
          ] in
        Alike (warned_as [] (create_withdrawal parse db item.tx_hash address item.amount s1)) r.1
  ensured-Alike item key address s1 l h =
      let v = verified key address s1 h in
      rw (l, v)
        (rw v (warned-Alike [] (create_withdrawal parse db item.tx_hash address item.amount s1)))

  -- For a withdrawal whose stake address, once it is made sure of, is in the database and has 28
  -- bytes, `ProcessBulkWithdrawals` and `processWithdrawal` leave the same database and the same cache.
  pub bulk_withdrawal-process_withdrawal :
      (item : WithdrawalItem) (s : StakeState World)
      → ((key address : Text)
          → parse item.reward_account ≡ some key
          → (ensure_stake_address db key s).0 ≡ some address
          → ((length address == 28) ≡ true)
            × (db.has_stake address (ensure_stake_address db key s).1.world ≡ true))
      → Alike
          (bulk_withdrawal item s)
          (process_withdrawal parse db item.tx_hash item.reward_account item.amount s).1
  unfolding bulk_withdrawal process_withdrawal
  bulk_withdrawal-process_withdrawal item s known =
      elim (Option-cases (parse item.reward_account)) [
        | inl e ↦ rw (e, bulk_withdrawal, process_withdrawal) (refl, refl)
        | inr (key, e) ↦
            rw (e, bulk_withdrawal, process_withdrawal)
              (elim (Bool-cases (is_zero_hash key)) [
                | inl z ↦ rw z (refl, refl)
                | inr n ↦ rw n (elim (Option-cases (ensure_stake_address db key s).0) [
                  | inl m ↦ rw m (refl, refl)
                  | inr (address, m) ↦
                      let (l, h) = known key address e m in
                      rw m (ensured-Alike item key address (ensure_stake_address db key s).1 l h)
                ])
              ])
      ]
