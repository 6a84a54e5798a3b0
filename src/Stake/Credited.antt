-- ===== src/Stake/Credited.antt =====
-- The rows of processors/withdrawal_processor.go, and what `ValidateWithdrawal` ensures of them.
use nectar.Prelude.{
  refl, not, length, inl, inr, ◌⊎◌, true, contains, some_not_none, if-cases, option-cases_eq, some,
  false, ◌++◌, text, ◌==◌, if◌then◌else◌, ℕ, ◌<◌, ◌≡◌, Option, none, Text, arith,
}
use nectar.Prelude.Hex.{digits}
use nectar.Block.Rows.{is_zero_hash}
use nectar.Stake.Certificates.{withdrawal_row, StakeDb, StakeState}
use nectar.Stake.Pools.{ensure_stake_address}
use nectar.Prelude.Int.{pos, to_int64}
use nectar.Stake.Withdrawals.{
  validate_withdrawal, create_withdrawal, verify_stake_address, process_withdrawal,
}

-- An amount that `ValidateWithdrawal` admits is not zero, and the row, whose amount is signed, has
-- the same one.
validate_withdrawal-exact :
    (parse : Text → Option Text) (account : Text) (amount : ℕ)
    → validate_withdrawal parse account amount ≡ none
    → (0 < amount) × (to_int64 amount ≡ pos amount)
unfolding validate_withdrawal to_int64
validate_withdrawal-exact parse account amount h = ground (arith, h)

module _ {World : Type 0} (parse : Text → Option Text) (db : StakeDb World) (tx_hash account : Text)
    (amount : ℕ) where
  -- The insert of the withdrawal of the address `h` in the state `s2` was made, and its error was
  -- none or that the row is there already.
  abbrev pub Inserted : Text → StakeState World → World → Type 0
  Inserted h s2 w =
      let (err, after) = db.insert (withdrawal_row tx_hash h (to_int64 amount)) s2.world in
      ((err ≡ none) ⊎ ((e : Text) × (err ≡ some e) × (contains (text "Duplicate entry") e ≡ true)))
      × (w ≡ after)

  -- The account has a stake key that is not zero. The address that is made sure of for that key, in
  -- the state before, has 28 bytes; the address that the verification gives for it, in the state
  -- then, is the one of the insert, and the database is as that leaves it.
  abbrev pub Credited : StakeState World → World → Type 0
  Credited s w =
      (key : Text) × (parse account ≡ some key)
      × (is_zero_hash key ≡ false)
      × (let (ensured, s1) = ensure_stake_address db key s in
          (address : Text) × (ensured ≡ some address)
          × (length address ≡ 28)
          × (let (verified, s2) = verify_stake_address parse db key address s1 in
              (h : Text) × (verified ≡ some h) × Inserted h s2 w))

  Ends : StakeState World → Option Text × StakeState World → Type 0
  Ends s r = r.0 ≡ none → Credited s r.1.world

  create_withdrawal-Inserted :
      (h : Text) (s2 : StakeState World)
      → (create_withdrawal parse db tx_hash h amount s2).0 ≡ none
      → Inserted h s2 (create_withdrawal parse db tx_hash h amount s2).1.world
  unfolding create_withdrawal
  create_withdrawal-Inserted h s2 =
      let (err, after) = db.insert (withdrawal_row tx_hash h (to_int64 amount)) s2.world in
      option-cases_eq Made err _ _ (λ e _. (inl e, refl))
        (λ e i.
          if-cases Made (contains (text "Duplicate entry") e) _ _ (λ d _. (inr (e, i, d), refl))
            (λ _ n. absurd (some_not_none n)))
    where
      Made : Option Text × StakeState World → Type 0
      Made r = r.0 ≡ none → Inserted h s2 r.1.world

  keyed-Ends :
      (key : Text) (s : StakeState World)
      → parse account ≡ some key
      → is_zero_hash key ≡ false
      → let (ensured, s1) = ensure_stake_address db key s in
        Ends s (elim ensured [
          | none ↦ (some (text "failed to get stake address"), s1)
          | some address ↦
              let (verified, s2) = verify_stake_address parse db key address s1 in
              if not (length address == 28)
              then (
                some (text "invalid stake address hash length: got " ++ digits (length address)),
                s1,
              )
              else elim verified [
                | none ↦ (some (text "failed to re-create stake address"), s2)
                | some h ↦ create_withdrawal parse db tx_hash h amount s2
              ]
        ])
  unfolding Ends
  keyed-Ends key s parsed nonzero =
      let (ensured, s1) = ensure_stake_address db key s in
      option-cases_eq (Ends s) ensured _ _ (λ _ n. absurd (some_not_none n))
        (λ address e.
          let (verified, s2) = verify_stake_address parse db key address s1 in
          if-cases (Ends s) (not (length address == 28)) _ _ (λ _ n. absurd (some_not_none n))
            (λ l.
              option-cases_eq (Ends s) verified _ _ (λ _ n. absurd (some_not_none n))
                (λ h v n. (
                  key,
                  parsed,
                  nonzero,
                  (address, e, ground (arith, l), (h, v, create_withdrawal-Inserted h s2 n)),
                ))))

  -- Where the processing of a withdrawal gives no error, its account has a stake key that is not
  -- zero, the address that the cache or the database gives for that key has 28 bytes, and the
  -- database is as the insert leaves it, of a row with the transaction, the amount and the address
  -- that the verification of this address gives. That insert was made in the state which the
  -- verification leaves, without an error but that the row is there.
  pub process_withdrawal-Credited :
      (s : StakeState World)
      → (process_withdrawal parse db tx_hash account amount s).0 ≡ none
      → Credited s (process_withdrawal parse db tx_hash account amount s).1.world
  unfolding process_withdrawal Ends
  process_withdrawal-Credited s =
      option-cases_eq (Ends s) (parse account) _ _ (λ _ n. absurd (some_not_none n))
        (λ key e.
          if-cases (Ends s) (is_zero_hash key) _ _ (λ _ n. absurd (some_not_none n))
            (λ z. keyed-Ends key s e z))
