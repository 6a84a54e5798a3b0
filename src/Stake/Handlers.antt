-- ===== src/Stake/Handlers.antt =====
-- `ProcessCertificates`, `processCertificate` and its handlers, processors/certificate_processor.go.
use nectar.Prelude.{
  ℕ, suc, ◌+◌, ◌-◌, ◌++◌, Option, none, some, List, [], ◌∷◌, if◌then◌else◌, length, drop, Text,
  text, contains,
}
use nectar.Prelude.Int.{to_int64}
use nectar.Prelude.Hex.{digits}
use nectar.Retry.Classify.{is_retryable_error}
use nectar.Era.Slots.{to_uint32, calculate_epoch_from_transaction}
use nectar.Stake.Certificates.{
  PoolRegistration, Cert, stake_registration, stake_deregistration, stake_delegation,
  pool_registration, pool_retirement, registration, deregistration, StakeRow, registration_row,
  deregistration_row, delegation_row, pool_update_row, pool_retire_row, StakeDb, StakeState, warn,
}
use nectar.Stake.Pools.{
  insert_logged, ensure_pool_hash, ensure_stake_address, process_pool_metadata, process_pool_relays,
  process_pool_owners,
}

module _ {World : Type 0} (db : StakeDb World) where
  -- A row for a stake address that is made sure of; an error is a warning.
  unfoldable pub register_address :
      StakeRow → Text → StakeState World → Option Text × StakeState World
  unfolding ensure_stake_address insert_logged
  register_address row address s =
      let (ensured, s1) = ensure_stake_address db address s in
      elim ensured [
        | none ↦ (none, warn (text "Failed to ensure stake address") s1)
        | some h ↦ (none, insert_logged db row s1)
      ]

  -- `processStakeRegistration`: an error of the insert is a warning as well.
  unfoldable pub process_stake_registration :
      Text → ℕ → Text → StakeState World → Option Text × StakeState World
  unfolding ensure_stake_address contains
  process_stake_registration tx_hash cert_index address s =
      let (ensured, s1) = ensure_stake_address db address s in
      let (err, w) = db.insert (registration_row tx_hash (to_uint32 cert_index) address) s1.world in
      let s2 = record s1 { world = w } in
      elim ensured [
        | none ↦ (none, warn (text "Failed to ensure stake address") s1)
        | some h ↦ elim err [
          | none ↦ (none, s2)
          | some e ↦
              if contains (text "Duplicate entry") e
              then (none, s2)
              else (none, warn (text "Failed to create stake registration: " ++ e) s2)
        ]
      ]

  -- the slot of the transaction's block, 0 where the query fails
  abbrev slot_or_zero : Option ℕ → ℕ
  slot_or_zero none = 0
  slot_or_zero (some slot) = slot

  unfoldable active_epoch : Text → StakeState World → ℕ
  unfolding calculate_epoch_from_transaction
  active_epoch tx_hash s =
      to_uint32 (calculate_epoch_from_transaction (db.slot_of tx_hash s.world) + 2)

  unfoldable pub process_stake_delegation :
      Text → ℕ → Option Text → Text → StakeState World → Option Text × StakeState World
  unfolding ensure_stake_address ensure_pool_hash insert_logged active_epoch
  process_stake_delegation tx_hash cert_index none pool s = (none, s)
  process_stake_delegation tx_hash cert_index (some address) pool s =
      let (ensured, s1) = ensure_stake_address db address s in
      let (err, s2) = ensure_pool_hash db pool s1 in
      elim ensured [
        | none ↦ (none, warn (text "Failed to ensure stake address") s1)
        | some h ↦ elim err [
          | some e ↦ (none, s2)
          | none ↦ (
            none,
            insert_logged db
                (delegation_row tx_hash (to_uint32 cert_index) address pool
                  (active_epoch tx_hash s2) (slot_or_zero (db.slot_of tx_hash s2.world)))
                s2,
          )
        ]
      ]

  -- the row of a pool registration, whose reward account has at least 28 bytes
  unfoldable pub pool_update : Text → ℕ → PoolRegistration → StakeState World → StakeRow
  unfolding active_epoch to_int64
  pool_update tx_hash cert_index cert s = pool_update_row (record {
    tx_hash = tx_hash;
    cert_index = to_uint32 cert_index;
    pool_hash = cert.operator;
    pledge = to_int64 cert.pledge;
    reward_addr_hash = drop (length cert.reward_account - 28) cert.reward_account;
    vrf_key_hash = cert.vrf_key_hash;
    margin = cert.margin;
    fixed_cost = to_int64 cert.cost;
    active_epoch_no = active_epoch tx_hash s;
  })

  unfoldable pub process_pool_registration :
      Text → ℕ → PoolRegistration → StakeState World → Option Text × StakeState World
  unfolding ensure_pool_hash pool_update process_pool_metadata process_pool_relays
      process_pool_owners
  process_pool_registration tx_hash cert_index cert s =
      let (err, s1) = ensure_pool_hash db cert.operator s in
      let (failure, w) = db.insert (pool_update tx_hash cert_index cert s1) s1.world in
      let s2 = record s1 { world = w } in
      let index = to_uint32 cert_index in
      elim err [
        | some e ↦ (none, s1)
        | none ↦ elim failure [
          | some e ↦ (none, s2)
          | none ↦ (
            none,
            process_pool_owners db tx_hash index cert.owners (
                process_pool_relays db tx_hash index 0 cert.relays
                  (process_pool_metadata db cert.operator tx_hash cert s2)),
          )
        ]
      ]

  unfoldable pub process_pool_retirement :
      Text → ℕ → Text → ℕ → StakeState World → Option Text × StakeState World
  unfolding ensure_pool_hash insert_logged
  process_pool_retirement tx_hash cert_index pool epoch s =
      let (err, s1) = ensure_pool_hash db pool s in
      elim err [
        | some e ↦ (none, s1)
        | none ↦ (
          none,
          insert_logged db (pool_retire_row tx_hash (to_uint32 cert_index) pool (to_uint32 epoch))
              s1,
        )
      ]

  -- The other types have handlers that do nothing.
  unfoldable pub process_certificate :
      Text → ℕ → Cert → StakeState World → Option Text × StakeState World
  unfolding register_address process_stake_registration process_stake_delegation
      process_pool_registration process_pool_retirement
  process_certificate tx_hash i (stake_registration address) s =
      process_stake_registration tx_hash i address s
  process_certificate tx_hash i (stake_deregistration address) s =
      register_address (deregistration_row tx_hash (to_uint32 i) address) address s
  process_certificate tx_hash i (stake_delegation address pool) s =
      process_stake_delegation tx_hash i address pool s
  process_certificate tx_hash i (pool_registration cert) s =
      process_pool_registration tx_hash i cert s
  process_certificate tx_hash i (pool_retirement pool epoch) s =
      process_pool_retirement tx_hash i pool epoch s
  process_certificate tx_hash i (registration address) s =
      register_address (registration_row tx_hash (to_uint32 i) address) address s
  process_certificate tx_hash i (deregistration address) s =
      register_address (deregistration_row tx_hash (to_uint32 i) address) address s
  process_certificate tx_hash i _ s = (none, s)

  -- An error that may be retried ends the loop; another one is a warning.
  unfoldable pub process_certificates :
      Text → ℕ → List Cert → StakeState World → Option Text × StakeState World
  unfolding process_certificate is_retryable_error digits
  process_certificates tx_hash i [] s = (none, s)
  process_certificates tx_hash i (cert ∷ certs) s =
      let (err, s1) = process_certificate tx_hash i cert s in
      let rest = process_certificates tx_hash (suc i) certs in
      elim err [
        | none ↦ rest s1
        | some e ↦
            if is_retryable_error (some e)
            then (some (text "certificate " ++ (digits i ++ (text ": " ++ e))), s1)
            else rest
                (warn (text "Failed to process certificate " ++ (digits i ++ (text ": " ++ e))) s1)
      ]
