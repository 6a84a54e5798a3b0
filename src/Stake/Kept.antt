-- ===== src/Stake/Kept.antt =====
-- The pool cache while processors/certificate_processor.go processes certificates.
use nectar.Prelude.{
  ℕ, suc, Option, none, some, List, [], ◌∷◌, ◌++◌, if-cases, option-cases, Text, text, contains,
}
use nectar.Retry.Classify.{is_retryable_error}
use nectar.Era.Slots.{to_uint32}
use nectar.Stake.Certificates.{
  PoolRegistration, Cert, stake_registration, stake_deregistration, stake_delegation,
  pool_registration, pool_retirement, registration, deregistration, StakeRow, registration_row,
  StakeDb, StakeState, warn,
}
use nectar.Stake.Pools.{insert_logged, ensure_stake_address, ensure_pool_hash}
use nectar.Stake.Handlers.{
  register_address, pool_update, process_stake_registration, process_stake_delegation,
  process_pool_registration, process_pool_retirement, process_certificate, process_certificates,
}
use nectar.Stake.Backed.{
  PoolLaws, Backed, Leaves, leaves, insert_logged-Backed, ensure_stake_address-Backed,
  ensure_pool_hash-Leaves, process_pool_metadata-Backed, process_pool_relays-Backed,
  process_pool_owners-Backed,
}

module _ {World : Type 0} (db : StakeDb World) (HasPool : Text → World → Type 0)
    (laws : PoolLaws db HasPool) where
  abbrev Kept : StakeState World → Type 0
  Kept s = Backed db HasPool laws s

  abbrev Good : Option Text × StakeState World → Type 0
  Good r = Leaves db HasPool laws r

  good : (e : Option Text) (s : StakeState World) → Kept s → Good (e, s)
  good e s b = leaves db HasPool laws e s b

  warn-Backed : (message : Text) (s : StakeState World) → Kept s → Kept (warn message s)
  unfolding Backed
  warn-Backed message s b = b

  register_address-Leaves :
      (row : StakeRow) (address : Text) (s : StakeState World)
      → Kept s
      → Good (register_address db row address s)
  unfolding register_address
  register_address-Leaves row address s b =
      let (ensured, s1) = ensure_stake_address db address s in
      let b1 = ensure_stake_address-Backed db HasPool laws address s b in
      option-cases (Leaves db HasPool laws) ensured _ _
        (good none _ (warn-Backed (text "Failed to ensure stake address") s1 b1))
        (λ _. good none _ (insert_logged-Backed db HasPool laws row s1 b1))

  process_stake_registration-Leaves :
      (tx_hash : Text) (i : ℕ) (address : Text) (s : StakeState World)
      → Kept s
      → Good (process_stake_registration db tx_hash i address s)
  unfolding process_stake_registration insert_logged
  process_stake_registration-Leaves tx_hash i address s b =
      let (ensured, s1) = ensure_stake_address db address s in
      let b1 = ensure_stake_address-Backed db HasPool laws address s b in
      let row = registration_row tx_hash (to_uint32 i) address in
      let s2 = insert_logged db row s1 in
      let b2 = insert_logged-Backed db HasPool laws row s1 b1 in
      option-cases (Leaves db HasPool laws) ensured _ _
        (good none _ (warn-Backed (text "Failed to ensure stake address") s1 b1))
        (λ _.
          option-cases (Leaves db HasPool laws) (db.insert row s1.world).0 _ _ (good none s2 b2)
            (λ e.
              if-cases (Leaves db HasPool laws) (contains (text "Duplicate entry") e) _ _
                (λ _. good none s2 b2)
                (λ _.
                  good none _
                    (warn-Backed (text "Failed to create stake registration: " ++ e) s2 b2))))

  process_stake_delegation-Leaves :
      (tx_hash : Text) (i : ℕ) (address : Option Text) (pool : Text) (s : StakeState World)
      → Kept s
      → Good (process_stake_delegation db tx_hash i address pool s)
  unfolding process_stake_delegation Leaves
  process_stake_delegation-Leaves tx_hash i none pool s b = b
  process_stake_delegation-Leaves tx_hash i (some address) pool s b =
      let (ensured, s1) = ensure_stake_address db address s in
      let b1 = ensure_stake_address-Backed db HasPool laws address s b in
      let (err, s2) = ensure_pool_hash db pool s1 in
      let b2 = ensure_pool_hash-Leaves db HasPool laws pool s1 b1 in
      option-cases (Leaves db HasPool laws) ensured _ _
        (warn-Backed (text "Failed to ensure stake address") s1 b1)
        (λ _.
          option-cases (Leaves db HasPool laws) err _ _
            (insert_logged-Backed db HasPool laws _ s2 b2) (λ e. b2))

  process_pool_registration-Leaves :
      (tx_hash : Text) (i : ℕ) (cert : PoolRegistration) (s : StakeState World)
      → Kept s
      → Good (process_pool_registration db tx_hash i cert s)
  unfolding process_pool_registration Leaves insert_logged
  process_pool_registration-Leaves tx_hash i cert s b =
      let (err, s1) = ensure_pool_hash db cert.operator s in
      let b1 = ensure_pool_hash-Leaves db HasPool laws cert.operator s b in
      let row = pool_update db tx_hash i cert s1 in
      let b2 = insert_logged-Backed db HasPool laws row s1 b1 in
      let index = to_uint32 i in
      option-cases (Leaves db HasPool laws) err _ _
        (option-cases (Leaves db HasPool laws) (db.insert row s1.world).0 _ _
          (process_pool_owners-Backed db HasPool laws tx_hash index cert.owners _ (
            process_pool_relays-Backed db HasPool laws tx_hash index 0 cert.relays _
              (process_pool_metadata-Backed db HasPool laws cert.operator tx_hash cert _ b2)))
          (λ _. b2))
        (λ _. b1)

  process_pool_retirement-Leaves :
      (tx_hash : Text) (i : ℕ) (pool : Text) (epoch : ℕ) (s : StakeState World)
      → Kept s
      → Good (process_pool_retirement db tx_hash i pool epoch s)
  unfolding process_pool_retirement Leaves
  process_pool_retirement-Leaves tx_hash i pool epoch s b =
      let b1 = ensure_pool_hash-Leaves db HasPool laws pool s b in
      option-cases (Leaves db HasPool laws) (ensure_pool_hash db pool s).0 _ _
        (insert_logged-Backed db HasPool laws _ _ b1) (λ _. b1)

  process_certificate-Leaves :
      (tx_hash : Text) (i : ℕ) (cert : Cert) (s : StakeState World)
      → Kept s
      → Good (process_certificate db tx_hash i cert s)
  unfolding process_certificate
  process_certificate-Leaves tx_hash i (stake_registration address) s =
      process_stake_registration-Leaves tx_hash i address s
  process_certificate-Leaves tx_hash i (stake_deregistration address) s =
      register_address-Leaves _ address s
  process_certificate-Leaves tx_hash i (stake_delegation address pool) s =
      process_stake_delegation-Leaves tx_hash i address pool s
  process_certificate-Leaves tx_hash i (pool_registration cert) s =
      process_pool_registration-Leaves tx_hash i cert s
  process_certificate-Leaves tx_hash i (pool_retirement pool epoch) s =
      process_pool_retirement-Leaves tx_hash i pool epoch s
  process_certificate-Leaves tx_hash i (registration address) s =
      register_address-Leaves _ address s
  process_certificate-Leaves tx_hash i (deregistration address) s =
      register_address-Leaves _ address s
  process_certificate-Leaves tx_hash i _ s = good none s

  -- Where every pool of the cache is in the table of pool hashes, this is so after the certificates
  -- of a transaction as well, if the database keeps its pools and its queries and inserts say
  -- whether a pool is there.
  pub process_certificates-Backed :
      (tx_hash : Text) (i : ℕ) (certs : List Cert) (s : StakeState World)
      → Backed db HasPool laws s
      → Backed db HasPool laws (process_certificates db tx_hash i certs s).1
  unfolding process_certificates Leaves
  process_certificates-Backed tx_hash i [] s b = b
  process_certificates-Backed tx_hash i (cert ∷ certs) s b =
      let (err, s1) = process_certificate db tx_hash i cert s in
      let b1 = process_certificate-Leaves tx_hash i cert s b in
      option-cases (Leaves db HasPool laws) err _ _
        (process_certificates-Backed tx_hash (suc i) certs s1 b1)
        (λ e.
          if-cases (Leaves db HasPool laws) (is_retryable_error (some e)) _ _ (λ _. b1)
            (λ _. process_certificates-Backed tx_hash (suc i) certs _ (warn-Backed _ s1 b1)))
