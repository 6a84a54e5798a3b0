-- ===== src/Stake/Errorless.antt =====
-- The errors of processors/certificate_processor.go.
use nectar.Prelude.{
  ℕ, suc, ◌≡◌, refl, ◌∙◌, Option, none, some, List, [], ◌∷◌, if-cases, option-cases,
  option-cases_eq, none_not_some, sym, Text, text, contains,
}
use nectar.Era.Slots.{to_uint32}
use nectar.Stake.Certificates.{
  PoolRegistration, Cert, stake_registration, stake_deregistration, stake_delegation,
  pool_registration, pool_retirement, registration, deregistration, StakeRow, registration_row,
  StakeDb, StakeState,
}
use nectar.Stake.Pools.{ensure_stake_address, ensure_pool_hash}
use nectar.Stake.Handlers.{
  register_address, pool_update, process_stake_registration, process_stake_delegation,
  process_pool_registration, process_pool_retirement, process_certificate, process_certificates,
}

module _ {World : Type 0} (db : StakeDb World) where
  -- no error
  Errorless : Option Text × StakeState World → Type 0
  Errorless r = r.0 ≡ none

  errorless : (s : StakeState World) → Errorless (none, s)
  unfolding Errorless
  errorless s = refl

  register_address-Errorless :
      (row : StakeRow) (address : Text) (s : StakeState World)
      → Errorless (register_address db row address s)
  unfolding register_address
  register_address-Errorless row address s =
      option-cases Errorless (ensure_stake_address db address s).0 _ _ (errorless _)
        (λ _. errorless _)

  process_stake_registration-Errorless :
      (tx_hash : Text) (i : ℕ) (address : Text) (s : StakeState World)
      → Errorless (process_stake_registration db tx_hash i address s)
  unfolding process_stake_registration
  process_stake_registration-Errorless tx_hash i address s =
      let (ensured, s1) = ensure_stake_address db address s in
      let row = registration_row tx_hash (to_uint32 i) address in
      option-cases Errorless ensured _ _ (errorless _) (λ _.
        option-cases Errorless (db.insert row s1.world).0 _ _ (errorless _) (λ e.
          if-cases Errorless (contains (text "Duplicate entry") e) _ _ (λ _. errorless _)
            (λ _. errorless _)))

  process_stake_delegation-Errorless :
      (tx_hash : Text) (i : ℕ) (address : Option Text) (pool : Text) (s : StakeState World)
      → Errorless (process_stake_delegation db tx_hash i address pool s)
  unfolding process_stake_delegation
  process_stake_delegation-Errorless tx_hash i none pool s = errorless s
  process_stake_delegation-Errorless tx_hash i (some address) pool s =
      option-cases Errorless (ensure_stake_address db address s).0 _ _ (errorless _) (λ _.
        option-cases Errorless (ensure_pool_hash db pool (ensure_stake_address db address s).1).0 _
          _ (errorless _) (λ _. errorless _))

  process_pool_registration-Errorless :
      (tx_hash : Text) (i : ℕ) (cert : PoolRegistration) (s : StakeState World)
      → Errorless (process_pool_registration db tx_hash i cert s)
  unfolding process_pool_registration
  process_pool_registration-Errorless tx_hash i cert s =
      let (err, s1) = ensure_pool_hash db cert.operator s in
      option-cases Errorless err _ _
        (option-cases Errorless (db.insert (pool_update db tx_hash i cert s1) s1.world).0 _ _
          (errorless _) (λ _. errorless _))
        (λ _. errorless _)

  process_pool_retirement-Errorless :
      (tx_hash : Text) (i : ℕ) (pool : Text) (epoch : ℕ) (s : StakeState World)
      → Errorless (process_pool_retirement db tx_hash i pool epoch s)
  unfolding process_pool_retirement
  process_pool_retirement-Errorless tx_hash i pool epoch s =
      option-cases Errorless (ensure_pool_hash db pool s).0 _ _ (errorless _) (λ _. errorless _)

  process_certificate-Errorless :
      (tx_hash : Text) (i : ℕ) (cert : Cert) (s : StakeState World)
      → Errorless (process_certificate db tx_hash i cert s)
  unfolding process_certificate
  process_certificate-Errorless tx_hash i (stake_registration address) s =
      process_stake_registration-Errorless tx_hash i address s
  process_certificate-Errorless tx_hash i (stake_deregistration address) s =
      register_address-Errorless _ address s
  process_certificate-Errorless tx_hash i (stake_delegation address pool) s =
      process_stake_delegation-Errorless tx_hash i address pool s
  process_certificate-Errorless tx_hash i (pool_registration cert) s =
      process_pool_registration-Errorless tx_hash i cert s
  process_certificate-Errorless tx_hash i (pool_retirement pool epoch) s =
      process_pool_retirement-Errorless tx_hash i pool epoch s
  process_certificate-Errorless tx_hash i (registration address) s =
      register_address-Errorless _ address s
  process_certificate-Errorless tx_hash i (deregistration address) s =
      register_address-Errorless _ address s
  process_certificate-Errorless tx_hash i _ s = errorless s

  passed_over {ℓ} :
      {A : Type ℓ} (o : Option Text) (x : A) (f : Text → A)
      → o ≡ none
      → elim o [ none ↦ x | some e ↦ f e ] ≡ x
  passed_over o x f h =
      option-cases_eq (λ y. y ≡ x) o x f (λ _. refl) (λ e k. absurd (none_not_some (sym h ∙ k)))

  -- the states that the certificates go through, one after the other
  unfoldable pub certificate_states : Text → ℕ → List Cert → StakeState World → StakeState World
  unfolding process_certificate
  certificate_states tx_hash i [] s = s
  certificate_states tx_hash i (cert ∷ certs) s =
      certificate_states tx_hash (suc i) certs (process_certificate db tx_hash i cert s).1

  -- The certificates of a transaction have no error, whatever the database returns, and each of them
  -- is processed, on the state that the one before it leaves.
  pub process_certificates-Errorless :
      (tx_hash : Text) (i : ℕ) (certs : List Cert) (s : StakeState World)
      → process_certificates db tx_hash i certs s ≡ (none, certificate_states tx_hash i certs s)
  unfolding process_certificates certificate_states Errorless
  process_certificates-Errorless tx_hash i [] s = refl
  process_certificates-Errorless tx_hash i (cert ∷ certs) s =
      passed_over (process_certificate db tx_hash i cert s).0 _ _
        (process_certificate-Errorless tx_hash i cert s)
      ∙ process_certificates-Errorless tx_hash (suc i) certs
          (process_certificate db tx_hash i cert s).1
