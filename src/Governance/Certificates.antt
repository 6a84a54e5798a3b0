-- ===== src/Governance/Certificates.antt =====
-- The certificates of processors/governance_processor.go, the delegations to DReps, and the
-- distribution of their stakes. Nothing calls these operations.
use nectar.Prelude.{ℕ, suc, Option, none, some, List, [], ◌∷◌, ◌++◌, inl, inr, Text, text}
use nectar.Era.Slots.{to_uint32}
use nectar.Governance.Rows.{
  Anchor, GovCertificate, registration_drep, update_drep, deregistration_drep, auth_committee_hot,
  resign_committee_cold, committee_registration_row, committee_deregistration_row,
  delegation_vote_row, drep_distr_row, GovTables, GovState, label,
}
use nectar.Governance.Votes.{ensure_drep_hash, ensure_committee_hash, process_voting_anchor}
use nectar.Governance.Actions.{right_hash, create_logged}

-- a DRep credential: a key hash, a special one, or another type
data DrepCredential : Type 0 where
  key_hash special : Text → DrepCredential
  other_credential : DrepCredential

module _ {World : Type 0} (tables : GovTables World) where
  -- an anchor whose error goes to the log alone
  unfoldable logged_anchor : Option Anchor → GovState World → Option Text × GovState World
  unfolding process_voting_anchor
  logged_anchor none s = (none, s)
  logged_anchor (some a) s =
      let (result, s1) = process_voting_anchor tables a s in (right_hash result, s1)

  -- `processRegistrationDrep` and `processUpdateDrep`
  unfoldable process_drep_anchor :
      Text → Option Anchor → GovState World → Option Text × GovState World
  unfolding ensure_drep_hash logged_anchor
  process_drep_anchor drep anchor s =
      let (err, s1) = ensure_drep_hash tables drep s in
      elim err [
        | some e ↦ (some (text "failed to get DRep hash: " ++ e), s1)
        | none ↦ (none, (logged_anchor anchor s1).1)
      ]

  unfoldable process_deregistration_drep : Text → GovState World → Option Text × GovState World
  unfolding ensure_drep_hash
  process_deregistration_drep drep s =
      let (err, s1) = ensure_drep_hash tables drep s in
      (label (text "failed to get DRep hash: ") err, s1)

  -- An error goes to the log alone.
  unfoldable process_drep_certificates : List GovCertificate → GovState World → GovState World
  unfolding process_drep_anchor process_deregistration_drep
  process_drep_certificates [] s = s
  process_drep_certificates (registration_drep drep anchor ∷ certs) s =
      process_drep_certificates certs (process_drep_anchor drep anchor s).1
  process_drep_certificates (update_drep drep anchor ∷ certs) s =
      process_drep_certificates certs (process_drep_anchor drep anchor s).1
  process_drep_certificates (deregistration_drep drep ∷ certs) s =
      process_drep_certificates certs (process_deregistration_drep drep s).1
  process_drep_certificates (cert ∷ certs) s = process_drep_certificates certs s

  unfoldable process_auth_committee_hot :
      Text → ℕ → Text → Text → GovState World → Option Text × GovState World
  unfolding ensure_committee_hash
  process_auth_committee_hot tx_hash i cold hot s =
      let (cold_err, s1) = ensure_committee_hash tables cold s in
      let (hot_err, s2) = ensure_committee_hash tables hot s1 in
      let (err, w) =
        tables.create (committee_registration_row tx_hash (to_uint32 i) cold hot) s2.world in
      elim cold_err [
        | some e ↦ (some (text "failed to get/create cold key hash: " ++ e), s1)
        | none ↦ elim hot_err [
          | some e ↦ (some (text "failed to get/create hot key hash: " ++ e), s2)
          | none ↦ (
            label (text "failed to create committee registration: ") err,
            record s2 { world = w },
          )
        ]
      ]

  unfoldable process_resign_committee_cold :
      Text → ℕ → Text → Option Anchor → GovState World → Option Text × GovState World
  unfolding ensure_committee_hash logged_anchor
  process_resign_committee_cold tx_hash i cold anchor s =
      let (cold_err, s1) = ensure_committee_hash tables cold s in
      let (hash, s2) = logged_anchor anchor s1 in
      let (err, w) =
        tables.create (committee_deregistration_row tx_hash (to_uint32 i) cold hash) s2.world in
      elim cold_err [
        | some e ↦ (some (text "failed to get/create cold key hash: " ++ e), s1)
        | none ↦ (
          label (text "failed to create committee de-registration: ") err,
          record s2 { world = w },
        )
      ]

  -- the certificates from an index on
  unfoldable process_committee_certificates :
      Text → ℕ → List GovCertificate → GovState World → GovState World
  unfolding process_auth_committee_hot process_resign_committee_cold
  process_committee_certificates tx_hash i [] s = s
  process_committee_certificates tx_hash i (auth_committee_hot cold hot ∷ certs) s =
      process_committee_certificates tx_hash (suc i) certs
        (process_auth_committee_hot tx_hash i cold hot s).1
  process_committee_certificates tx_hash i (resign_committee_cold cold anchor ∷ certs) s =
      process_committee_certificates tx_hash (suc i) certs
        (process_resign_committee_cold tx_hash i cold anchor s).1
  process_committee_certificates tx_hash i (cert ∷ certs) s =
      process_committee_certificates tx_hash (suc i) certs s

  unfoldable store_delegation :
      Text → ℕ → Text → Option Text → GovState World → Option Text × GovState World
  store_delegation tx_hash i address drep s =
      let (err, w) =
        tables.create (delegation_vote_row tx_hash (to_uint32 i) address drep) s.world in
      (label (text "failed to create DRep delegation: ") err, record s { world = w })

  unfoldable process_drep_delegation :
      Text → ℕ → Text → DrepCredential → GovState World → Option Text × GovState World
  unfolding ensure_drep_hash store_delegation
  process_drep_delegation tx_hash i address (key_hash drep) s =
      let (err, s1) = ensure_drep_hash tables drep s in
      elim err [
        | some e ↦ (some (text "failed to ensure DRep hash: " ++ e), s1)
        | none ↦ store_delegation tx_hash i address (some drep) s1
      ]
  process_drep_delegation tx_hash i address (special name) s =
      store_delegation tx_hash i address none s
  process_drep_delegation tx_hash i address other_credential s =
      (some (text "unknown DRep credential type"), s)

  unfoldable store_distribution : ℕ → List (Text × ℕ) → GovState World → GovState World
  unfolding create_logged
  store_distribution epoch [] s = s
  store_distribution epoch ((drep, amount) ∷ rest) s =
      store_distribution epoch rest (create_logged tables (drep_distr_row drep epoch amount) s)

  unfoldable calculate_drep_distribution : ℕ → GovState World → Option Text × GovState World
  unfolding store_distribution
  calculate_drep_distribution epoch s = elim (tables.drep_stakes epoch s.world) [
    | inl e ↦ (some (text "failed to calculate DRep distribution: " ++ e), s)
    | inr stakes ↦ (none, store_distribution epoch stakes s)
  ]
