-- ===== src/Governance/Hashes.antt =====
-- The hashes of models/governance.go.
use nectar.Prelude.{ℕ, Option, none, some, ◌++◌, [], Text}
use nectar.Prelude.Hex.{index_bytes}
use nectar.Governance.Rows.{GovTables}

-- a text that may be nil
abbrev or_empty : Option Text → Text
or_empty none = []
or_empty (some t) = t

module _ {World : Type 0} (tables : GovTables World) where
  unfoldable pub generate_gov_action_proposal_hash : Text → ℕ → Text
  generate_gov_action_proposal_hash tx_hash index = tables.sha256 (tx_hash ++ index_bytes index)

  unfoldable pub generate_committee_hash : Text → Text
  generate_committee_hash proposal = tables.sha256 (proposal ++ tables.quorum_bytes)

  unfoldable pub generate_constitution_hash : Text → Option Text → Option Text → Text
  generate_constitution_hash proposal anchor script =
      tables.sha256 (proposal ++ (or_empty anchor ++ or_empty script))

  -- Nothing calls it.
  unfoldable generate_voting_anchor_hash : Text → Text → Text
  generate_voting_anchor_hash url data_hash = tables.sha256 (url ++ data_hash)
