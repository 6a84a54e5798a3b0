-- ===== src/Governance/Actions.antt =====
-- The proposals of processors/governance_processor.go, and `ProcessTransaction`.
use nectar.Prelude.{
  ℕ, suc, Option, none, some, List, [], ◌∷◌, ◌++◌, ◌⊎◌, inl, inr, if◌then◌else◌, is_empty, Text,
  text,
}
use nectar.Era.Slots.{BlockType, conway, to_uint32}
use nectar.Block.Gates.{since}
use nectar.Block.Rows.{is_zero_hash}
use nectar.Governance.Rows.{
  Anchor, GovActionId, Voter, Vote, GovAction, parameter_change, hard_fork_initiation,
  treasury_withdrawal, no_confidence, info, update_committee, new_constitution, unknown_action,
  Proposal, GovActionProposal, GovRow, proposal_row, treasury_row, committee_row, member_row,
  constitution_row, GovTables, GovState, collect,
}
use nectar.Governance.Hashes.{
  generate_gov_action_proposal_hash, generate_committee_hash, generate_constitution_hash,
}
use nectar.Governance.Votes.{
  ensure_committee_hash, process_voting_anchor, anchor_or_warn, process_voting_procedures,
}

abbrev get_gov_action_type : GovAction → Text
get_gov_action_type (parameter_change id) = text "ParameterChange"
get_gov_action_type (hard_fork_initiation major minor) = text "HardForkInitiation"
get_gov_action_type (treasury_withdrawal withdrawals) = text "TreasuryWithdrawal"
get_gov_action_type no_confidence = text "NoConfidence"
get_gov_action_type info = text "Info"
get_gov_action_type (update_committee members) = text "UpdateCommittee"
get_gov_action_type (new_constitution anchor) = text "NewConstitution"
get_gov_action_type unknown_action = text "Unknown"

abbrev pub right_hash : Text ⊎ Text → Option Text
right_hash (inl e) = none
right_hash (inr hash) = some hash

module _ {World : Type 0} (tables : GovTables World) where
  -- an insert whose error goes to the log alone
  unfoldable pub create_logged : GovRow → GovState World → GovState World
  create_logged row s = record s { world = (tables.create row s.world).1 }

  unfoldable pub process_parameter_change :
      Text → Option GovActionId → GovState World → GovState World
  unfolding generate_gov_action_proposal_hash
  process_parameter_change hash none s = s
  process_parameter_change hash (some id) s =
      let previous = generate_gov_action_proposal_hash tables id.transaction_id id.gov_action_idx in
      record s { world = (tables.update_previous hash previous s.world).1 }

  -- An address without a stake key is passed over.
  unfoldable pub process_treasury_withdrawals :
      Text → List (Text × ℕ) → GovState World → GovState World
  unfolding create_logged is_zero_hash
  process_treasury_withdrawals hash [] s = s
  process_treasury_withdrawals hash ((key, amount) ∷ rest) s =
      process_treasury_withdrawals hash rest
        (if is_zero_hash key then s else create_logged (treasury_row hash key amount) s)

  abbrev pub process_member : Option Text → ℕ → GovState World → GovState World
  unfolding ensure_committee_hash create_logged
  process_member none epoch s = s
  process_member (some member) epoch s =
      let (err, s1) = ensure_committee_hash tables member s in
      let until = to_uint32 epoch in
      elim err [ none ↦ create_logged (member_row member until until) s1 | some e ↦ s1 ]

  unfoldable pub process_members : List (Option Text × ℕ) → GovState World → GovState World
  unfolding ensure_committee_hash create_logged
  process_members [] s = s
  process_members ((member, epoch) ∷ members) s =
      process_members members (process_member member epoch s)

  unfoldable pub process_new_committee :
      Text → List (Option Text × ℕ) → GovState World → GovState World
  unfolding generate_committee_hash process_members
  process_new_committee hash members s =
      let (err, w) =
        tables.create (committee_row (generate_committee_hash tables hash) hash) s.world in
      let s1 = record s { world = w } in
      elim err [ none ↦ process_members members s1 | some e ↦ s1 ]

  -- The anchor counts where it has a URL; the hash of the script is never set.
  unfoldable pub constitution_anchor : Anchor → GovState World → Option Text × GovState World
  unfolding process_voting_anchor
  constitution_anchor a s =
      if is_empty a.url
      then (none, s)
      else anchor_or_warn tables (text "Failed to process voting anchor: ")
          (process_voting_anchor tables a s)

  unfoldable pub process_new_constitution : Text → Anchor → GovState World → GovState World
  unfolding constitution_anchor generate_constitution_hash create_logged
  process_new_constitution hash a s =
      let (anchor, s1) = constitution_anchor a s in
      create_logged
        (constitution_row (generate_constitution_hash tables hash anchor none) hash none anchor) s1

  -- The details of an action; their errors go to the log alone.
  unfoldable pub process_action : Text → GovAction → GovState World → GovState World
  unfolding process_parameter_change process_treasury_withdrawals process_new_committee
      process_new_constitution
  process_action hash (parameter_change id) s = process_parameter_change hash id s
  process_action hash (treasury_withdrawal withdrawals) s =
      process_treasury_withdrawals hash withdrawals s
  process_action hash (update_committee members) s = process_new_committee hash members s
  process_action hash (new_constitution anchor) s = process_new_constitution hash anchor s
  process_action hash _ s = s

  unfoldable pub gov_action_proposal : Text → ℕ → Proposal → Option Text → GovActionProposal
  unfolding generate_gov_action_proposal_hash
  gov_action_proposal tx_hash index p anchor = record {
    hash = generate_gov_action_proposal_hash tables tx_hash (to_uint32 index);
    tx_hash = tx_hash;
    index = to_uint32 index;
    action_type = get_gov_action_type p.gov_action;
    deposit = p.deposit;
    voting_anchor_hash = anchor;
  }

  unfoldable pub process_proposal_procedure :
      Text → ℕ → Proposal → GovState World → Option Text × GovState World
  unfolding process_voting_anchor gov_action_proposal process_action
  process_proposal_procedure tx_hash index p s =
      let (anchor, s1) = process_voting_anchor tables p.anchor s in
      let row = gov_action_proposal tx_hash index p (right_hash anchor) in
      let (err, w) = tables.create (proposal_row row) s1.world in
      let s2 = record s1 { world = w } in
      elim err [
        | some e ↦ (some (text "failed to create governance action proposal: " ++ e), s2)
        | none ↦ (none, process_action row.hash p.gov_action s2)
      ]

  abbrev pub reported_proposal : Option Text × GovState World → GovState World
  reported_proposal (none, s) = s
  reported_proposal (some e, s) = collect (text "failed to process proposal procedure: " ++ e) s

  -- the proposals from an index on
  unfoldable pub process_proposals : Text → ℕ → List Proposal → GovState World → GovState World
  unfolding process_proposal_procedure
  process_proposals tx_hash i [] s = s
  process_proposals tx_hash i (p ∷ proposals) s =
      process_proposals tx_hash (suc i) proposals
        (reported_proposal (process_proposal_procedure tx_hash i p s))

  -- Its error is always nil.
  unfoldable pub process_proposal_procedures :
      Text → List Proposal → BlockType → GovState World → GovState World
  unfolding process_proposals
  process_proposal_procedures tx_hash proposals b s =
      if since conway b then process_proposals tx_hash 0 proposals s else s

  -- `ProcessTransaction`, whose error is always nil
  unfoldable pub process_governance :
      Text → List (Voter × List Vote) → List Proposal → BlockType → GovState World → GovState World
  unfolding process_voting_procedures process_proposal_procedures
  process_governance tx_hash voters proposals b s =
      if since conway b
      then process_proposal_procedures tx_hash proposals b
          (process_voting_procedures tables tx_hash voters b s)
      else s
