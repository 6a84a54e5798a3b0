-- ===== src/Governance/Proposed.antt =====
-- What processors/governance_processor.go keeps of the database over whole transactions.
use nectar.Prelude.{
  ℕ, suc, ◌≡◌, refl, true, Option, none, some, List, [], ◌∷◌, if-cases, option-cases, is_empty,
  Text, text,
}
use nectar.Era.Slots.{BlockType, conway, to_uint32}
use nectar.Block.Gates.{since}
use nectar.Block.Rows.{is_zero_hash}
use nectar.Governance.Rows.{
  Anchor, GovActionId, Voter, Vote, GovAction, parameter_change, treasury_withdrawal,
  update_committee, new_constitution, Proposal, GovRow, proposal_row, treasury_row, committee_row,
  member_row, constitution_row, GovTables, GovState,
}
use nectar.Governance.Hashes.{
  generate_gov_action_proposal_hash, generate_committee_hash, generate_constitution_hash,
}
use nectar.Governance.Votes.{ensure_committee_hash, process_voting_anchor}
use nectar.Governance.Actions.{
  right_hash, create_logged, process_parameter_change, process_treasury_withdrawals,
  process_members, process_new_committee, constitution_anchor, process_new_constitution,
  process_action, gov_action_proposal, process_proposal_procedure, reported_proposal,
  process_proposals, process_proposal_procedures, process_governance,
}
use nectar.Governance.Kept.{
  is_unkeyed, IsKept, Fine, Ends, ensure_committee_hash-Ends, process_voting_anchor-Ends,
  anchor_or_warn-Ends, process_voting_procedures-Fine,
}

module _ {World : Type 0} (tables : GovTables World) (P : World → Type 0)
    (kept : IsKept tables P) where
  create_logged-Fine :
      (row : GovRow) (s : GovState World)
      → is_unkeyed row ≡ true
      → Fine tables P kept s
      → Fine tables P kept (create_logged tables row s)
  unfolding create_logged Fine
  create_logged-Fine row s h p = kept.by_create row s.world h p

  -- the same of the state after an insert, without its error, and other small steps
  world-Fine :
      (row : GovRow) (s : GovState World)
      → is_unkeyed row ≡ true
      → Fine tables P kept s
      → Fine tables P kept (record s { world = (tables.create row s.world).1 })
  unfolding Fine
  world-Fine row s h p = kept.by_create row s.world h p

  none-Ends :
      (s : GovState World) → Fine tables P kept s → Ends tables P kept {A = Option Text} (none, s)
  unfolding Ends
  none-Ends s p = p

  member-Fine :
      (member : Text) (s : GovState World)
      → Fine tables P kept s
      → Fine tables P kept (ensure_committee_hash tables member s).1
  unfolding Ends
  member-Fine member s p = ensure_committee_hash-Ends tables P kept member s p

  process_parameter_change-Fine :
      (hash : Text) (id : Option GovActionId) (s : GovState World)
      → Fine tables P kept s
      → Fine tables P kept (process_parameter_change tables hash id s)
  unfolding process_parameter_change Fine
  process_parameter_change-Fine hash none s p = p
  process_parameter_change-Fine hash (some id) s p =
      let previous = generate_gov_action_proposal_hash tables id.transaction_id id.gov_action_idx in
      kept.by_previous hash previous s.world p

  process_treasury_withdrawals-Fine :
      (hash : Text) (withdrawals : List (Text × ℕ)) (s : GovState World)
      → Fine tables P kept s
      → Fine tables P kept (process_treasury_withdrawals tables hash withdrawals s)
  unfolding process_treasury_withdrawals
  process_treasury_withdrawals-Fine hash [] s p = p
  process_treasury_withdrawals-Fine hash ((key, amount) ∷ rest) s p =
      process_treasury_withdrawals-Fine hash rest _ (
        if-cases (Fine tables P kept) (is_zero_hash key) _ _ (λ _. p)
          (λ _. create_logged-Fine (treasury_row hash key amount) s refl p))

  process_members-Fine :
      (members : List (Option Text × ℕ)) (s : GovState World)
      → Fine tables P kept s
      → Fine tables P kept (process_members tables members s)
  unfolding process_members
  process_members-Fine [] s p = p
  process_members-Fine ((none, epoch) ∷ members) s p = process_members-Fine members s p
  process_members-Fine ((some member, epoch) ∷ members) s p =
      let (err, s1) = ensure_committee_hash tables member s in
      let p1 = member-Fine member s p in
      let until = to_uint32 epoch in
      process_members-Fine members _ (
        option-cases (Fine tables P kept) err _ _
          (create_logged-Fine (member_row member until until) s1 refl p1) (λ e. p1))

  process_new_committee-Fine :
      (hash : Text) (members : List (Option Text × ℕ)) (s : GovState World)
      → Fine tables P kept s
      → Fine tables P kept (process_new_committee tables hash members s)
  unfolding process_new_committee
  process_new_committee-Fine hash members s p =
      let row = committee_row (generate_committee_hash tables hash) hash in
      let (err, w) = tables.create row s.world in
      option-cases (Fine tables P kept) err _ _
        (process_members-Fine members (record s { world = w }) (world-Fine row s refl p))
        (λ e. world-Fine row s refl p)

  constitution_anchor-Ends :
      (a : Anchor) (s : GovState World)
      → Fine tables P kept s
      → Ends tables P kept (constitution_anchor tables a s)
  unfolding constitution_anchor
  constitution_anchor-Ends a s p =
      if-cases (Ends tables P kept) (is_empty a.url) _ _ (λ _. none-Ends s p)
        (λ _.
          anchor_or_warn-Ends tables P kept (text "Failed to process voting anchor: ")
            (process_voting_anchor tables a s) (process_voting_anchor-Ends tables P kept a s p))

  process_new_constitution-Fine :
      (hash : Text) (a : Anchor) (s : GovState World)
      → Fine tables P kept s
      → Fine tables P kept (process_new_constitution tables hash a s)
  unfolding process_new_constitution Ends
  process_new_constitution-Fine hash a s p =
      let (anchor, s1) = constitution_anchor tables a s in
      create_logged-Fine
        (constitution_row (generate_constitution_hash tables hash anchor none) hash none anchor) s1
        refl (constitution_anchor-Ends a s p)

  process_action-Fine :
      (hash : Text) (action : GovAction) (s : GovState World)
      → Fine tables P kept s
      → Fine tables P kept (process_action tables hash action s)
  unfolding process_action
  process_action-Fine hash (parameter_change id) s p = process_parameter_change-Fine hash id s p
  process_action-Fine hash (treasury_withdrawal withdrawals) s p =
      process_treasury_withdrawals-Fine hash withdrawals s p
  process_action-Fine hash (update_committee members) s p =
      process_new_committee-Fine hash members s p
  process_action-Fine hash (new_constitution anchor) s p =
      process_new_constitution-Fine hash anchor s p
  process_action-Fine hash _ s p = p

  process_proposal_procedure-Ends :
      (tx_hash : Text) (index : ℕ) (q : Proposal) (s : GovState World)
      → Fine tables P kept s
      → Ends tables P kept (process_proposal_procedure tables tx_hash index q s)
  unfolding process_proposal_procedure Ends
  process_proposal_procedure-Ends tx_hash index q s p =
      let (anchor, s1) = process_voting_anchor tables q.anchor s in
      let p1 = process_voting_anchor-Ends tables P kept q.anchor s p in
      let row = gov_action_proposal tables tx_hash index q (right_hash anchor) in
      let p2 = world-Fine (proposal_row row) s1 refl p1 in
      let (err, w) = tables.create (proposal_row row) s1.world in
      option-cases (Ends tables P kept) err _ _
        (process_action-Fine row.hash q.gov_action (record s1 { world = w }) p2) (λ e. p2)

  reported_proposal-Fine :
      (r : Option Text × GovState World)
      → Ends tables P kept r
      → Fine tables P kept (reported_proposal tables r)
  unfolding Ends Fine
  reported_proposal-Fine (none, s) p = p
  reported_proposal-Fine (some e, s) p = p

  process_proposals-Fine :
      (tx_hash : Text) (i : ℕ) (proposals : List Proposal) (s : GovState World)
      → Fine tables P kept s
      → Fine tables P kept (process_proposals tables tx_hash i proposals s)
  unfolding process_proposals
  process_proposals-Fine tx_hash i [] s p = p
  process_proposals-Fine tx_hash i (q ∷ proposals) s p =
      process_proposals-Fine tx_hash (suc i) proposals _ (
        reported_proposal-Fine (process_proposal_procedure tables tx_hash i q s)
          (process_proposal_procedure-Ends tx_hash i q s p))

  pub process_governance-Fine :
      (tx_hash : Text) (voters : List (Voter × List Vote)) (proposals : List Proposal)
      (b : BlockType) (s : GovState World)
      → Fine tables P kept s
      → Fine tables P kept (process_governance tables tx_hash voters proposals b s)
  unfolding process_governance process_proposal_procedures
  process_governance-Fine tx_hash voters proposals b s p =
      let p1 = process_voting_procedures-Fine tables P kept tx_hash voters b s p in
      if-cases (Fine tables P kept) (since conway b) _ _
        (λ _.
          if-cases (Fine tables P kept) (since conway b) _ _
            (λ _. process_proposals-Fine tx_hash 0 proposals _ p1) (λ _. p1))
        (λ _. p)
