-- ===== src/Governance/Votes.antt =====
-- The votes of processors/governance_processor.go.
use nectar.Prelude.{
  ℕ, ◌+◌, ◌==◌, ◌||◌, Bool, true, false, Option, none, some, List, [], ◌∷◌, ◌++◌, ◌⊎◌, inl, inr,
  if◌then◌else◌, Text, text, text_discrete,
}
use nectar.Prelude.Hex.{hex}
use nectar.Prelude.Dict.{lookup}
use nectar.Cache.Existence.{is_cached, remember, ensure}
use nectar.Era.Slots.{BlockType, conway, to_uint32}
use nectar.Block.Gates.{since}
use nectar.Governance.Rows.{
  Anchor, Voter, Vote, VotingProcedure, VotingAnchor, voting_row, anchor_row, pool_row,
  anchor_there, anchor_missing, anchor_failed, GovTables, GovState, collect, warn, label,
}
use nectar.Governance.Hashes.{generate_gov_action_proposal_hash}

abbrev pub is_committee : ℕ → Bool
is_committee t = t == 0 || t == 1

abbrev pub is_drep : ℕ → Bool
is_drep t = t == 2 || t == 3

unfoldable convert_voter_type_to_role : ℕ → Text
convert_voter_type_to_role t =
    if is_committee t
    then text "ConstitutionalCommittee"
    else if is_drep t
    then text "DRep"
    else if t == 4
    then text "SPO"
    else text "Unknown"

unfoldable convert_vote_to_choice : ℕ → Text
convert_vote_to_choice v =
    if v == 0
    then text "No"
    else if v == 1
    then text "Yes"
    else if v == 2
    then text "Abstain"
    else text "Unknown"

-- the hash where the test holds
abbrev only_if : Bool → Text → Option Text
only_if true h = some h
only_if false h = none

-- the row of an anchor: its hash is not set
unfoldable pub voting_anchor : Anchor → VotingAnchor
voting_anchor a = record { hash = none; url = a.url; data_hash = a.data_hash }

module _ {World : Type 0} (tables : GovTables World) where
  unfoldable pub ensure_drep_hash : Text → GovState World → Option Text × GovState World
  unfolding ensure hex
  ensure_drep_hash hash s =
      let (err, cache, w) =
        ensure (tables.drep_table hash (hex hash)) (λ e. false)
          (text "failed to create DRep hash: ") (hex hash) s.drep_cache s.world in
      (err, record s { drep_cache = cache; world = w })

  unfoldable pub ensure_committee_hash : Text → GovState World → Option Text × GovState World
  unfolding ensure hex
  ensure_committee_hash hash s =
      let (err, cache, w) =
        ensure (tables.committee_table hash) (λ e. false) (text "failed to create committee hash: ")
          (hex hash) s.committee_cache s.world in
      (err, record s { committee_cache = cache; world = w })

  -- the pool of a vote, whose row is made if the processor has not made it
  unfoldable pub ensure_voting_pool : Text → GovState World → Option Text × GovState World
  unfolding lookup text_discrete remember hex
  ensure_voting_pool hash s =
      let (err, w) = tables.create (pool_row hash (hex hash)) s.world in
      if is_cached (lookup text_discrete (hex hash) s.pool_cache) then (none, s) else elim err [
        | some e ↦ (some (text "failed to create pool hash: " ++ e), record s { world = w })
        | none ↦ (none, record s { world = w; pool_cache = remember (hex hash) s.pool_cache })
      ]

  -- A voter of another type needs nothing.
  unfoldable pub ensure_voter : Voter → GovState World → Option Text × GovState World
  unfolding ensure_committee_hash ensure_drep_hash ensure_voting_pool
  ensure_voter voter s =
      let committee = ensure_committee_hash voter.hash s in
      let drep = ensure_drep_hash voter.hash s in
      if is_committee voter.voter_type
      then (label (text "failed to ensure committee voter hash: ") committee.0, committee.1)
      else if is_drep voter.voter_type
      then (label (text "failed to ensure DRep voter hash: ") drep.0, drep.1)
      else if voter.voter_type == 4
      then ensure_voting_pool voter.hash s
      else (none, s)

  -- `QueueGovernanceMetadata`, with its error as a warning
  unfoldable pub queue_anchor : Anchor → GovState World → GovState World
  queue_anchor a s =
      let (err, w) = tables.queue_metadata a.data_hash a.url a.data_hash s.world in
      let s1 = record s { world = w } in
      elim err [
        | none ↦ s1
        | some e ↦ warn (text "Failed to queue governance metadata for fetching: " ++ e) s1
      ]

  -- the error, or the hash of the anchor's data
  unfoldable pub process_voting_anchor : Anchor → GovState World → (Text ⊎ Text) × GovState World
  unfolding queue_anchor
  process_voting_anchor a s =
      let (err, w) = tables.create (anchor_row (voting_anchor a)) s.world in
      let s1 = record s { world = w } in
      elim (tables.find_anchor a.url a.data_hash s.world) [
        | anchor_there hash ↦ (inr hash, s)
        | anchor_failed e ↦ (inl (text "failed to query voting anchor: " ++ e), s)
        | anchor_missing ↦ elim err [
          | some e ↦ (inl (text "failed to create voting anchor: " ++ e), s1)
          | none ↦ (inr a.data_hash, queue_anchor a s1)
        ]
      ]

  -- the hash of an anchor, with an error as a warning
  abbrev pub anchor_or_warn : Text → (Text ⊎ Text) × GovState World → Option Text × GovState World
  anchor_or_warn message (inl e, s) = (none, warn (message ++ e) s)
  anchor_or_warn message (inr hash, s) = (some hash, s)

  unfoldable pub process_vote_anchor : Option Anchor → GovState World → Option Text × GovState World
  unfolding process_voting_anchor
  process_vote_anchor none s = (none, s)
  process_vote_anchor (some a) s =
      anchor_or_warn (text "Failed to process voting anchor: ") (process_voting_anchor a s)

  -- the row of a vote, with the index and the hash of its anchor
  unfoldable pub voting_procedure : Text → Voter → Vote → ℕ → Option Text → VotingProcedure
  unfolding generate_gov_action_proposal_hash convert_voter_type_to_role convert_vote_to_choice
  voting_procedure tx_hash voter vote index anchor = record {
    tx_hash = tx_hash;
    index = index;
    gov_action_proposal_hash =
        generate_gov_action_proposal_hash tables vote.action.transaction_id
          vote.action.gov_action_idx;
    voter_role = convert_voter_type_to_role voter.voter_type;
    committee_voter = only_if (is_committee voter.voter_type) voter.hash;
    drep_voter = only_if (is_drep voter.voter_type) voter.hash;
    pool_voter = only_if (voter.voter_type == 4) voter.hash;
    vote = convert_vote_to_choice vote.choice;
    voting_anchor_hash = anchor;
  }

  unfoldable pub get_next_voting_procedure_index : Text → World → ℕ
  get_next_voting_procedure_index tx_hash w = to_uint32 (tables.max_index tx_hash w + 1)

  unfoldable pub process_voting_procedure :
      Text → Voter → Vote → GovState World → Option Text × GovState World
  unfolding ensure_voter process_vote_anchor voting_procedure get_next_voting_procedure_index
  process_voting_procedure tx_hash voter vote s =
      let index = get_next_voting_procedure_index tx_hash s.world in
      let (err, s1) = ensure_voter voter s in
      let (anchor, s2) = process_vote_anchor vote.anchor s1 in
      let (failure, w) =
        tables.create (voting_row (voting_procedure tx_hash voter vote index anchor)) s2.world in
      elim err [
        | some e ↦ (some e, s1)
        | none ↦
            (label (text "failed to create voting procedure: ") failure, record s2 { world = w })
      ]

  -- An error is collected, and a warning.
  abbrev pub reported_vote : Option Text × GovState World → GovState World
  reported_vote (none, s) = s
  reported_vote (some e, s) =
      warn (text "Voting procedure processing error: " ++ e)
        (collect (text "failed to process voting procedure: " ++ e) s)

  -- the votes of one voter, in the map's order
  unfoldable pub process_votes : Text → Voter → List Vote → GovState World → GovState World
  unfolding process_voting_procedure
  process_votes tx_hash voter [] s = s
  process_votes tx_hash voter (vote ∷ votes) s =
      process_votes tx_hash voter votes
        (reported_vote (process_voting_procedure tx_hash voter vote s))

  unfoldable pub process_voters : Text → List (Voter × List Vote) → GovState World → GovState World
  unfolding process_votes
  process_voters tx_hash [] s = s
  process_voters tx_hash ((voter, votes) ∷ voters) s =
      process_voters tx_hash voters (process_votes tx_hash voter votes s)

  -- Its error is always nil.
  unfoldable pub process_voting_procedures :
      Text → List (Voter × List Vote) → BlockType → GovState World → GovState World
  unfolding process_voters
  process_voting_procedures tx_hash voters b s =
      if since conway b then process_voters tx_hash voters s else s
