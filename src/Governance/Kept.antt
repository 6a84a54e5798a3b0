-- ===== src/Governance/Kept.antt =====
-- What processors/governance_processor.go keeps of the database: votes and anchors.
use nectar.Prelude.{
  ◌==◌, Bool, true, false, ◌≡◌, refl, Option, none, some, List, [], ◌∷◌, ◌++◌, ◌⊎◌, inl, inr,
  if-cases, option-cases, Text, text, text_discrete,
}
use nectar.Prelude.Hex.{hex}
use nectar.Prelude.Dict.{lookup}
use nectar.Era.Slots.{BlockType, conway}
use nectar.Block.Gates.{since}
use nectar.Cache.Existence.{is_cached}
use nectar.Cache.Backing.{ensure-keeps}
use nectar.Governance.Rows.{
  Anchor, Voter, Vote, GovRow, voting_row, anchor_row, pool_row, AnchorFound, anchor_there,
  anchor_missing, anchor_failed, GovTables, GovState,
}
use nectar.Governance.Votes.{
  is_committee, is_drep, ensure_drep_hash, ensure_committee_hash, ensure_voting_pool, ensure_voter,
  queue_anchor, voting_anchor, process_voting_anchor, anchor_or_warn, process_vote_anchor,
  voting_procedure, get_next_voting_procedure_index, process_voting_procedure, reported_vote,
  process_votes, process_voters, process_voting_procedures,
}

-- an anchor without the hash that is its key, or another row
abbrev pub is_unkeyed : GovRow → Bool
is_unkeyed (anchor_row r) = elim r.hash [ none ↦ true | some hash ↦ false ]
is_unkeyed _ = true

-- A property of the database that every insert and update, and the queue, keep, but for anchors with keys.
pub record IsKept {World : Type 0} (tables : GovTables World) (P : World → Type 0) : Type 0 where
  pub by_create :
      (row : GovRow) (w : World) → is_unkeyed row ≡ true → P w → P (tables.create row w).1
  pub by_drep : (hash view : Text) (w : World) → P w → P ((tables.drep_table hash view).create w).1
  pub by_committee : (hash : Text) (w : World) → P w → P ((tables.committee_table hash).create w).1
  pub by_previous :
      (hash previous : Text) (w : World) → P w → P (tables.update_previous hash previous w).1
  pub by_queue :
      (anchor url hash : Text) (w : World) → P w → P (tables.queue_metadata anchor url hash w).1

module _ {World : Type 0} (tables : GovTables World) (P : World → Type 0)
    (kept : IsKept tables P) where
  -- the same of a state, and of what a call returns
  unfoldable pub Fine : GovState World → Type 0
  Fine s = P s.world

  unfoldable pub Ends : {A : Type 0} → A × GovState World → Type 0
  Ends r = Fine r.1

  ensure_drep_hash-Ends :
      (hash : Text) (s : GovState World) → Fine s → Ends (ensure_drep_hash tables hash s)
  unfolding Ends Fine ensure_drep_hash
  ensure_drep_hash-Ends hash s p =
      ensure-keeps P (tables.drep_table hash (hex hash)) (kept.by_drep hash (hex hash)) (λ e. false)
        (text "failed to create DRep hash: ") (hex hash) s.drep_cache s.world p

  pub ensure_committee_hash-Ends :
      (hash : Text) (s : GovState World) → Fine s → Ends (ensure_committee_hash tables hash s)
  unfolding Ends Fine ensure_committee_hash
  ensure_committee_hash-Ends hash s p =
      ensure-keeps P (tables.committee_table hash) (kept.by_committee hash) (λ e. false)
        (text "failed to create committee hash: ") (hex hash) s.committee_cache s.world p

  ensure_voting_pool-Ends :
      (hash : Text) (s : GovState World) → Fine s → Ends (ensure_voting_pool tables hash s)
  unfolding Ends Fine ensure_voting_pool
  ensure_voting_pool-Ends hash s p =
      let q = kept.by_create (pool_row hash (hex hash)) s.world refl p in
      if-cases Ends (is_cached (lookup text_discrete (hex hash) s.pool_cache)) _ _ (λ _. p)
        (λ _. option-cases Ends (tables.create (pool_row hash (hex hash)) s.world).0 _ _ q (λ e. q))

  pub ensure_voter-Ends :
      (voter : Voter) (s : GovState World) → Fine s → Ends (ensure_voter tables voter s)
  unfolding Ends ensure_voter
  ensure_voter-Ends voter s p =
      if-cases Ends (is_committee voter.voter_type) _ _
        (λ _. ensure_committee_hash-Ends voter.hash s p)
        (λ _.
          if-cases Ends (is_drep voter.voter_type) _ _ (λ _. ensure_drep_hash-Ends voter.hash s p)
            (λ _.
              if-cases Ends (voter.voter_type == 4) _ _
                (λ _. ensure_voting_pool-Ends voter.hash s p) (λ _. p)))

  queue_anchor-Fine : (a : Anchor) (s : GovState World) → Fine s → Fine (queue_anchor tables a s)
  unfolding Fine queue_anchor
  queue_anchor-Fine a s p =
      let q = kept.by_queue a.data_hash a.url a.data_hash s.world p in
      option-cases Fine (tables.queue_metadata a.data_hash a.url a.data_hash s.world).0 _ _ q
        (λ e. q)

  found-Ends :
      (found : AnchorFound) (err : Option Text) (a : Anchor) (s s1 : GovState World)
      → Fine s
      → Fine s1
      → Ends {A = Text ⊎ Text} (elim found [
        | anchor_there hash ↦ (inr hash, s)
        | anchor_failed e ↦ (inl (text "failed to query voting anchor: " ++ e), s)
        | anchor_missing ↦ elim err [
          | some e ↦ (inl (text "failed to create voting anchor: " ++ e), s1)
          | none ↦ (inr a.data_hash, queue_anchor tables a s1)
        ]
      ])
  unfolding Ends
  found-Ends (anchor_there hash) err a s s1 p q = p
  found-Ends (anchor_failed e) err a s s1 p q = p
  found-Ends anchor_missing err a s s1 p q =
      option-cases Ends err _ _ (queue_anchor-Fine a s1 q) (λ e. q)

  pub process_voting_anchor-Ends :
      (a : Anchor) (s : GovState World) → Fine s → Ends (process_voting_anchor tables a s)
  unfolding process_voting_anchor voting_anchor Fine
  process_voting_anchor-Ends a s p =
      let (err, w) = tables.create (anchor_row (voting_anchor a)) s.world in
      found-Ends (tables.find_anchor a.url a.data_hash s.world) err a s (record s { world = w }) p
        (kept.by_create (anchor_row (voting_anchor a)) s.world refl p)

  pub anchor_or_warn-Ends :
      (message : Text) (r : (Text ⊎ Text) × GovState World)
      → Ends r
      → Ends (anchor_or_warn tables message r)
  unfolding Ends Fine
  anchor_or_warn-Ends message (inl e, s) p = p
  anchor_or_warn-Ends message (inr hash, s) p = p

  process_vote_anchor-Ends :
      (anchor : Option Anchor) (s : GovState World)
      → Fine s
      → Ends (process_vote_anchor tables anchor s)
  unfolding process_vote_anchor Ends
  process_vote_anchor-Ends none s p = p
  process_vote_anchor-Ends (some a) s p =
      anchor_or_warn-Ends (text "Failed to process voting anchor: ")
        (process_voting_anchor tables a s) (process_voting_anchor-Ends a s p)

  process_voting_procedure-Ends :
      (tx_hash : Text) (voter : Voter) (vote : Vote) (s : GovState World)
      → Fine s
      → Ends (process_voting_procedure tables tx_hash voter vote s)
  unfolding process_voting_procedure Ends Fine
  process_voting_procedure-Ends tx_hash voter vote s p =
      let (err, s1) = ensure_voter tables voter s in
      let p1 = ensure_voter-Ends voter s p in
      let (anchor, s2) = process_vote_anchor tables vote.anchor s1 in
      let p2 = process_vote_anchor-Ends vote.anchor s1 p1 in
      let index = get_next_voting_procedure_index tables tx_hash s.world in
      option-cases Ends err _ _
        (kept.by_create (voting_row (voting_procedure tables tx_hash voter vote index anchor))
          s2.world refl p2)
        (λ e. p1)

  reported_vote-Fine : (r : Option Text × GovState World) → Ends r → Fine (reported_vote tables r)
  unfolding Ends Fine
  reported_vote-Fine (none, s) p = p
  reported_vote-Fine (some e, s) p = p

  process_votes-Fine :
      (tx_hash : Text) (voter : Voter) (votes : List Vote) (s : GovState World)
      → Fine s
      → Fine (process_votes tables tx_hash voter votes s)
  unfolding process_votes
  process_votes-Fine tx_hash voter [] s p = p
  process_votes-Fine tx_hash voter (vote ∷ votes) s p = process_votes-Fine tx_hash voter votes _ (
      reported_vote-Fine (process_voting_procedure tables tx_hash voter vote s)
        (process_voting_procedure-Ends tx_hash voter vote s p))

  process_voters-Fine :
      (tx_hash : Text) (voters : List (Voter × List Vote)) (s : GovState World)
      → Fine s
      → Fine (process_voters tables tx_hash voters s)
  unfolding process_voters
  process_voters-Fine tx_hash [] s p = p
  process_voters-Fine tx_hash ((voter, votes) ∷ voters) s p =
      process_voters-Fine tx_hash voters _ (process_votes-Fine tx_hash voter votes s p)

  pub process_voting_procedures-Fine :
      (tx_hash : Text) (voters : List (Voter × List Vote)) (b : BlockType) (s : GovState World)
      → Fine s
      → Fine (process_voting_procedures tables tx_hash voters b s)
  unfolding process_voting_procedures
  process_voting_procedures-Fine tx_hash voters b s p =
      if-cases Fine (since conway b) _ _ (λ _. process_voters-Fine tx_hash voters s p) (λ _. p)
