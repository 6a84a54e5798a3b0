-- ===== src/Governance/Anchored.antt =====
-- The table of voting anchors: `processVotingAnchor` of processors/governance_processor.go sets the
-- URL and the hash of the data of a row, but not the hash that is its key.
use nectar.Prelude.{
  ◌≤◌, ◌≡◌, refl, sym, ◌∙◌, subst, arith, Bool, true, false, Option, none, some, List, [], ◌∷◌, ◌⊎◌,
  inl, inr, Option-cases, length, Text,
}
use nectar.Prelude.Keys.{Keys, Lacks}
use nectar.Era.Slots.{BlockType}
use nectar.Governance.Rows.{
  Voter, Vote, Proposal, GovRow, VotingAnchor, anchor_row, GovTables, GovState,
  new_governance_processor,
}
use nectar.Governance.Actions.{process_governance}
use nectar.Governance.Kept.{is_unkeyed, IsKept, Fine}
use nectar.Governance.Proposed.{process_governance-Fine}

-- a transaction, as governance sees it
pub record GovTx : Type 0 where
  pub hash : Text
  pub voters : List (Voter × List Vote)
  pub proposals : List Proposal
  pub block_type : BlockType

-- The transactions, one after the other.
unfoldable pub process_all :
    {World : Type 0} → GovTables World → List GovTx → GovState World → GovState World
unfolding process_governance
process_all tables [] s = s
process_all tables (t ∷ ts) s =
    process_all tables ts (process_governance tables t.hash t.voters t.proposals t.block_type s)

abbrev pub is_anchor : GovRow → Bool
is_anchor (anchor_row r) = true
is_anchor _ = false

-- What is relied on, with the keys of the rows in the table of anchors: an anchor is stored where its
-- key is new, a refused one changes nothing, and nothing else changes the table.
pub record AnchorLaws {World : Type 0} (tables : GovTables World) (anchors : World → Keys)
    : Type 0 where
  pub added :
      (r : VotingAnchor) (w : World)
      → (tables.create (anchor_row r) w).0 ≡ none
      → Lacks r.hash (anchors w) × (anchors (tables.create (anchor_row r) w).1 ≡ r.hash ∷ anchors w)
  pub refused :
      (r : VotingAnchor) (w : World) (e : Text)
      → (tables.create (anchor_row r) w).0 ≡ some e
      → anchors (tables.create (anchor_row r) w).1 ≡ anchors w
  pub other_rows :
      (row : GovRow) (w : World)
      → is_anchor row ≡ false
      → anchors (tables.create row w).1 ≡ anchors w
  pub drep_rows :
      (hash view : Text) (w : World)
      → anchors ((tables.drep_table hash view).create w).1 ≡ anchors w
  pub committee_rows :
      (hash : Text) (w : World) → anchors ((tables.committee_table hash).create w).1 ≡ anchors w
  pub updates :
      (hash previous : Text) (w : World)
      → anchors (tables.update_previous hash previous w).1 ≡ anchors w
  pub queued :
      (anchor url hash : Text) (w : World)
      → anchors (tables.queue_metadata anchor url hash w).1 ≡ anchors w

module _ {World : Type 0} (tables : GovTables World) (anchors : World → Keys)
    (laws : AnchorLaws tables anchors) where
  -- No anchor, or one without a key.
  abbrev AtMostOne : World → Type 0
  AtMostOne w = (anchors w ≡ []) ⊎ (anchors w ≡ none ∷ [])

  same-AtMostOne : (w v : World) → anchors v ≡ anchors w → AtMostOne w → AtMostOne v
  same-AtMostOne w v e (inl p) = inl (e ∙ p)
  same-AtMostOne w v e (inr p) = inr (e ∙ p)

  nil_key : (k : Option Text) → elim k [ none ↦ true | some h ↦ false ] ≡ true → k ≡ none
  nil_key none e = refl
  nil_key (some h) e = absurd (cc)

  anchor-AtMostOne :
      (r : VotingAnchor) (w : World)
      → r.hash ≡ none
      → AtMostOne w
      → AtMostOne (tables.create (anchor_row r) w).1
  anchor-AtMostOne r w k p = elim (Option-cases (tables.create (anchor_row r) w).0) [
    | inr (e, h) ↦ same-AtMostOne w _ (laws.refused r w e h) p
    | inl h ↦ elim p [
      | inl q ↦ inr (cc ((laws.added r w h).1, k, q))
      | inr q ↦ absurd ((subst (λ l. Lacks r.hash l) q (laws.added r w h).0).0 (sym k))
    ]
  ]

  create-AtMostOne :
      (row : GovRow) (w : World)
      → is_unkeyed row ≡ true
      → AtMostOne w
      → AtMostOne (tables.create row w).1
  create-AtMostOne (anchor_row r) w h p = anchor-AtMostOne r w (nil_key r.hash h) p
  create-AtMostOne row w h p = same-AtMostOne w _ (laws.other_rows row w refl) p

  kept : IsKept tables AtMostOne
  kept = record {
    by_create = create-AtMostOne;
    by_drep = λ hash view w p. same-AtMostOne w _ (laws.drep_rows hash view w) p;
    by_committee = λ hash w p. same-AtMostOne w _ (laws.committee_rows hash w) p;
    by_previous = λ hash previous w p. same-AtMostOne w _ (laws.updates hash previous w) p;
    by_queue = λ anchor url hash w p. same-AtMostOne w _ (laws.queued anchor url hash w) p;
  }

  process_all-Fine :
      (ts : List GovTx) (s : GovState World)
      → Fine tables AtMostOne kept s
      → Fine tables AtMostOne kept (process_all tables ts s)
  unfolding process_all
  process_all-Fine [] s p = p
  process_all-Fine (t ∷ ts) s p =
      process_all-Fine ts _
        (process_governance-Fine tables AtMostOne kept t.hash t.voters t.proposals t.block_type s p)

  length-AtMostOne : (w : World) → AtMostOne w → length (anchors w) ≤ 1
  length-AtMostOne w (inl p) = subst (λ l. length l ≤ 1) (sym p) (omega arith)
  length-AtMostOne w (inr p) = subst (λ l. length l ≤ 1) (sym p) (omega arith)

  -- From a database without voting anchors, the votes and proposals of any transactions, processed by
  -- a new governance processor, leave at most one, if an anchor is only stored where its key is new
  -- and no other call changes the table of anchors.
  pub process_all-anchors :
      (ts : List GovTx) (w : World)
      → anchors w ≡ []
      → length (anchors (process_all tables ts (new_governance_processor w)).world) ≤ 1
  unfolding Fine
  process_all-anchors ts w p =
      length-AtMostOne _ (process_all-Fine ts (new_governance_processor w) (inl p))
