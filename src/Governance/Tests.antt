-- ===== src/Governance/Tests.antt =====
-- Votes and proposals over a database that counts its anchors and has every pool.
use nectar.Prelude.{
  any, if-cases, some_not_none, ◌≤◌, ◌≡◌, refl, false, Option, none, some, List, [], ◌∷◌, inr,
  if◌then◌else◌, length, Text, text, arith,
}
use nectar.Prelude.Dict.{lookup}
use nectar.Prelude.Keys.{Keys, Lacks, same_key, any-Lacks}
use nectar.Cache.Existence.{missing, RowTable}
use nectar.Era.Slots.{conway}
use nectar.Governance.Rows.{
  Anchor, Voter, Vote, treasury_withdrawal, Proposal, GovRow, anchor_row, pool_row, anchor_missing,
  GovTables, new_governance_processor,
}
use nectar.Governance.Votes.{process_votes}
use nectar.Governance.Anchored.{GovTx, process_all, is_anchor, AnchorLaws, process_all-anchors}
use nectar.Governance.Lost.{IsNew, AreLost, process_votes-AreLost}

abbrev add_anchor : Option Text → Keys → Option Text × Keys
add_anchor key w =
    if any (same_key key) w then (some (text "Duplicate entry"), w) else (none, key ∷ w)

abbrev create : GovRow → Keys → Option Text × Keys
create (anchor_row r) w = add_anchor r.hash w
create (pool_row hash view) w = (some (text "Duplicate entry"), w)
create _ w = (none, w)

abbrev rows : RowTable Keys
rows = record { find = λ w. missing; create = λ w. (none, w) }

abbrev tables : GovTables Keys
tables = record {
  drep_table = λ hash view. rows;
  committee_table = λ hash. rows;
  create = create;
  find_anchor = λ url hash w. anchor_missing;
  update_previous = λ hash previous w. (none, w);
  max_index = λ tx_hash w. 0;
  drep_stakes = λ epoch w. inr [];
  queue_metadata = λ anchor url hash w. (none, w);
  sha256 = λ bytes. bytes;
  quorum_bytes = text "12345678";
}

other_rows : (row : GovRow) (w : Keys) → is_anchor row ≡ false → (create row w).1 ≡ w
other_rows row w h = ground (arith, h)

added :
    (key : Option Text) (w : Keys)
    → (add_anchor key w).0 ≡ none
    → Lacks key w × ((add_anchor key w).1 ≡ key ∷ w)
added key w =
    if-cases (λ (r : Option Text × Keys). r.0 ≡ none → Lacks key w × (r.1 ≡ key ∷ w))
      (any (same_key key) w) _ _ (λ _ h. absurd (some_not_none h))
      (λ e _. (any-Lacks key w e, refl))

laws : AnchorLaws tables (λ w. w)
laws = record {
  added = λ r w e. added r.hash w e;
  refused = λ r w e k. ground (arith, k);
  other_rows = other_rows;
  drep_rows = λ hash view w. refl;
  committee_rows = λ hash w. refl;
  updates = λ hash previous w. refl;
  queued = λ anchor url hash w. refl;
}

abbrev anchor : Text → Anchor
anchor url = record { url = url; data_hash = text "D" }

abbrev votes : List Vote
votes =
    record {
      action = record { transaction_id = text "A"; gov_action_idx = 0 };
      choice = 1;
      anchor = some (anchor (text "u"));
    }
    ∷ []

abbrev drep : Voter
drep = record { voter_type = 2; hash = text "V" }

abbrev proposal : Proposal
proposal = record {
  deposit = 100;
  anchor = anchor (text "v");
  gov_action = treasury_withdrawal ((text "K", 5) ∷ []);
}

abbrev transaction : GovTx
transaction = record {
  hash = text "T";
  voters = (drep, votes) ∷ [];
  proposals = proposal ∷ [];
  block_type = conway;
}

process_all-anchors_example :
    length (process_all tables (transaction ∷ []) (new_governance_processor [])).world ≤ 1
process_all-anchors_example = process_all-anchors tables (λ w. w) laws (transaction ∷ []) [] refl

pool-IsNew : IsNew tables (text "T") (text "P") (new_governance_processor [])
unfolding lookup
pool-IsNew = refl

process_votes-AreLost_example :
    AreLost tables (text "T") (text "P") 1 (new_governance_processor []) (
      process_votes tables
        (text "T")
        (record { voter_type = 4; hash = text "P" })
        votes
        (new_governance_processor []))
process_votes-AreLost_example =
    process_votes-AreLost tables (text "T") (text "P") votes (new_governance_processor [])
      (text "Duplicate entry", refl, refl) pool-IsNew
