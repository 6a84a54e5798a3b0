-- ===== src/Governance/Rows.antt =====
-- What processors/governance_processor.go gets of a transaction, the rows that it makes of it
-- (models/governance.go), and the state that it works on. The database, both the transaction and the
-- processor's own connection, and the fetcher's queue are parameters. What goes to the log alone is
-- left out.
use nectar.Prelude.{ℕ, Option, none, some, List, [], ◌∷◌, ◌++◌, ◌⊎◌, Text}
use nectar.Cache.Existence.{Existing, RowTable}

pub record Anchor : Type 0 where
  pub url : Text
  pub data_hash : Text

pub record GovActionId : Type 0 where
  pub transaction_id : Text
  pub gov_action_idx : ℕ

pub record Voter : Type 0 where
  pub voter_type : ℕ
  pub hash : Text

-- a vote: for which action, what, and its anchor
pub record Vote : Type 0 where
  pub action : GovActionId
  pub choice : ℕ
  pub anchor : Option Anchor

pub data GovAction : Type 0 where
  -- the previous action
  parameter_change : Option GovActionId → GovAction
  hard_fork_initiation : ℕ → ℕ → GovAction
  -- the stake key hash of each address, and the amount
  treasury_withdrawal : List (Text × ℕ) → GovAction
  no_confidence info : GovAction
  -- the credentials, which may be nil, and their epochs
  update_committee : List (Option Text × ℕ) → GovAction
  new_constitution : Anchor → GovAction
  unknown_action : GovAction

pub record Proposal : Type 0 where
  pub deposit : ℕ
  pub anchor : Anchor
  pub gov_action : GovAction

-- The types of certificate that have handlers.
pub data GovCertificate : Type 0 where
  registration_drep update_drep : Text → Option Anchor → GovCertificate
  deregistration_drep : Text → GovCertificate
  -- the cold and the hot credential
  auth_committee_hot : Text → Text → GovCertificate
  resign_committee_cold : Text → Option Anchor → GovCertificate
  other_certificate : GovCertificate

pub record VotingProcedure : Type 0 where
  pub tx_hash : Text
  pub index : ℕ
  pub gov_action_proposal_hash : Text
  pub voter_role : Text
  pub committee_voter : Option Text
  pub drep_voter : Option Text
  pub pool_voter : Option Text
  pub vote : Text
  pub voting_anchor_hash : Option Text

pub record GovActionProposal : Type 0 where
  pub hash : Text
  pub tx_hash : Text
  pub index : ℕ
  pub action_type : Text
  pub deposit : ℕ
  pub voting_anchor_hash : Option Text

-- The hash is the primary key.
pub record VotingAnchor : Type 0 where
  pub hash : Option Text
  pub url : Text
  pub data_hash : Text

-- a row of one of the tables
pub data GovRow : Type 0 where
  voting_row : VotingProcedure → GovRow
  proposal_row : GovActionProposal → GovRow
  anchor_row : VotingAnchor → GovRow
  -- the proposal, the address and the amount
  treasury_row : Text → Text → ℕ → GovRow
  -- the hash and the proposal; the quorum is 0.67
  committee_row : Text → Text → GovRow
  -- the member, from and until
  member_row : Text → ℕ → ℕ → GovRow
  -- the hash, the proposal, the script's hash and the anchor's
  constitution_row : Text → Text → Option Text → Option Text → GovRow
  -- the transaction, the index, the cold key and the hot key, or the anchor
  committee_registration_row : Text → ℕ → Text → Text → GovRow
  committee_deregistration_row : Text → ℕ → Text → Option Text → GovRow
  -- the transaction, the index, the address and the DRep
  delegation_vote_row : Text → ℕ → Text → Option Text → GovRow
  -- the DRep, the epoch and the amount
  drep_distr_row : Text → ℕ → ℕ → GovRow
  -- the pool's hash and its view
  pool_row : Text → Text → GovRow

-- `First` on the anchors: the hash of the data, no record, or another error.
pub data AnchorFound : Type 0 where
  anchor_there : Text → AnchorFound
  anchor_missing : AnchorFound
  anchor_failed : Text → AnchorFound

-- The queries and the inserts, which have no clause for a conflict, with their errors (`none` is
-- nil). `max_index` is 0 where the query fails.
pub record GovTables (World : Type 0) : Type 0 where
  pub drep_table : Text → Text → RowTable World
  pub committee_table : Text → RowTable World
  pub create : GovRow → World → Option Text × World
  pub find_anchor : Text → Text → World → AnchorFound
  -- sets the column `prev_gov_action_hash` of a proposal
  pub update_previous : Text → Text → World → Option Text × World
  pub max_index : Text → World → ℕ
  -- the sums of the stakes of an epoch by DRep
  pub drep_stakes : ℕ → World → Text ⊎ List (Text × ℕ)
  -- `QueueGovernanceMetadata`; without a fetcher it does nothing
  pub queue_metadata : Text → Text → Text → World → Option Text × World
  pub sha256 : Text → Text
  -- the eight bytes of 0.67
  pub quorum_bytes : Text

-- `collected` is what goes to the error collector, `warnings` to the unified error system.
pub record GovState (World : Type 0) : Type 0 where
  pub world : World
  pub drep_cache : Existing
  pub committee_cache : Existing
  pub pool_cache : Existing
  pub collected : List Text
  pub warnings : List Text

-- `NewGovernanceProcessor`
abbrev pub new_governance_processor : {World : Type 0} → World → GovState World
new_governance_processor w = record {
  world = w;
  drep_cache = [];
  committee_cache = [];
  pool_cache = [];
  collected = [];
  warnings = [];
}

abbrev pub label : Text → Option Text → Option Text
label message none = none
label message (some e) = some (message ++ e)

module _ {World : Type 0} where
  abbrev pub collect : Text → GovState World → GovState World
  collect message s = record s { collected = s.collected ++ (message ∷ []) }

  abbrev pub warn : Text → GovState World → GovState World
  warn message s = record s { warnings = s.warnings ++ (message ∷ []) }
