-- ===== src/Metadata/Details.antt =====
-- `storeGovernanceDetails` and `validateGovernanceMetadata` of metadata/fetcher.go. `create` stores
-- a row in the transaction or gives an error; `author_hash` is the hash of an author.
use nectar.Prelude.{Bool, true, false, Option, none, some, [], if◌then◌else◌, Text, text, text_eq}
use nectar.Prelude.Hex.{hex_decode}
use nectar.Metadata.Json.{
  Items, Fields, nil, cons, field, as_string, as_bool, as_array, as_object, string_field,
}
use nectar.Metadata.Rows.{
  Row, OffChainVoteGovActionData, OffChainVoteDrepData, gov_action_data, drep_data, author_data,
  reference_data, Outcome, ok, ◌>>=◌, asserted,
}

abbrev pub context_url : Text
context_url = text "https://github.com/cardano-foundation/CIPs/blob/master/CIP-0119/CIP-0119.jsonld"

abbrev is_context : Option Text → Bool
is_context none = false
is_context (some url) = text_eq url context_url

abbrev names_context : Option Fields → Bool
unfolding field
names_context none = false
names_context (some context) = is_context (as_string (field (text "CIP119") context))

abbrev is_present {ℓ} : {A : Type ℓ} → Option A → Bool
is_present none = false
is_present (some a) = true

unfoldable pub validate_governance_metadata : Fields → Bool
unfolding field
validate_governance_metadata meta =
    if is_present (field (text "@context") meta)
    then if is_present (field (text "@type") meta)
      then names_context (as_object (field (text "@context") meta))
      else false
    else false

-- a hex-encoded field: nothing where it is missing or not hexadecimal
unfoldable pub hex_field : Text → Fields → Option Text
unfolding field hex_decode
hex_field key m = elim (as_string (field key m)) [ none ↦ none | some s ↦ hex_decode s ]

unfoldable pub gov_action_row : Text → Text → Fields → OffChainVoteGovActionData
gov_action_row vote_data_hash anchor_hash meta = record {
  off_chain_vote_data_hash = vote_data_hash;
  voting_anchor_hash = anchor_hash;
  language = string_field (text "@language") meta;
  title = string_field (text "title") meta;
  abstract = string_field (text "abstract") meta;
  motivation = string_field (text "motivation") meta;
  rationale = string_field (text "rationale") meta;
}

unfoldable pub drep_row : Text → Text → Fields → OffChainVoteDrepData
unfolding field
drep_row vote_data_hash anchor_hash meta = record {
  off_chain_vote_data_hash = vote_data_hash;
  drep_hash_raw = [];
  voting_anchor_hash = anchor_hash;
  language = string_field (text "@language") meta;
  comment = string_field (text "comment") meta;
  bio = string_field (text "bio") meta;
  email = string_field (text "email") meta;
  payment_address = string_field (text "paymentAddress") meta;
  given_name = string_field (text "givenName") meta;
  image = string_field (text "image") meta;
  objectives = string_field (text "objectives") meta;
  motivations = string_field (text "motivations") meta;
  qualifications = string_field (text "qualifications") meta;
  do_not_list = as_bool (field (text "doNotList") meta);
}

module _ {Db : Type 0} (create : Row → Db → Outcome Db)
    (author_hash : Text → Text → Option Text → Text) (vote_data_hash : Text) where
  unfoldable pub store_author : Option Fields → Db → Outcome Db
  unfolding hex_field field
  store_author none db = ok db
  store_author (some author) db = do
    name ← asserted (as_string (field (text "name") author))
    let witness = hex_field (text "witness") author
    create
        (author_data (record {
          hash = author_hash vote_data_hash name witness;
          off_chain_vote_data_hash = vote_data_hash;
          name = name;
          witness = witness;
        }))
        db

  unfoldable pub store_authors : Items → Db → Outcome Db
  unfolding store_author
  store_authors nil db = ok db
  store_authors (cons j rest) db = store_author (as_object (some j)) db >>= store_authors rest

  unfoldable pub store_reference : Option Fields → Db → Outcome Db
  unfolding hex_field field
  store_reference none db = ok db
  store_reference (some ref) db = do
    label ← asserted (as_string (field (text "label") ref))
    uri ← asserted (as_string (field (text "uri") ref))
    create
        (reference_data (record {
          off_chain_vote_data_hash = vote_data_hash;
          label = label;
          uri = uri;
          reference_hash = hex_field (text "hashDigest") ref;
        }))
        db

  unfoldable pub store_references : Items → Db → Outcome Db
  unfolding store_reference
  store_references nil db = ok db
  store_references (cons j rest) db =
      store_reference (as_object (some j)) db >>= store_references rest

  -- the rows of the document's type
  unfoldable pub store_typed : Text → Text → Fields → Db → Outcome Db
  unfolding gov_action_row drep_row
  store_typed meta_type anchor_hash meta db =
      if text_eq meta_type (text "GovernanceAction")
      then create (gov_action_data (gov_action_row vote_data_hash anchor_hash meta)) db
      else if text_eq meta_type (text "DRepMetadata")
      then create (drep_data (drep_row vote_data_hash anchor_hash meta)) db
      else ok db

  -- a list of the document, where it is there
  abbrev pub if_present : Option Items → (Items → Db → Outcome Db) → Db → Outcome Db
  if_present none store_all db = ok db
  if_present (some xs) store_all db = store_all xs db

  unfoldable pub store_governance_details : Text → Fields → Db → Outcome Db
  unfolding store_typed store_authors store_references field
  store_governance_details anchor_hash meta db = do
    typed ← store_typed (string_field (text "@type") meta) anchor_hash meta db
    named ← if_present (as_array (field (text "authors") meta)) store_authors typed
    if_present (as_array (field (text "references") meta)) store_references named
