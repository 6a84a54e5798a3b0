-- ===== src/Metadata/Rows.antt =====
-- The rows that the fetcher creates: the structures of models/offchain.go, and the results of its
-- operations.
use nectar.Prelude.{ℕ, ◌≡◌, refl, Bool, Option, none, some, Text, ◌++◌}

pub record OffChainPoolData : Type 0 where
  pub hash : Text
  pub pool_hash : Text
  pub ticker_name : Text
  pub json : Text
  pub bytes : Text
  pub pmr_hash : Text

pub record OffChainPoolFetchError : Type 0 where
  pub pool_hash : Text
  pub pmr_hash : Text
  pub fetch_time : ℕ
  pub fetch_error : Text
  pub retry_count : ℕ

pub record OffChainVoteData : Type 0 where
  pub hash : Text
  pub voting_anchor_hash : Text
  pub language : Text
  pub comment : Text
  pub json : Text
  pub bytes : Text
  pub warning : Text
  pub is_valid : Bool

pub record OffChainVoteGovActionData : Type 0 where
  pub off_chain_vote_data_hash : Text
  pub voting_anchor_hash : Text
  pub language : Text
  pub title : Text
  pub abstract : Text
  pub motivation : Text
  pub rationale : Text

pub record OffChainVoteDrepData : Type 0 where
  pub off_chain_vote_data_hash : Text
  pub drep_hash_raw : Text
  pub voting_anchor_hash : Text
  pub language : Text
  pub comment : Text
  pub bio : Text
  pub email : Text
  pub payment_address : Text
  pub given_name : Text
  pub image : Text
  pub objectives : Text
  pub motivations : Text
  pub qualifications : Text
  pub do_not_list : Bool

pub record OffChainVoteAuthor : Type 0 where
  pub hash : Text
  pub off_chain_vote_data_hash : Text
  pub name : Text
  pub witness : Option Text

pub record OffChainVoteReference : Type 0 where
  pub off_chain_vote_data_hash : Text
  pub label : Text
  pub uri : Text
  pub reference_hash : Option Text

pub record OffChainVoteFetchError : Type 0 where
  pub voting_anchor_hash : Text
  pub fetch_time : ℕ
  pub fetch_error : Text
  pub retry_count : ℕ

pub data Row : Type 0 where
  pool_data : OffChainPoolData → Row
  pool_fetch_error : OffChainPoolFetchError → Row
  vote_data : OffChainVoteData → Row
  gov_action_data : OffChainVoteGovActionData → Row
  drep_data : OffChainVoteDrepData → Row
  author_data : OffChainVoteAuthor → Row
  reference_data : OffChainVoteReference → Row
  vote_fetch_error : OffChainVoteFetchError → Row

-- a value, an error with its text, or a panic
pub data Outcome {ℓ} (A : Type ℓ) : Type ℓ where
  ok : A → Outcome A
  failed : Text → Outcome A
  panicked : Outcome A

infixl 5 ◌>>=◌
abbrev pub ◌>>=◌ {ℓ κ} : {A : Type ℓ} {B : Type κ} → Outcome A → (A → Outcome B) → Outcome B
ok a >>= f = f a
failed e >>= f = failed e
panicked >>= f = panicked

-- `fmt.Errorf("…: %w", err)`
abbrev pub wrap {ℓ} : {A : Type ℓ} → Text → Outcome A → Outcome A
wrap prefix (ok a) = ok a
wrap prefix (failed e) = failed (prefix ++ e)
wrap prefix panicked = panicked

-- the value of a field whose type assertion is not tested
abbrev pub asserted {ℓ} : {A : Type ℓ} → Option A → Outcome A
asserted none = panicked
asserted (some a) = ok a

-- A chain that succeeds has a first step that succeeds.
pub >>=-ok {ℓ κ} :
    {A : Type ℓ} {B : Type κ} (m : Outcome A) (f : A → Outcome B) (b : B)
    → (m >>= f) ≡ ok b
    → (a : A) × (m ≡ ok a) × (f a ≡ ok b)
>>=-ok (ok a) f b e = (a, refl, e)
>>=-ok (failed x) f b e = absurd (cc)
>>=-ok panicked f b e = absurd (cc)

pub wrap-ok {ℓ} :
    {A : Type ℓ} (prefix : Text) (m : Outcome A) (a : A) → wrap prefix m ≡ ok a → m ≡ ok a
wrap-ok prefix (ok x) a e = e
wrap-ok prefix (failed x) a e = absurd (cc)
wrap-ok prefix panicked a e = absurd (cc)

pub ok_injective {ℓ} : {A : Type ℓ} {a b : A} → ok a ≡ ok b → a ≡ b
ok_injective e = cc

pub failed_not_ok {ℓ} : {A : Type ℓ} {e : Text} {a : A} → ¬ (failed e ≡ ok a)
failed_not_ok = λ h. cc
