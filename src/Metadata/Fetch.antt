-- ===== src/Metadata/Fetch.antt =====
-- `processFetchRequest` of metadata/fetcher.go with the functions it calls. The packages that parse
-- URLs and JSON, SHA-256, the rate limiter, the HTTP client and the database are parameters.
use nectar.Prelude.{
  ℕ, ◌%◌, ◌^◌, Bool, not, Option, none, some, [], ◌++◌, ltb, ◌==◌, if◌then◌else◌, length, take, any,
  is_empty, Text, text, text_eq,
}
use nectar.Prelude.Hex.{hex, digits}
use nectar.Metadata.Json.{Json, Fields, end, string_field}
use nectar.Metadata.Rows.{
  Row, OffChainVoteData, pool_data, vote_data, pool_fetch_error, vote_fetch_error, Outcome, ok,
  failed, panicked, ◌>>=◌, wrap, asserted,
}
use nectar.Metadata.Requests.{FetchConfig, FetchRequest, context_hash}
use nectar.Metadata.Details.{validate_governance_metadata, store_governance_details}

pub record Url : Type 0 where
  pub scheme : Text
  pub host : Text

-- No response with the error, or the status and the body; the reading of the body may fail.
pub data Response : Type 0 where
  no_response : Text → Response
  response : ℕ → Text → Outcome Text → Response

pub record PoolMetadata : Type 0 where
  pub name : Text
  pub ticker : Text
  pub homepage : Text
  pub description : Text

pub record Remote (Net Db : Type 0) : Type 0 where
  pub parse_url : Text → Outcome Url
  -- `rateLimiter.Wait`: an error or none
  pub wait : Net → Option Text × Net
  pub get : Url → Net → Response × Net
  pub now : Net → ℕ
  pub sha256 : Text → Text
  -- `json.Unmarshal` into an `interface{}`, the pool's structure, and a map, which `null` leaves nil
  pub parse_json : Text → Outcome Json
  pub parse_pool : Text → Outcome PoolMetadata
  pub parse_object : Text → Outcome (Option Fields)
  pub author_hash : Text → Text → Option Text → Text
  pub create : Row → Db → Outcome Db
  -- whether the transaction can be committed
  pub commits : Db → Bool

module _ {Net Db : Type 0} (remote : Remote Net Db) (config : FetchConfig) where
  unfoldable pub check_url : Url → Outcome Url
  check_url u =
      if any (text_eq u.scheme) config.allowed_schemes
      then if is_empty u.host then failed (text "missing host") else ok u
      else failed (text "scheme not allowed: " ++ u.scheme)

  unfoldable pub validate_url : Text → Outcome Url
  unfolding check_url
  validate_url raw = remote.parse_url raw >>= check_url

  -- At most `MaxContentSize` bytes of the body are read.
  unfoldable pub read_response : Response → Outcome Text
  unfolding digits
  read_response (no_response e) = failed e
  read_response (response code status body) =
      if code == 200
      then (body >>= λ b. ok (take config.max_content_size b))
      else failed (text "HTTP " ++ digits code ++ text ": " ++ status)

  unfoldable pub fetch_url : Url → Net → Outcome Text × Net
  unfolding read_response
  fetch_url u net = let (r, net') = remote.get u net in (read_response r, net')

  unfoldable pub verify_hash : Text → Text → Bool
  unfolding hex
  verify_hash content expected = text_eq (hex (remote.sha256 content)) (hex expected)

  -- the hash, and the JSON where it is validated
  unfoldable pub check_content : FetchRequest → Text → Outcome Text
  unfolding verify_hash
  check_content r content =
      if not (verify_hash content r.expected_hash)
      then failed (text "hash mismatch")
      else if config.validate_json
      then (wrap (text "invalid JSON: ") (remote.parse_json content) >>= λ j. ok content)
      else ok content

  -- The rate limit, the fetch and the checks, for a URL that was validated.
  unfoldable pub fetch_checked : FetchRequest → Url → Net → Outcome Text × Net
  unfolding fetch_url check_content
  fetch_checked r u net =
      let (waited, net1) = remote.wait net in
      let (fetched, net2) = fetch_url u net1 in
      elim waited [
        | some e ↦ (failed (text "rate limiter error: " ++ e), net1)
        | none ↦ (wrap (text "fetch error: ") fetched >>= check_content r, net2)
      ]

  unfoldable pub fetch_from : FetchRequest → Net → Outcome Url → Outcome Text × Net
  unfolding fetch_checked
  fetch_from r net (ok u) = fetch_checked r u net
  fetch_from r net (failed e) = (failed (text "invalid URL: " ++ e), net)
  fetch_from r net panicked = (panicked, net)

  -- from the URL to the content that may be stored
  unfoldable pub fetch_content : FetchRequest → Net → Outcome Text × Net
  unfolding validate_url fetch_from
  fetch_content r net = fetch_from r net (validate_url r.url)

  unfoldable pub store_pool_metadata : FetchRequest → Text → Db → Outcome Db
  unfolding context_hash
  store_pool_metadata r content db = do
    meta ← wrap (text "failed to parse pool metadata: ") (remote.parse_pool content)
    pool_hash ← asserted (context_hash (text "pool_hash") r)
    pmr_hash ← asserted (context_hash (text "pmr_hash") r)
    wrap (text "failed to store pool metadata: ") (
        remote.create
          (pool_data (record {
            hash = r.expected_hash;
            pool_hash = pool_hash;
            ticker_name = if ltb 5 (length meta.ticker) then take 5 meta.ticker else meta.ticker;
            json = content;
            bytes = content;
            pmr_hash = pmr_hash;
          }))
          db)

  -- A nil map has no fields.
  abbrev fields_of : Option Fields → Fields
  fields_of none = end
  fields_of (some m) = m

  unfoldable pub vote_row : FetchRequest → Text → Text → Option Fields → OffChainVoteData
  unfolding validate_governance_metadata
  vote_row r anchor_hash content meta =
      let is_valid = validate_governance_metadata (fields_of meta) in
      record {
        hash = r.expected_hash;
        voting_anchor_hash = anchor_hash;
        language = string_field (text "@language") (fields_of meta);
        comment = string_field (text "comment") (fields_of meta);
        json = content;
        bytes = content;
        warning = if is_valid then [] else text "Invalid CIP-119 format";
        is_valid = is_valid;
      }

  -- A failed step rolls the transaction back; a store to the nil map panics; the error of the
  -- commit is not read.
  unfoldable pub store_governance_metadata : FetchRequest → Text → Db → Outcome Db
  unfolding context_hash vote_row store_governance_details
  store_governance_metadata r content db = do
    anchor_hash ← asserted (context_hash (text "anchor_hash") r)
    meta ← wrap (text "failed to parse governance metadata: ") (remote.parse_object content)
    stored ←
        wrap (text "failed to store vote data: ")
          (remote.create (vote_data (vote_row r anchor_hash content meta)) db)
    fields ← asserted meta
    detailed ← wrap (text "failed to store governance details: ") (
        store_governance_details remote.create remote.author_hash r.expected_hash anchor_hash fields
          stored)
    ok (if remote.commits detailed then detailed else db)

  unfoldable pub store_metadata : FetchRequest → Text → Db → Outcome Db
  unfolding store_pool_metadata store_governance_metadata
  store_metadata r content db =
      if text_eq r.kind (text "pool")
      then store_pool_metadata r content db
      else if text_eq r.kind (text "governance")
      then store_governance_metadata r content db
      else failed (text "unknown metadata type: " ++ r.kind)

  unfoldable pub process_fetch_request : FetchRequest → Net → Db → Outcome Db × Net
  unfolding fetch_content store_metadata
  process_fetch_request r net db =
      let (fetched, net') = fetch_content r net in
      (fetched >>= λ content. store_metadata r content db, net')

  -- `RetryCount` is stored as an `uint32`.
  unfoldable pub record_fetch_error : FetchRequest → Text → ℕ → Db → Outcome Db
  unfolding context_hash
  record_fetch_error r err time db =
      if text_eq r.kind (text "pool")
      then (do
        pool_hash ← asserted (context_hash (text "pool_hash") r)
        pmr_hash ← asserted (context_hash (text "pmr_hash") r)
        remote.create
            (pool_fetch_error (record {
              pool_hash = pool_hash;
              pmr_hash = pmr_hash;
              fetch_time = time;
              fetch_error = err;
              retry_count = r.retry_count % 2 ^ 32;
            }))
            db)
      else if text_eq r.kind (text "governance")
      then (do
        anchor_hash ← asserted (context_hash (text "anchor_hash") r)
        remote.create
            (vote_fetch_error (record {
              voting_anchor_hash = anchor_hash;
              fetch_time = time;
              fetch_error = err;
              retry_count = r.retry_count % 2 ^ 32;
            }))
            db)
      else ok db
