-- ===== src/Metadata/Requests.antt =====
-- The configuration and the requests of the fetcher of metadata/fetcher.go.
use nectar.Prelude.{
  ℕ, ◌+◌, ◌*◌, ◌%◌, ◌^◌, Bool, true, Option, none, some, List, [], ◌∷◌, take, Text, text,
  text_discrete,
}
use nectar.Prelude.Int.{ℤ, pos, negsuc, to_int64}
use nectar.Prelude.Dict.{lookup}

-- The rate limit, the timeouts and the user agent are the HTTP client's and the limiter's.
pub record FetchConfig : Type 0 where
  pub max_retries : ℕ
  pub retry_backoff : ℕ  -- in milliseconds
  pub max_content_size : ℕ
  pub worker_count : ℕ
  pub queue_size : ℕ
  pub allowed_schemes : List Text
  pub validate_json : Bool

unfoldable pub default_config : FetchConfig
default_config = record {
  max_retries = 3;
  retry_backoff = 5000;
  max_content_size = 10 * 1024 * 1024;
  worker_count = 5;
  queue_size = 1000;
  allowed_schemes = text "https" ∷ text "http" ∷ [];
  validate_json = true;
}

-- A value of the context is a hash or a pseudo-ID.
pub data ContextValue : Type 0 where
  hash_value : Text → ContextValue
  id_value : ℤ → ContextValue

pub record FetchRequest : Type 0 where
  pub id : ℤ
  pub kind : Text
  pub url : Text
  pub expected_hash : Text
  pub retry_count : ℕ
  pub context : List (Text × ContextValue)

abbrev pub as_hash : Option ContextValue → Option Text
as_hash (some (hash_value h)) = some h
as_hash _ = none

-- `req.Context[key].([]byte)`
unfoldable pub context_hash : Text → FetchRequest → Option Text
unfolding lookup text_discrete
context_hash key r = as_hash (lookup text_discrete key r.context)

-- the bits of `id << 8 | b`, for each byte
unfoldable pub shift_in : ℕ → Text → ℕ
shift_in id [] = id
shift_in id (b ∷ bs) = shift_in ((id * 256 + b) % 2 ^ 64) bs

-- `-id` for a negative `int64`, which leaves the least one as it is
abbrev pub make_positive : ℤ → ℤ
make_positive (pos n) = pos n
make_positive (negsuc n) = to_int64 (n + 1)

-- `hashToID`
unfoldable pub hash_to_id : Text → ℤ
unfolding shift_in to_int64
hash_to_id hash = make_positive (to_int64 (shift_in 0 (take 8 hash)))

unfoldable pub pool_request : Text → Text → Text → Text → FetchRequest
unfolding hash_to_id
pool_request pool_hash pmr_hash url hash = record {
  id = hash_to_id pmr_hash;
  kind = text "pool";
  url = url;
  expected_hash = hash;
  retry_count = 0;
  context =
      (text "pool_hash", hash_value pool_hash)
      ∷ (text "pmr_hash", hash_value pmr_hash)
      ∷ (text "pool_id", id_value (hash_to_id pool_hash))
      ∷ (text "pmr_id", id_value (hash_to_id pmr_hash))
      ∷ [];
}

unfoldable pub governance_request : Text → Text → Text → FetchRequest
unfolding hash_to_id
governance_request anchor_hash url hash = record {
  id = hash_to_id anchor_hash;
  kind = text "governance";
  url = url;
  expected_hash = hash;
  retry_count = 0;
  context =
      (text "anchor_hash", hash_value anchor_hash)
      ∷ (text "anchor_id", id_value (hash_to_id anchor_hash))
      ∷ [];
}
