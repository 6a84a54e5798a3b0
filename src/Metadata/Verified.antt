-- ===== src/Metadata/Verified.antt =====
-- What of a fetch is stored, and what becomes of the pseudo-IDs: metadata/fetcher.go.
use nectar.Prelude.{◌≤◌, ◌≡◌, true, false, length, any, is_empty, Text, text_eq}
use nectar.Prelude.Hex.{hex}
use nectar.Metadata.Rows.{ok}
use nectar.Metadata.Requests.{FetchConfig, FetchRequest}
use nectar.Metadata.Fetch.{Url, Remote}

module _ {Net Db : Type 0} (remote : Remote Net Db) (config : FetchConfig) (r : FetchRequest) where
  -- the URL is one that may be fetched, and the content is of the expected hash and size
  pub record Verified (u : Url) (content : Text) : Type 0 where
    pub parsed : remote.parse_url r.url ≡ ok u
    pub allowed : any (text_eq u.scheme) config.allowed_schemes ≡ true
    pub has_host : is_empty u.host ≡ false
    pub hashed : text_eq (hex (remote.sha256 content)) (hex r.expected_hash) ≡ true
    pub short : length content ≤ config.max_content_size

  Checked : Text → Type 0
  Checked c =
      (text_eq (hex (remote.sha256 c)) (hex r.expected_hash) ≡ true)
      × (length c ≤ config.max_content_size)
