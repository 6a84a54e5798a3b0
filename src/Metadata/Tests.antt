-- ===== src/Metadata/Tests.antt =====
-- A fetcher of one pool's metadata and of one document, over a database that counts its rows.
use nectar.Prelude.{ℕ, zero, suc, ◌*◌, ◌≤◌, ◌≢◌, refl, true, none, some, List, [], ◌∷◌, Text, text}
use nectar.Metadata.Json.{Fields, str, array, object, nil, cons, end, entry, field}
use nectar.Metadata.Rows.{Row, ok, panicked}
use nectar.Metadata.Requests.{default_config, FetchRequest, pool_request}
use nectar.Metadata.Fetch.{Url, Response, response, Remote}
use nectar.Metadata.Details.{store_governance_details}
use nectar.Metadata.Workers.{Scans, FetchEvent, queues_pool, takes, marks, finishes, wakes, start}
use nectar.Metadata.Verified.{Verified}
use nectar.Metadata.Named.{
  HasString, AllNamed, AllLabelled, WellTyped, store_governance_details-safe,
}
use nectar.Metadata.Attempts.{accepted, attempted, count_run, attempted-accepted}

abbrev digest : Text
digest = 1 ∷ 2 ∷ []

abbrev host : Url
host = record { scheme = text "https"; host = text "a.b" }

-- The network counts the requests; the first one is not found.
abbrev answer : ℕ → Response
answer zero = response 404 (text "404 Not Found") (ok [])
answer (suc n) = response 200 (text "200 OK") (ok (text "{}"))

abbrev remote : Remote ℕ ℕ
remote = record {
  parse_url = λ raw. ok host;
  wait = λ n. (none, n);
  get = λ u n. (answer n, suc n);
  now = λ n. n;
  sha256 = λ x. digest;
  parse_json = λ x. ok (object end);
  parse_pool = λ x.
      ok (record { name = text "P"; ticker = text "TICKERS"; homepage = []; description = [] });
  parse_object = λ x. ok (some end);
  author_hash = λ d n w. n;
  create = λ row n. ok (suc n);
  commits = λ n. true;
}

abbrev scanner : Scans ℕ
scanner = record { unfetched_pools = λ m n. some []; unfetched_anchors = λ m n. some [] }

unfoldable request : FetchRequest
unfolding pool_request
request = pool_request (text "P") (text "R") (text "https://a.b/p.json") digest

abbrev events : List FetchEvent
events =
    queues_pool (text "P") (text "R") (text "https://a.b/p.json") digest true
    ∷ takes
    ∷ marks 0
    ∷ finishes 0
    ∷ wakes 0
    ∷ takes
    ∷ marks 0
    ∷ finishes 0
    ∷ []

attempted-accepted_example :
    count_run remote scanner default_config
      (attempted remote scanner default_config)
      events
      (start default_config 0 0)
    ≤ count_run remote scanner default_config
        (accepted remote scanner default_config)
        events
        (start default_config 0 0)
      * suc default_config.max_retries
attempted-accepted_example = attempted-accepted remote scanner default_config 0 0 events

-- an author with a name, and no references
abbrev document : Fields
document =
    entry (text "authors") (array (cons (object (entry (text "name") (str (text "A")) end)) nil))
      end

document-WellTyped : WellTyped document
unfolding AllNamed AllLabelled HasString field
document-WellTyped = record { authors = ((text "A", refl), tt); references = tt }

creates : (row : Row) (n : ℕ) → remote.create row n ≢ panicked
creates row n = λ p. cc

store_governance_details-safe_example :
    store_governance_details remote.create remote.author_hash digest digest document 0 ≢ panicked
store_governance_details-safe_example =
    store_governance_details-safe remote.create remote.author_hash digest creates digest document 0
      document-WellTyped

-- the hash whose ID is negative
