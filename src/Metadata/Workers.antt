-- ===== src/Metadata/Workers.antt =====
-- The `Fetcher` of metadata/fetcher.go: its queue, its workers, the goroutines that send a request
-- again after a wait, and the scanner, as a state that events change one at a time. A worker that
-- has taken a request tests and marks the URL in two steps. A send to the closed queue, a second
-- close and a failed type assertion panic, which ends the program.
use nectar.Prelude.{
  ℕ, zero, suc, ◌-◌, ◌*◌, Bool, not, true, false, ◌&&◌, ◌||◌, Option, none, some, List, [], ◌∷◌,
  ◌++◌, ltb, if◌then◌else◌, length, Text, text, text_eq, contains, text_discrete,
}
use nectar.Prelude.Dict.{lookup, insert, erase}
use nectar.Metadata.Rows.{Outcome, ok, failed, panicked}
use nectar.Metadata.Requests.{FetchConfig, FetchRequest, pool_request, governance_request}
use nectar.Metadata.Fetch.{Remote, process_fetch_request, record_fetch_error}

pub record Fetcher (Net Db : Type 0) : Type 0 where
  pub queue : List FetchRequest
  pub processing : List (Text × Bool)
  -- the goroutines that wait, with their waits in milliseconds, and then send
  pub sleeping : List (ℕ × FetchRequest)
  -- the workers that have taken a request: those that mark it next, and those that have marked it
  pub checked : List FetchRequest
  pub busy : List FetchRequest
  pub idle : ℕ
  pub cancelled : Bool
  pub closed : Bool
  pub crashed : Bool
  -- what goes to the unified error system, with the retry count
  pub logged : List (Text × ℕ)
  pub net : Net
  pub db : Db

-- `New` and `Start`
unfoldable pub start : {Net Db : Type 0} → FetchConfig → Net → Db → Fetcher Net Db
start config net db = record {
  queue = [];
  processing = [];
  sleeping = [];
  checked = [];
  busy = [];
  idle = config.worker_count;
  cancelled = false;
  closed = false;
  crashed = false;
  logged = [];
  net = net;
  db = db;
}

-- the element at a place, and the others
unfoldable pub pick {ℓ} : {A : Type ℓ} → ℕ → List A → Option (A × List A)
pick n [] = none
pick zero (x ∷ xs) = some (x, xs)
pick (suc n) (x ∷ xs) = elim (pick n xs) [ none ↦ none | some p ↦ some (p.0, x ∷ p.1) ]

-- the unfetched rows that a query of the scanner finds
pub record Scans (Db : Type 0) : Type 0 where
  -- pool hash, reference hash, URL and hash
  pub unfetched_pools : ℕ → Db → Option (List (Text × Text × Text × Text))
  -- anchor hash, URL and hash
  pub unfetched_anchors : ℕ → Db → Option (List (Text × Text × Text))

-- The environment's choices: which request, and what a `select` takes when several cases are ready.
pub data FetchEvent : Type 0 where
  queues_pool : Text → Text → Text → Text → Bool → FetchEvent
  queues_governance : Text → Text → Text → Bool → FetchEvent
  takes : FetchEvent
  marks : ℕ → FetchEvent
  finishes : ℕ → FetchEvent
  wakes : ℕ → FetchEvent
  scans : Bool → FetchEvent
  cleans : FetchEvent
  exits : FetchEvent
  cancels : FetchEvent
  closes : FetchEvent

module _ {Net Db : Type 0} (remote : Remote Net Db) (scanner : Scans Db)
    (config : FetchConfig) where
  -- the `select` of the two queueing functions
  unfoldable pub queue_request : FetchRequest → Bool → Fetcher Net Db → Fetcher Net Db × Option Text
  queue_request r sends f =
      if (f.closed || ltb (length f.queue) config.queue_size) && (sends || not f.cancelled)
      then (
        if f.closed then record f { crashed = true } else record f { queue = f.queue ++ (r ∷ []) },
        none,
      )
      else if f.cancelled
      then (f, some (text "fetcher is shutting down"))
      else (f, some (text "queue is full"))

  -- A worker takes the first request; one whose URL is processed waits for five seconds.
  unfoldable pub take_request : Fetcher Net Db → Fetcher Net Db
  unfolding lookup text_discrete
  take_request f = elim f.idle [
    | zero ↦ f
    | suc idle ↦ elim f.queue [
      | [] ↦ f
      | r ∷ rest ↦ elim (lookup text_discrete r.url f.processing) [
        | none ↦ record f { queue = rest; idle = idle; checked = r ∷ f.checked }
        | some b ↦ record f { queue = rest; sleeping = (5000, r) ∷ f.sleeping }
      ]
    ]
  ]

  -- `setProcessing(req.URL, true)`
  unfoldable pub mark_processing :
      FetchRequest → List FetchRequest → Fetcher Net Db → Fetcher Net Db
  unfolding insert text_discrete
  mark_processing r others f = record f {
    checked = others;
    busy = r ∷ f.busy;
    processing = insert text_discrete r.url true f.processing;
  }

  -- the errors of a pool's metadata that are expected
  unfoldable pub is_expected : FetchRequest → Text → Bool
  unfolding contains
  is_expected r err =
      text_eq r.kind (text "pool")
      && (contains (text "404") err
          || contains (text "no such host") err
          || contains (text "hash mismatch") err)

  unfoldable pub log_failure : FetchRequest → Text → Fetcher Net Db → Fetcher Net Db
  unfolding is_expected
  log_failure r err f =
      if is_expected r err then f else record f { logged = f.logged ++ ((err, r.retry_count) ∷ []) }

  abbrev retried : FetchRequest → FetchRequest
  retried r = record r { retry_count = suc r.retry_count }

  -- A failed request waits for its next attempt, or its failure is recorded.
  unfoldable pub retry_or_record : FetchRequest → Text → Fetcher Net Db → Fetcher Net Db
  unfolding record_fetch_error
  retry_or_record r err f =
      if ltb r.retry_count config.max_retries
      then record f {
        sleeping = (config.retry_backoff * suc r.retry_count, retried r) ∷ f.sleeping;
      }
      else elim (record_fetch_error remote config r err (remote.now f.net) f.db) [
        | ok db ↦ record f { db = db }
        | failed e ↦ record f { logged = f.logged ++ ((e, r.retry_count) ∷ []) }
        | panicked ↦ record f { crashed = true }
      ]

  -- The worker's request is done with, and `setProcessing(req.URL, false)`.
  unfoldable pub unmark : FetchRequest → List FetchRequest → Net → Fetcher Net Db → Fetcher Net Db
  unfolding erase text_discrete
  unmark r others net f = record f {
    busy = others;
    idle = suc f.idle;
    processing = erase text_discrete r.url f.processing;
    net = net;
  }

  unfoldable pub settle : FetchRequest → Outcome Db → Fetcher Net Db → Fetcher Net Db
  unfolding log_failure retry_or_record
  settle r (ok db) f = record f { db = db }
  settle r (failed err) f = retry_or_record r err (log_failure r err f)
  settle r panicked f = record f { crashed = true }

  -- The worker processes its request, unmarks the URL, and is idle again.
  unfoldable pub finish_request : FetchRequest → List FetchRequest → Fetcher Net Db → Fetcher Net Db
  unfolding process_fetch_request unmark settle
  finish_request r others f =
      let (result, net) = process_fetch_request remote config r f.net f.db in
      settle r result (unmark r others net f)

  -- `f.queue <- req` of a goroutine, which waits while the queue is full
  unfoldable pub wake_request :
      FetchRequest → List (ℕ × FetchRequest) → Fetcher Net Db → Fetcher Net Db
  wake_request r others f =
      if f.closed
      then record f { crashed = true }
      else if ltb (length f.queue) config.queue_size
      then record f { sleeping = others; queue = f.queue ++ (r ∷ []) }
      else f

  unfoldable pub queue_pools :
      List (Text × Text × Text × Text) → Bool → Fetcher Net Db → Fetcher Net Db
  unfolding queue_request pool_request
  queue_pools [] sends f = f
  queue_pools ((pool_hash, pmr_hash, url, hash) ∷ rows) sends f =
      queue_pools rows sends (queue_request (pool_request pool_hash pmr_hash url hash) sends f).0

  unfoldable pub queue_anchors : List (Text × Text × Text) → Bool → Fetcher Net Db → Fetcher Net Db
  unfolding queue_request governance_request
  queue_anchors [] sends f = f
  queue_anchors ((anchor_hash, url, hash) ∷ rows) sends f =
      queue_anchors rows sends (queue_request (governance_request anchor_hash url hash) sends f).0

  -- The errors of the queueing are passed over; a failed query ends the scan.
  unfoldable pub scan_unfetched_metadata : Bool → Fetcher Net Db → Fetcher Net Db
  unfolding queue_pools queue_anchors
  scan_unfetched_metadata sends f = elim (scanner.unfetched_pools config.max_retries f.db) [
    | none ↦ f
    | some pools ↦
        let f1 = queue_pools pools sends f in
        elim (scanner.unfetched_anchors config.max_retries f1.db) [
          | none ↦ f1
          | some anchors ↦ queue_anchors anchors sends f1
        ]
  ]

  unfoldable pub fetch_step : FetchEvent → Fetcher Net Db → Fetcher Net Db
  unfolding queue_request pool_request governance_request take_request mark_processing
      finish_request wake_request scan_unfetched_metadata pick
  fetch_step (queues_pool pool_hash pmr_hash url hash sends) f =
      (queue_request (pool_request pool_hash pmr_hash url hash) sends f).0
  fetch_step (queues_governance anchor_hash url hash sends) f =
      (queue_request (governance_request anchor_hash url hash) sends f).0
  fetch_step takes f = take_request f
  fetch_step (marks i) f = elim (pick i f.checked) [ none ↦ f | some p ↦ mark_processing p.0 p.1 f ]
  fetch_step (finishes i) f = elim (pick i f.busy) [ none ↦ f | some p ↦ finish_request p.0 p.1 f ]
  fetch_step (wakes i) f = elim (pick i f.sleeping) [ none ↦ f | some p ↦ wake_request p.0.1 p.1 f ]
  fetch_step (scans sends) f = scan_unfetched_metadata sends f
  fetch_step cleans f = record f { processing = [] }
  fetch_step exits f = if f.cancelled || f.closed then record f { idle = f.idle - 1 } else f
  fetch_step cancels f = record f { cancelled = true }
  fetch_step closes f = if f.closed then record f { crashed = true } else record f { closed = true }

  -- Nothing happens after a panic.
  unfoldable pub fetch_event : FetchEvent → Fetcher Net Db → Fetcher Net Db
  unfolding fetch_step
  fetch_event e f = if f.crashed then f else fetch_step e f

  unfoldable pub fetch_run : List FetchEvent → Fetcher Net Db → Fetcher Net Db
  unfolding fetch_event
  fetch_run [] f = f
  fetch_run (e ∷ es) f = fetch_run es (fetch_event e f)
