-- ===== src/Metadata/Attempts.antt =====
-- How often the fetcher of metadata/fetcher.go attempts its requests.
use nectar.Prelude.{
  ℕ, suc, ◌+◌, ◌-◌, ◌*◌, ◌≤◌, ◌≡◌, inl, inr, refl, Bool, not, true, false, ◌&&◌, ◌||◌, Option, none,
  some, List, [], ◌∷◌, ◌++◌, ltb, if◌then◌else◌, if-cases, option-cases_eq, length, length-append,
  Text, arith, subst,
}
use nectar.Metadata.Requests.{FetchConfig, FetchRequest, pool_request, governance_request}
use nectar.Metadata.Fetch.{Remote}
use nectar.Metadata.Workers.{
  Fetcher, start, pick, Scans, FetchEvent, queues_pool, queues_governance, takes, marks, finishes,
  wakes, scans, cleans, exits, cancels, closes, queue_request, mark_processing, finish_request,
  queue_pools, queue_anchors, scan_unfetched_metadata, fetch_step, fetch_event, fetch_run,
}
use nectar.Metadata.InFlight.{
  total, total-append, total-pick, in_flight, Retried, take_request-in_flight,
  wake_request-in_flight, finish_request-Retried,
}

module _ {Net Db : Type 0} (remote : Remote Net Db) (scanner : Scans Db)
    (config : FetchConfig) where
  -- the attempts that a request has left
  unfoldable pub left : FetchRequest → ℕ
  left r = suc (config.max_retries - r.retry_count)

  -- the requests that an event puts into the queue for the first time
  unfoldable pub accepted : FetchEvent → Fetcher Net Db → ℕ
  unfolding fetch_step
  accepted (queues_pool a b c d s) f =
      length (fetch_step remote scanner config (queues_pool a b c d s) f).queue - length f.queue
  accepted (queues_governance a b c s) f =
      length (fetch_step remote scanner config (queues_governance a b c s) f).queue - length f.queue
  accepted (scans s) f =
      length (fetch_step remote scanner config (scans s) f).queue - length f.queue
  accepted _ f = 0

  -- the requests that an event fetches
  unfoldable pub attempted : FetchEvent → Fetcher Net Db → ℕ
  unfolding pick
  attempted (finishes i) f = elim (pick i f.busy) [ none ↦ 0 | some p ↦ 1 ]
  attempted _ f = 0

  -- a count over a run; nothing is counted after a panic
  unfoldable pub count_run :
      (FetchEvent → Fetcher Net Db → ℕ) → List FetchEvent → Fetcher Net Db → ℕ
  unfolding fetch_event
  count_run c [] f = 0
  count_run c (e ∷ es) f =
      (if f.crashed then 0 else c e f) + count_run c es (fetch_event remote scanner config e f)

  abbrev held : Fetcher Net Db → ℕ
  held f = in_flight left f

  -- some requests with all their attempts are put into the queue
  Grows : Fetcher Net Db → Fetcher Net Db → Type 0
  Grows f g =
      (n : ℕ) × (length g.queue ≡ length f.queue + n)
      × (held g ≡ held f + n * suc config.max_retries)

  Grows-refl : (f : Fetcher Net Db) → Grows f f
  unfolding Grows
  Grows-refl f = (0, omega arith, omega arith)

  crashed-Grows : (f : Fetcher Net Db) → Grows f (record f { crashed = true })
  unfolding Grows in_flight
  crashed-Grows f = (0, omega arith, omega arith)

  Grows-trans : (f g h : Fetcher Net Db) → Grows f g → Grows g h → Grows f h
  unfolding Grows
  Grows-trans f g h (n, l, e) (n', l', e') = (n + n', omega (arith, l, l'), omega (arith, e, e'))

  appended-Grows :
      (r : FetchRequest) (f : Fetcher Net Db)
      → r.retry_count ≡ 0
      → Grows f (record f { queue = f.queue ++ (r ∷ []) })
  unfolding Grows in_flight left total
  appended-Grows r f z = (
    1,
    omega (arith, length-append f.queue (r ∷ [])),
    omega (arith, z, total-append left f.queue (r ∷ [])),
  )

  Queued : Fetcher Net Db → Fetcher Net Db × Option Text → Type 0
  Queued f p = Grows f p.0

  queued : (f : Fetcher Net Db) (p : Fetcher Net Db × Option Text) → Grows f p.0 → Queued f p
  unfolding Queued
  queued f p g = g

  queue_request-Queued :
      (r : FetchRequest) (s : Bool) (f : Fetcher Net Db)
      → r.retry_count ≡ 0
      → Queued f (queue_request remote scanner config r s f)
  unfolding queue_request
  queue_request-Queued r s f z =
      if-cases (Queued f)
        ((f.closed || ltb (length f.queue) config.queue_size) && (s || not f.cancelled)) _ _
        (λ _.
          queued f _
            (if-cases (Grows f) f.closed _ _ (λ _. crashed-Grows f) (λ _. appended-Grows r f z)))
        (λ _.
          if-cases (Queued f) f.cancelled _ _ (λ _. queued f _ (Grows-refl f))
            (λ _. queued f _ (Grows-refl f)))

  queue_request-Grows :
      (r : FetchRequest) (s : Bool) (f : Fetcher Net Db)
      → r.retry_count ≡ 0
      → Grows f (queue_request remote scanner config r s f).0
  unfolding Queued
  queue_request-Grows r s f z = queue_request-Queued r s f z

  queue_pools-Grows :
      (rows : List (Text × Text × Text × Text)) (s : Bool) (f : Fetcher Net Db)
      → Grows f (queue_pools remote scanner config rows s f)
  unfolding queue_pools pool_request
  queue_pools-Grows [] s f = Grows-refl f
  queue_pools-Grows ((a, b, c, d) ∷ rows) s f =
      Grows-trans f _ _ (queue_request-Grows (pool_request a b c d) s f refl)
        (queue_pools-Grows rows s _)

  queue_anchors-Grows :
      (rows : List (Text × Text × Text)) (s : Bool) (f : Fetcher Net Db)
      → Grows f (queue_anchors remote scanner config rows s f)
  unfolding queue_anchors governance_request
  queue_anchors-Grows [] s f = Grows-refl f
  queue_anchors-Grows ((a, b, c) ∷ rows) s f =
      Grows-trans f _ _ (queue_request-Grows (governance_request a b c) s f refl)
        (queue_anchors-Grows rows s _)

  scan_unfetched_metadata-Grows :
      (s : Bool) (f : Fetcher Net Db) → Grows f (scan_unfetched_metadata remote scanner config s f)
  unfolding scan_unfetched_metadata
  scan_unfetched_metadata-Grows s f =
      option-cases_eq (Grows f) (scanner.unfetched_pools config.max_retries f.db) _ _
        (λ _. Grows-refl f)
        (λ pools _.
          let f1 = queue_pools remote scanner config pools s f in
          let g = queue_pools-Grows pools s f in
          option-cases_eq (Grows f) (scanner.unfetched_anchors config.max_retries f1.db) _ _
            (λ _. g) (λ anchors _. Grows-trans f f1 _ g (queue_anchors-Grows anchors s f1)))

  -- the attempts left, after an event
  Pays : ℕ → ℕ → Fetcher Net Db → Fetcher Net Db → Type 0
  Pays attempts accepts f g = attempts + held g ≤ held f + accepts * suc config.max_retries

  grown :
      (xs ys : List FetchRequest) (n : ℕ) → length xs ≡ length ys + n → n ≡ length xs - length ys
  grown xs ys n l = omega (arith, l)

  Grows-Pays : (f g : Fetcher Net Db) → Grows f g → Pays 0 (length g.queue - length f.queue) f g
  unfolding Grows Pays
  Grows-Pays f g (n, l, e) =
      subst (λ k. 0 + held g ≤ held f + k * suc config.max_retries) (grown g.queue f.queue n l)
        (omega (arith, e))

  finish_request-Pays :
      (r : FetchRequest) (others : List FetchRequest) (f : Fetcher Net Db)
      → total left f.busy ≡ left r + total left others
      → Pays 1 0 f (finish_request remote scanner config r others f)
  unfolding Pays Retried left in_flight
  finish_request-Pays r others f e =
      elim (finish_request-Retried remote scanner config left r others f) [
        | inl same ↦ omega (arith, e, same)
        | inr (h, retried) ↦ omega (arith, e, h, retried)
      ]

  marked :
      (r : FetchRequest) (others : List FetchRequest) (f : Fetcher Net Db)
      → total left f.checked ≡ left r + total left others
      → Pays 0 0 f (mark_processing remote scanner config r others f)
  unfolding Pays mark_processing in_flight total
  marked r others f e = omega (arith, e)

  finished :
      (i : ℕ) (f : Fetcher Net Db) (o : Option (FetchRequest × List FetchRequest))
      → pick i f.busy ≡ o
      → Pays
          (elim o as (λ x. ℕ) [ none ↦ 0 | some p ↦ 1 ])
          0
          f
          (elim o [ none ↦ f | some p ↦ finish_request remote scanner config p.0 p.1 f ])
  unfolding Pays
  finished i f none e = omega arith
  finished i f (some p) e = finish_request-Pays p.0 p.1 f (total-pick left i f.busy p e)

  fetch_step-Pays :
      (e : FetchEvent) (f : Fetcher Net Db)
      → Pays (attempted e f) (accepted e f) f (fetch_step remote scanner config e f)
  unfolding Pays fetch_step attempted accepted in_flight pool_request governance_request
  fetch_step-Pays (queues_pool a b c d s) f =
      Grows-Pays f _ (queue_request-Grows (pool_request a b c d) s f refl)
  fetch_step-Pays (queues_governance a b c s) f =
      Grows-Pays f _ (queue_request-Grows (governance_request a b c) s f refl)
  fetch_step-Pays takes f = omega (arith, take_request-in_flight remote scanner config left f)
  fetch_step-Pays (marks i) f =
      option-cases_eq (Pays 0 0 f) (pick i f.checked) _ _ (λ _. omega arith)
        (λ p e. marked p.0 p.1 f (total-pick left i f.checked p e))
  fetch_step-Pays (finishes i) f = finished i f (pick i f.busy) refl
  fetch_step-Pays (wakes i) f =
      option-cases_eq (Pays 0 0 f) (pick i f.sleeping) _ _ (λ _. omega arith)
        (λ p e. omega (
          arith,
          wake_request-in_flight remote scanner config left p.0.1 p.1 f
              (total-pick (λ q. left q.1) i f.sleeping p e),
        ))
  fetch_step-Pays (scans s) f = Grows-Pays f _ (scan_unfetched_metadata-Grows s f)
  fetch_step-Pays cleans f = omega arith
  fetch_step-Pays exits f =
      if-cases (Pays 0 0 f) (f.cancelled || f.closed) _ _ (λ _. omega arith) (λ _. omega arith)
  fetch_step-Pays cancels f = omega arith
  fetch_step-Pays closes f =
      if-cases (Pays 0 0 f) f.closed _ _ (λ _. omega arith) (λ _. omega arith)

  nothing-Pays : (f : Fetcher Net Db) → Pays 0 0 f f
  unfolding Pays
  nothing-Pays f = omega arith

  Pays-trans :
      (a b c d : ℕ) (f g h : Fetcher Net Db)
      → Pays a c f g
      → Pays b d g h
      → Pays (a + b) (c + d) f h
  unfolding Pays
  Pays-trans a b c d f g h p q = omega (arith, p, q)

  guarded-Pays :
      (b : Bool) (n k : ℕ) (f g : Fetcher Net Db)
      → Pays n k f g
      → Pays (if b then 0 else n) (if b then 0 else k) f (if b then f else g)
  unfolding Pays
  guarded-Pays true n k f g p = omega arith
  guarded-Pays false n k f g p = p

  fetch_run-Pays :
      (es : List FetchEvent) (f : Fetcher Net Db)
      → Pays
          (count_run attempted es f)
          (count_run accepted es f)
          f
          (fetch_run remote scanner config es f)
  unfolding count_run fetch_run fetch_event
  fetch_run-Pays [] f = nothing-Pays f
  fetch_run-Pays (e ∷ es) f =
      Pays-trans _ _ _ _ f _ _ (guarded-Pays f.crashed _ _ f _ (fetch_step-Pays e f))
        (fetch_run-Pays es (fetch_event remote scanner config e f))

  -- After any events from the start, at most MaxRetries + 1 fetches have been made for each request
  -- that was queued for the first time.
  pub attempted-accepted :
      (net : Net) (db : Db) (es : List FetchEvent)
      → count_run attempted es (start config net db)
        ≤ count_run accepted es (start config net db) * suc config.max_retries
  unfolding Pays start in_flight total
  attempted-accepted net db es = omega (arith, fetch_run-Pays es (start config net db))
