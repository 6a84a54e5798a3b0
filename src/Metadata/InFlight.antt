-- ===== src/Metadata/InFlight.antt =====
-- What the events do to the requests of the fetcher, metadata/fetcher.go: none is lost, and each is
-- attempted a bounded number of times.
use nectar.Prelude.{
  none_not_some, some_injective, ℕ, zero, suc, ◌+◌, ◌<◌, ◌≡◌, ◌⊎◌, inl, inr, refl, true, Option,
  some, List, [], ◌∷◌, ◌++◌, ltb, if-cases, option-cases_eq, length, Text, arith, ltb→lt, subst,
}
use nectar.Metadata.Rows.{Outcome, ok, failed, panicked}
use nectar.Metadata.Requests.{FetchConfig, FetchRequest}
use nectar.Metadata.Fetch.{Remote, process_fetch_request, record_fetch_error}
use nectar.Metadata.Workers.{
  Fetcher, pick, Scans, take_request, is_expected, log_failure, retry_or_record, unmark, settle,
  finish_request, wake_request,
}

module _ {A : Type 0} (m : A → ℕ) where
  -- the sum of a measure of the elements
  unfoldable pub total : List A → ℕ
  total [] = 0
  total (x ∷ xs) = m x + total xs

  pub total-append : (xs ys : List A) → total (xs ++ ys) ≡ total xs + total ys
  unfolding total
  total-append [] ys = omega arith
  total-append (x ∷ xs) ys = omega (arith, total-append xs ys)

  pub total-pick :
      (n : ℕ) (xs : List A) (p : A × List A) → pick n xs ≡ some p → total xs ≡ m p.0 + total p.1
  unfolding total pick
  total-pick n [] p e = absurd (none_not_some e)
  total-pick zero (x ∷ xs) p e = rw (← some_injective e) refl
  total-pick (suc n) (x ∷ xs) p e =
      option-cases_eq (λ (o : Option (A × List A)). o ≡ some p → m x + total xs ≡ m p.0 + total p.1)
        (pick n xs) _ _ (λ _ o. absurd (none_not_some o))
        (λ q h o.
          subst (λ p. m x + total xs ≡ m p.0 + total p.1) (some_injective o)
            (omega (arith, total-pick n xs q h)))
        e

module _ {Net Db : Type 0} where
  -- the measure of all the requests that are in the fetcher
  unfoldable pub in_flight : (FetchRequest → ℕ) → Fetcher Net Db → ℕ
  unfolding total
  in_flight m f =
      total m f.queue + total (λ p. m p.1) f.sleeping + total m f.checked + total m f.busy

module _ {Net Db : Type 0} (remote : Remote Net Db) (scanner : Scans Db) (config : FetchConfig)
    (m : FetchRequest → ℕ) where
  abbrev Same : Fetcher Net Db → Fetcher Net Db → Type 0
  Same f g = in_flight m g ≡ in_flight m f

  pub take_request-in_flight :
      (f : Fetcher Net Db) → in_flight m (take_request remote scanner config f) ≡ in_flight m f
  unfolding take_request in_flight total
  take_request-in_flight f = ground (arith)

  sent-in_flight :
      (r : FetchRequest) (others : List (ℕ × FetchRequest)) (f : Fetcher Net Db)
      → total (λ p. m p.1) f.sleeping ≡ m r + total (λ p. m p.1) others
      → in_flight m (record f { sleeping = others; queue = f.queue ++ (r ∷ []) }) ≡ in_flight m f
  unfolding in_flight total
  sent-in_flight r others f e = omega (arith, e, total-append m f.queue (r ∷ []))

  pub wake_request-in_flight :
      (r : FetchRequest) (others : List (ℕ × FetchRequest)) (f : Fetcher Net Db)
      → total (λ p. m p.1) f.sleeping ≡ m r + total (λ p. m p.1) others
      → in_flight m (wake_request remote scanner config r others f) ≡ in_flight m f
  unfolding wake_request in_flight
  wake_request-in_flight r others f e =
      if-cases (Same f) f.closed _ _ (λ _. refl)
        (λ _.
          if-cases (Same f) (ltb (length f.queue) config.queue_size) _ _
            (λ _. sent-in_flight r others f e) (λ _. refl))

  -- a request's weight after its attempt failed
  unfoldable pub Retried : FetchRequest → Fetcher Net Db → Fetcher Net Db → Type 0
  Retried r f g =
      (in_flight m g ≡ in_flight m f)
      ⊎ ((r.retry_count < config.max_retries)
          × (in_flight m g ≡ m (record r { retry_count = suc r.retry_count }) + in_flight m f))

  retry_or_record-Retried :
      (r : FetchRequest) (err : Text) (f : Fetcher Net Db)
      → Retried r f (retry_or_record remote scanner config r err f)
  unfolding retry_or_record Retried in_flight total
  retry_or_record-Retried r err f =
      if-cases (Retried r f) (ltb r.retry_count config.max_retries) _ _
        (λ h. inr (ltb→lt _ _ h, omega arith))
        (λ _. recorded (record_fetch_error remote config r err (remote.now f.net) f.db))
    where
      recorded :
          (o : Outcome Db)
          → Retried r f (elim o [
            | ok db ↦ record f { db = db }
            | failed e ↦ record f { logged = f.logged ++ ((e, r.retry_count) ∷ []) }
            | panicked ↦ record f { crashed = true }
          ])
      recorded (ok db) = inl refl
      recorded (failed e) = inl refl
      recorded panicked = inl refl

  log_failure-in_flight :
      (r : FetchRequest) (err : Text) (f : Fetcher Net Db)
      → in_flight m (log_failure remote scanner config r err f) ≡ in_flight m f
  unfolding log_failure in_flight
  log_failure-in_flight r err f =
      if-cases (Same f) (is_expected remote scanner config r err) _ _ (λ _. refl) (λ _. refl)

  settle-Retried :
      (r : FetchRequest) (o : Outcome Db) (f : Fetcher Net Db)
      → Retried r f (settle remote scanner config r o f)
  unfolding settle Retried in_flight
  settle-Retried r (ok db) f = inl refl
  settle-Retried r (failed err) f =
      subst
        (λ n.
          (in_flight m g ≡ n)
          ⊎ ((r.retry_count < config.max_retries)
              × (in_flight m g ≡ m (record r { retry_count = suc r.retry_count }) + n)))
        (log_failure-in_flight r err f)
        (retry_or_record-Retried r err (log_failure remote scanner config r err f))
    where
      g : Fetcher Net Db
      g = retry_or_record remote scanner config r err (log_failure remote scanner config r err f)
  settle-Retried r panicked f = inl refl

  -- What the attempt of a request does, from the state without the request.
  pub finish_request-Retried :
      (r : FetchRequest) (others : List FetchRequest) (f : Fetcher Net Db)
      → Retried r (record f { busy = others }) (finish_request remote scanner config r others f)
  unfolding finish_request Retried in_flight unmark
  finish_request-Retried r others f =
      let (result, net) = process_fetch_request remote config r f.net f.db in
      settle-Retried r result (unmark remote scanner config r others net f)
