-- ===== src/Sync/Settled.antt =====
-- What `blockWorker` of main.go does to the worker's processor and to the indexer's counters.
use nectar.Prelude.{
  ℕ, zero, suc, ◌+◌, ◌*◌, ◌%◌, ◌^◌, ◌<◌, ◌≤◌, ◌≡◌, refl, ap, Bool, true, false, Option, some, List,
  [], ◌∷◌, ltb, leb, not, ◌==◌, ◌&&◌, if-cases, option-cases_eq, length, arith, Text, contains,
  text, ltb→lt,
}
use nectar.Sync.Worker.{
  Item, Calls, Worker, End, processed, duplicate, failed, exhausted, connection_lost,
  worker_max_retries, renew, check_connection, process, force_recovery, give_up, recover,
  try_attempts, handle, work, sleep,
}
use nectar.Sync.Runs.{
  failures, extra_runs, extra_runs-one, Recorded, Tried, Settles, Tried-Settles, renew-Tried,
  check_connection-Tried, recover-Tried, process-Tried, process-none, process-duplicate,
  gave_up-Settles, failed-Settles,
}

&&-right : (a : Bool) {b : Bool} → (a && b) ≡ true → b ≡ true
&&-right true h = h
&&-right false h = ground arith

abbrev pub count_processed : List End → ℕ
count_processed [] = 0
count_processed (processed ∷ es) = suc (count_processed es)
count_processed (_ ∷ es) = count_processed es

module _ {World Processor Conn : Type 0} (calls : Calls World Processor Conn) (id : ℕ)
    (runs : World → List (Option Text)) (laws : Recorded calls runs) where
  force_recovery-Settles :
      (item : Item) (w : Worker World Processor)
      → Settles calls id runs 0 1 item w (force_recovery calls id item w)
  unfolding force_recovery failures
  force_recovery-Settles item w =
      let (w1, renewed) = renew calls id false w in
      let w2 = sleep calls id 500 w1 in
      if-cases (Settles calls id runs 0 1 item w) (not calls.has_pool) _ _
        (λ _. gave_up-Settles calls id runs laws 1 item w _ (ground arith))
        (λ _.
          if-cases (Settles calls id runs 0 1 item w) (not renewed) _ _
            (λ _.
              gave_up-Settles calls id runs laws 1 item w _
                (renew-Tried calls id runs laws false w))
            (λ _.
              option-cases_eq (Settles calls id runs 0 1 item w) (process calls id item w2).1 _ _
                (λ h.
                  after w2 _ (renew-Tried calls id runs laws false w)
                    (process-none calls id runs laws 0 0 item w2 h))
                (λ e h. after w2 _ (renew-Tried calls id runs laws false w) (
                  failed-Settles calls id runs laws item w2 _ e
                    (process-Tried calls id runs laws item w2 e h)))))
    where
      after :
          (w2 : Worker World Processor) (r : Worker World Processor × End)
          → Tried calls id runs [] w w2
          → Settles calls id runs 0 1 item w2 r
          → Settles calls id runs 0 1 item w r
      after w2 r t s =
          Tried-Settles calls id runs item w w2 [] 0 1 0 1 r t (omega arith) (omega arith) s

  give_up-Settles :
      (attempt : ℕ) (item : Item) (w : Worker World Processor)
      → Settles calls id runs 0 (extra_runs id item) item w (give_up calls id attempt item w)
  unfolding give_up failures
  give_up-Settles attempt item w =
      let n = extra_runs id item in
      if-cases (Settles calls id runs 0 n item w)
        (not (leb 4492800 item.slot && leb item.slot 4493000)) _ _
        (λ _. gave_up-Settles calls id runs laws n item w _ (ground arith))
        (λ _.
          if-cases (Settles calls id runs 0 n item w) (not ((id == 4) && (item.slot == 4492900))) _
            _ (λ _. gave_up-Settles calls id runs laws n item w _ (ground arith))
            (λ h. forced _ (extra_runs-one id item h) (ground arith)))
    where
      forced :
          (w2 : Worker World Processor)
          → 1 ≤ extra_runs id item
          → Tried calls id runs [] w w2
          → Settles calls id runs 0 (extra_runs id item) item w (force_recovery calls id item w2)
      forced w2 h t =
          Tried-Settles calls id runs item w w2 [] 0 1 0 (extra_runs id item)
            (force_recovery calls id item w2) t (omega arith) (omega (arith, h))
            (force_recovery-Settles item w2)

  -- The loop goes on after an attempt that fails.
  failed_attempt-Settles :
      (m k : ℕ) (item : Item) (w : Worker World Processor) (e : Text)
      (r : Worker World Processor × End)
      → (process calls id item (check_connection calls id w)).1 ≡ some e
      → Settles calls id runs m k item (process calls id item (check_connection calls id w)).0 r
      → Settles calls id runs 1 (suc k) item w r
  failed_attempt-Settles m k item w e r h s =
      let w0 = check_connection calls id w in
      Tried-Settles calls id runs item w w0 [] 1 (suc k) 1 (suc k) r
        (check_connection-Tried calls id runs laws w) (omega arith) (omega arith)
        (Tried-Settles calls id runs item w0 (process calls id item w0).0 (e ∷ []) m k 1 (suc k) r
          (process-Tried calls id runs laws item w0 e h) (omega arith) (omega arith) s)

  try_attempts-step :
      (n k attempt delay : ℕ) (item : Item) (w : Worker World Processor)
      → extra_runs id item ≤ k
      → (attempt < worker_max_retries
          → let again =
              recover calls id attempt delay
                (process calls id item (check_connection calls id w)).0 in
            Settles calls id runs 1 k item again
              (try_attempts calls id n (suc attempt) (delay * 2) item again))
      → Settles calls id runs 1 (suc k) item w (try_attempts calls id (suc n) attempt delay item w)
  unfolding try_attempts failures
  try_attempts-step n k attempt delay item w room rest =
      let w0 = check_connection calls id w in
      let w1 = (process calls id item w0).0 in
      option-cases_eq (Settles calls id runs 1 (suc k) item w) (process calls id item w0).1 _ _
        (λ h. first _ (process-none calls id runs laws 1 k item w0 h))
        (λ e h.
          if-cases (Settles calls id runs 1 (suc k) item w)
            (connection_lost e && ltb attempt worker_max_retries) _ _
            (λ t.
              let again = recover calls id attempt delay w1 in
              failed_attempt-Settles 1 k item w e _ h (
                Tried-Settles calls id runs item w1 again [] 1 k 1 k _
                  (recover-Tried calls id runs laws attempt delay w1) (omega arith) (omega arith)
                  (rest (below e t))))
            (λ f.
              if-cases (Settles calls id runs 1 (suc k) item w)
                (contains (text "Duplicate entry") e) _ _
                (λ c. first _ (process-duplicate calls id runs laws 1 k item w0 e h c))
                (λ f. failed_attempt-Settles 0 k item w e _ h (
                  Tried-Settles calls id runs item w1 w1 [] 0 (extra_runs id item) 0 k _
                    (ground arith) (omega arith) (omega arith) (give_up-Settles attempt item w1)))))
    where
      first :
          (r : Worker World Processor × End)
          → Settles calls id runs 1 (suc k) item (check_connection calls id w) r
          → Settles calls id runs 1 (suc k) item w r
      first r s =
          Tried-Settles calls id runs item w (check_connection calls id w) [] 1 (suc k) 1 (suc k) r
            (check_connection-Tried calls id runs laws w) (omega arith) (omega arith) s

      below :
          (e : Text)
          → (connection_lost e && ltb attempt worker_max_retries) ≡ true
          → attempt < worker_max_retries
      below e t = ltb→lt attempt worker_max_retries (&&-right (connection_lost e) t)

  -- With as many rounds as attempts are left, the loop settles the item.
  try_attempts-Settles :
      (n k attempt delay : ℕ) (item : Item) (w : Worker World Processor)
      → n + attempt ≡ worker_max_retries
      → n + extra_runs id item ≤ k
      → Settles calls id runs 1 (suc k) item w (try_attempts calls id (suc n) attempt delay item w)
  try_attempts-Settles zero k attempt delay item w h r =
      try_attempts-step zero k attempt delay item w (omega (arith, r))
        (λ l. absurd (omega (arith, l, h)))
  try_attempts-Settles (suc n) zero attempt delay item w h r = absurd (omega (arith, r))
  try_attempts-Settles (suc n) (suc k) attempt delay item w h r =
      let w1 = (process calls id item (check_connection calls id w)).0 in
      let again = recover calls id attempt delay w1 in
      try_attempts-step (suc n) (suc k) attempt delay item w (omega (arith, r)) (λ _.
        try_attempts-Settles n k (suc attempt) (delay * 2) item again (omega (arith, h))
          (omega (arith, r)))

  -- Let the world keep the results of the runs of `ProcessBlock`, to which no other call adds.
  -- Then `blockWorker` ends the work on an item after at least one run and at most four, or five
  -- where worker 4 works on slot 4492900, however the connections and the runs fail. If it ends
  -- as processed, the last run gave no error and those before it errors, the item's slot is the
  -- last processed one, and the counters grow by one block and the item's transactions. If it
  -- ends as a duplicate, all the runs gave errors, the last one a duplicate entry's, and only the
  -- slot is set. If it ends as failed, all the runs gave errors, and neither the slot nor the
  -- counters change. In each case the shared connection is still the worker's own.
  pub handle-Settles :
      (item : Item) (w : Worker World Processor)
      → Settles calls id runs 1 (4 + extra_runs id item) item w (handle calls id item w)
  unfolding handle failures
  handle-Settles item w =
      Tried-Settles calls id runs item w w [] 1 (suc (3 + extra_runs id item)) 1
        (4 + extra_runs id item) (handle calls id item w) (ground arith) (omega arith) (omega arith)
        (try_attempts-Settles 3 (3 + extra_runs id item) 0 100 item w refl (omega arith))

  -- `blockWorker` works through any queue: there is one end for each item, and the blocks counter,
  -- modulo 2^64, has grown by the number of items that ended as processed.
  work-counts :
      (queue : List Item) (w : Worker World Processor)
      → let r = work calls id queue w in
        (length r.1 ≡ length queue)
        × ((r.0).blocks_processed % 2 ^ 64 ≡ (w.blocks_processed + count_processed r.1) % 2 ^ 64)
  unfolding work Settles
  work-counts [] w = (refl, ground arith)
  work-counts (item ∷ queue) w =
      let (w1, e) = handle calls id item w in
      let (l, c) = work-counts queue w1 in
      (
        ap suc l,
        counted (work calls id queue w1).0.blocks_processed (4 + extra_runs id item) item w
            (handle calls id item w) (work calls id queue w1).1 (handle-Settles item w) c,
      )
    where
      counted :
          (m n : ℕ) (item : Item) (w : Worker World Processor) (r : Worker World Processor × End)
          (es : List End)
          → Settles calls id runs 1 n item w r
          → m % 2 ^ 64 ≡ ((r.0).blocks_processed + count_processed es) % 2 ^ 64
          → m % 2 ^ 64 ≡ (w.blocks_processed + count_processed (r.1 ∷ es)) % 2 ^ 64
      counted m n item w (w', processed) es s c = ground (arith, s, c)
      counted m n item w (w', duplicate) es s c = ground (arith, s, c)
      counted m n item w (w', failed) es s c = ground (arith, s, c)
      counted m n item w (w', exhausted) es s c = absurd s
