-- ===== src/Sync/Worker.antt =====
-- `blockWorker` of main.go: one worker's work on the items of the queue. The connections, their
-- pool and the block processor are parameters over a state `World`.
use nectar.Prelude.{
  ℕ, zero, suc, ◌+◌, ◌*◌, ◌%◌, ◌^◌, Bool, true, false, not, Option, none, some, List, [], ◌∷◌, ltb,
  leb, ◌==◌, ◌&&◌, ◌||◌, if◌then◌else◌, Text, text, contains,
}

-- an item of the queue: the slot and the number of transactions of its block, and its type
pub record Item : Type 0 where
  pub slot : ℕ
  pub tx_count : ℕ
  pub block_type : ℕ

-- What the worker calls. A Boolean result says that there was no error; `process_block` returns
-- the error's text, or none.
pub record Calls (World Processor Conn : Type 0) : Type 0 where
  pub ensure_healthy_connection : Processor → World → World × Bool
  pub has_pool : Bool
  pub recover_connection : ℕ → World → World × Bool
  pub get_connection : ℕ → World → World × Option Conn
  pub new_block_processor : Conn → Processor
  pub has_metadata_fetcher : Bool
  pub set_metadata_fetcher : Processor → Processor
  pub process_block : Processor → Item → World → World × Option Text

-- the reports to the error system
pub data Note : Type 0 where
  health_check recovery : Note
  retrying : ℕ → Note
  gave_up : ℕ → Note
  byron_shelley critical last : Note

-- The worker's processor, the shared `dbConnections[id]`, and the indexer's counters. The
-- counters are the bits of an `int64`.
pub record Worker (World Processor : Type 0) : Type 0 where
  pub world : World
  pub processor : Processor
  pub shared : Processor
  pub last_processed_slot : ℕ
  pub blocks_processed : ℕ
  pub transactions_processed : ℕ
  pub sleeps : List ℕ
  pub notes : List Note

-- How the work on an item ends; `exhausted` stands for a loop that runs out of its attempts.
pub data End : Type 0 where
  processed duplicate failed exhausted : End

abbrev pub connection_lost : Text → Bool
connection_lost err =
    contains (text "commands out of sync") err
    || contains (text "bad connection") err
    || contains (text "invalid connection") err
    || contains (text "broken pipe") err

abbrev pub worker_max_retries : ℕ
worker_max_retries = 3

module _ {World Processor Conn : Type 0} (calls : Calls World Processor Conn) (id : ℕ) where
  abbrev pub note : Note → Worker World Processor → Worker World Processor
  note n w = record w { notes = n ∷ w.notes }

  abbrev pub sleep : ℕ → Worker World Processor → Worker World Processor
  sleep ms w = record w { sleeps = ms ∷ w.sleeps }

  -- `RecoverConnection` and `GetConnection`, and the new processor; `copy` says whether it is
  -- given the metadata fetcher, and the result whether there is a new processor.
  unfoldable pub renew : Bool → Worker World Processor → Worker World Processor × Bool
  renew copy w =
      let (world1, ok) = calls.recover_connection id w.world in
      let (world2, found) = calls.get_connection id world1 in
      if not ok
      then (record (if copy then note recovery w else w) { world = world1 }, false)
      else elim found [
        | none ↦ (record w { world = world2 }, false)
        | some conn ↦
            let fresh = calls.new_block_processor conn in
            let p =
              if copy && calls.has_metadata_fetcher
              then calls.set_metadata_fetcher fresh
              else fresh in
            (record w { world = world2; processor = p; shared = p }, true)
      ]

  -- the health check before an attempt
  unfoldable pub check_connection : Worker World Processor → Worker World Processor
  unfolding renew
  check_connection w =
      let (world1, ok) = calls.ensure_healthy_connection w.processor w.world in
      let w1 = record w { world = world1 } in
      let noted = note health_check w1 in
      if ok then w1 else if calls.has_pool then (renew true noted).0 else noted

  unfoldable pub process : Item → Worker World Processor → Worker World Processor × Option Text
  process item w =
      let (world1, err) = calls.process_block w.processor item w.world in
      (record w { world = world1 }, err)

  -- `updateSequentialStats` and the slot
  abbrev pub succeed : Item → Worker World Processor → Worker World Processor
  succeed item w = record w {
    blocks_processed = (w.blocks_processed + 1) % 2 ^ 64;
    transactions_processed = (w.transactions_processed + item.tx_count) % 2 ^ 64;
    last_processed_slot = item.slot;
  }

  -- Worker 4 at slot 4492900: a new connection and one more try.
  unfoldable pub force_recovery : Item → Worker World Processor → Worker World Processor × End
  unfolding renew process
  force_recovery item w =
      let (w1, renewed) = renew false w in
      let (w2, err) = process item (sleep 500 w1) in
      if not calls.has_pool
      then (note last w, failed)
      else if not renewed
      then (note last w1, failed)
      else (elim err [ none ↦ (succeed item w2, processed) | some e ↦ (note last w2, failed) ])

  -- An error that is not retried.
  unfoldable pub give_up : ℕ → Item → Worker World Processor → Worker World Processor × End
  unfolding force_recovery
  give_up attempt item w =
      let w1 = note (gave_up (suc attempt)) w in
      let w2 = note byron_shelley w1 in
      if not (leb 4492800 item.slot && leb item.slot 4493000)
      then (note last w1, failed)
      else if not ((id == 4) && (item.slot == 4492900))
      then (note last w2, failed)
      else force_recovery item (note critical w2)

  -- before the next attempt, after an error of the connection
  unfoldable pub recover : ℕ → ℕ → Worker World Processor → Worker World Processor
  unfolding renew
  recover attempt retry_delay w =
      let w1 = sleep retry_delay (note (retrying (suc attempt)) w) in
      if calls.has_pool then (renew false w1).0 else w1

  -- The loop over the attempts, with the number of those left.
  unfoldable pub try_attempts :
      ℕ → ℕ → ℕ → Item → Worker World Processor → Worker World Processor × End
  unfolding check_connection process recover give_up
  try_attempts zero attempt retry_delay item w = (w, exhausted)
  try_attempts (suc n) attempt retry_delay item w =
      let (w1, err) = process item (check_connection w) in
      let rest =
        try_attempts n (suc attempt) (retry_delay * 2) item (recover attempt retry_delay w1) in
      elim err [
        | none ↦ (succeed item w1, processed)
        | some e ↦
            if connection_lost e && ltb attempt worker_max_retries
            then rest
            else if contains (text "Duplicate entry") e
            then (record w1 { last_processed_slot = item.slot }, duplicate)
            else give_up attempt item w1
      ]

  -- the work on one item, and on the items of the queue in turn
  unfoldable pub handle : Item → Worker World Processor → Worker World Processor × End
  unfolding try_attempts
  handle item w = try_attempts (suc worker_max_retries) 0 100 item w

  unfoldable pub work : List Item → Worker World Processor → Worker World Processor × List End
  unfolding handle
  work [] w = (w, [])
  work (item ∷ queue) w =
      let (w1, e) = handle item w in let (w2, es) = work queue w1 in (w2, e ∷ es)
