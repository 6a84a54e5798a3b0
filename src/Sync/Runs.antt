-- ===== src/Sync/Runs.antt =====
-- The runs of `ProcessBlock` that the work of main.go's `blockWorker` on an item makes, with what the
-- end of that work says of them and of the indexer's counters.
use nectar.Prelude.{
  ℕ, suc, ◌+◌, ◌%◌, ◌^◌, ◌<◌, ◌≤◌, ◌≡◌, refl, ap, ◌∙◌, Bool, true, false, Option, none, some, List,
  [], ◌∷◌, ◌++◌, not, ◌==◌, ◌&&◌, if◌then◌else◌, length, length-append, arith, Text, contains, text,
}
use nectar.Sync.Worker.{
  Item, Calls, Worker, End, processed, duplicate, failed, exhausted, renew, check_connection,
  process, recover, succeed,
}

-- The results of some runs, the last one first, after runs with the errors given.
unfoldable pub failures : List Text → List (Option Text) → List (Option Text)
failures [] rs = rs
failures (e ∷ es) rs = some e ∷ failures es rs

failures-append :
    (es fs : List Text) (rs : List (Option Text))
    → failures es (failures fs rs) ≡ failures (es ++ fs) rs
unfolding failures
failures-append [] fs rs = refl
failures-append (e ∷ es) fs rs = ap (λ xs. some e ∷ xs) (failures-append es fs rs)

-- Worker 4 at slot 4492900 has a run more than the four attempts.
unfoldable pub extra_runs : ℕ → Item → ℕ
extra_runs id item = if (id == 4) && (item.slot == 4492900) then 1 else 0

pub extra_runs-one :
    (id : ℕ) (item : Item)
    → not ((id == 4) && (item.slot == 4492900)) ≡ false
    → 1 ≤ extra_runs id item
unfolding extra_runs
extra_runs-one id item h = ground (arith, h)

-- The world keeps the results of all the runs of `ProcessBlock`, the last one first.
pub record Recorded {World Processor Conn : Type 0} (calls : Calls World Processor Conn)
    (runs : World → List (Option Text)) : Type 0 where
  pub checked : (p : Processor) (w : World) → runs (calls.ensure_healthy_connection p w).0 ≡ runs w
  pub recovered : (i : ℕ) (w : World) → runs (calls.recover_connection i w).0 ≡ runs w
  pub connected : (i : ℕ) (w : World) → runs (calls.get_connection i w).0 ≡ runs w
  pub ran :
      (p : Processor) (item : Item) (w : World)
      → runs (calls.process_block p item w).0 ≡ (calls.process_block p item w).1 ∷ runs w

module _ {World Processor Conn : Type 0} (calls : Calls World Processor Conn) (id : ℕ)
    (runs : World → List (Option Text)) where
  -- the shared connection is the worker's, and the counters are as in another state
  abbrev Keeps : Worker World Processor → Worker World Processor → Type 0
  Keeps w w' =
      (w.processor ≡ w.shared → w'.processor ≡ w'.shared)
      × (w'.last_processed_slot ≡ w.last_processed_slot)
      × (w'.blocks_processed ≡ w.blocks_processed)
      × (w'.transactions_processed ≡ w.transactions_processed)

  -- Besides, the block processor has run as many times as there are errors, and gave these.
  abbrev pub Tried : List Text → Worker World Processor → Worker World Processor → Type 0
  Tried errs w w' = (runs w'.world ≡ failures errs (runs w.world)) × Keeps w w'

  -- What the end of the work on an item, by from `m` to `n` runs of the block processor, says of
  -- the results of the runs and of the counters.
  unfoldable pub Settles :
      ℕ → ℕ → Item → Worker World Processor → Worker World Processor × End → Type 0
  unfolding failures
  Settles m n item w (w', processed) =
      ((errs : List Text) × (length errs < n)
        × (runs w'.world ≡ none ∷ failures errs (runs w.world)))
      × (w.processor ≡ w.shared → w'.processor ≡ w'.shared)
      × (w'.last_processed_slot ≡ item.slot)
      × (w'.blocks_processed ≡ (w.blocks_processed + 1) % 2 ^ 64)
      × (w'.transactions_processed ≡ (w.transactions_processed + item.tx_count) % 2 ^ 64)
  Settles m n item w (w', duplicate) =
      ((e : Text) × (contains (text "Duplicate entry") e ≡ true)
        × ((errs : List Text) × (length errs < n)
            × (runs w'.world ≡ some e ∷ failures errs (runs w.world))))
      × (w.processor ≡ w.shared → w'.processor ≡ w'.shared)
      × (w'.last_processed_slot ≡ item.slot)
      × (w'.blocks_processed ≡ w.blocks_processed)
      × (w'.transactions_processed ≡ w.transactions_processed)
  Settles m n item w (w', failed) =
      (errs : List Text) × (m ≤ length errs) × (length errs ≤ n) × Tried errs w w'
  Settles m n item w (w', exhausted) = ⊥

  -- the work goes on after some runs that failed
  pub Tried-Settles :
      (item : Item) (w w1 : Worker World Processor) (fs : List Text) (m n m' n' : ℕ)
      (r : Worker World Processor × End)
      → Tried fs w w1
      → m' ≤ m + length fs
      → n + length fs ≤ n'
      → Settles m n item w1 r
      → Settles m' n' item w r
  unfolding Settles
  Tried-Settles item w w1 fs m n m' n' (w', processed) (f, k) lo hi ((es, l, e), s1, s2, s3, s4) = (
    (
      es ++ fs,
      omega (arith, l, hi, length-append es fs),
      e ∙ ap (λ x. none ∷ x) (ap (failures es) f ∙ failures-append es fs (runs w.world)),
    ),
    ground (arith, k, s1),
    ground (arith, s2),
    ground (arith, k, s3),
    ground (arith, k, s4),
  )
  Tried-Settles item w w1 fs m n m' n' (w', duplicate) (f, k) lo hi
        ((d, c, (es, l, e)), s1, s2, s3, s4) =
      (
        (
          d,
          c,
          (
            es ++ fs,
            omega (arith, l, hi, length-append es fs),
            e ∙ ap (λ x. some d ∷ x) (ap (failures es) f ∙ failures-append es fs (runs w.world)),
          ),
        ),
        ground (arith, k, s1),
        ground (arith, s2),
        ground (arith, k, s3),
        ground (arith, k, s4),
      )
  Tried-Settles item w w1 fs m n m' n' (w', failed) (f, k) lo hi (es, a, b, (e, s)) = (
    es ++ fs,
    omega (arith, a, lo, length-append es fs),
    omega (arith, b, hi, length-append es fs),
    (e ∙ ap (failures es) f ∙ failures-append es fs (runs w.world), ground (arith, k, s)),
  )
  Tried-Settles item w w1 fs m n m' n' (w', exhausted) t lo hi s = s

  module _ (laws : Recorded calls runs) where
    pub renew-Tried :
        (copy : Bool) (w : Worker World Processor) → Tried [] w (renew calls id copy w).0
    unfolding renew failures
    renew-Tried copy w = ground (
      arith,
      laws.recovered id w.world,
      laws.connected id (calls.recover_connection id w.world).0,
    )

    pub check_connection-Tried :
        (w : Worker World Processor) → Tried [] w (check_connection calls id w)
    unfolding check_connection renew failures
    check_connection-Tried w =
        let (world1, ok) = calls.ensure_healthy_connection w.processor w.world in
        ground (
          arith,
          laws.checked w.processor w.world,
          laws.recovered id world1,
          laws.connected id (calls.recover_connection id world1).0,
        )

    pub recover-Tried :
        (attempt delay : ℕ) (w : Worker World Processor)
        → Tried [] w (recover calls id attempt delay w)
    unfolding recover renew failures
    recover-Tried attempt delay w = ground (
      arith,
      laws.recovered id w.world,
      laws.connected id (calls.recover_connection id w.world).0,
    )

    -- a run of the block processor with an error, and one without
    pub process-Tried :
        (item : Item) (w : Worker World Processor) (e : Text)
        → (process calls id item w).1 ≡ some e
        → Tried (e ∷ []) w (process calls id item w).0
    unfolding process failures
    process-Tried item w e h = ground (arith, h, laws.ran w.processor item w.world)

    pub process-none :
        (m n : ℕ) (item : Item) (w : Worker World Processor)
        → (process calls id item w).1 ≡ none
        → Settles m (suc n) item w (succeed calls id item (process calls id item w).0, processed)
    unfolding process failures Settles
    process-none m n item w h =
        let made = laws.ran w.processor item w.world in
        (([], omega arith, ground (arith, h, made)), (λ p. p), refl, refl, refl)

    pub process-duplicate :
        (m n : ℕ) (item : Item) (w : Worker World Processor) (e : Text)
        → (process calls id item w).1 ≡ some e
        → contains (text "Duplicate entry") e ≡ true
        → Settles m
            (suc n)
            item
            w
            (record (process calls id item w).0 { last_processed_slot = item.slot }, duplicate)
    unfolding process failures Settles
    process-duplicate m n item w e h c =
        let made = laws.ran w.processor item w.world in
        ((e, c, ([], omega arith, ground (arith, h, made))), (λ p. p), refl, refl, refl)

    pub gave_up-Settles :
        (n : ℕ) (item : Item) (w w' : Worker World Processor)
        → Tried [] w w'
        → Settles 0 n item w (w', failed)
    unfolding Settles
    gave_up-Settles n item w w' t = ([], omega arith, omega arith, t)

    -- a run that fails is the last one
    pub failed-Settles :
        (item : Item) (w w' : Worker World Processor) (e : Text)
        → Tried (e ∷ []) w w'
        → Settles 0 1 item w (w', failed)
    unfolding Settles
    failed-Settles item w w' e t = (e ∷ [], omega arith, omega arith, t)
