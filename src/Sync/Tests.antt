-- ===== src/Sync/Tests.antt =====
-- A worker on a short queue and a rollback on small tables.
use nectar.Prelude.{
  ℕ, ◌≤◌, ◌≡◌, refl, Bool, true, false, Option, none, some, List, [], ◌∷◌, subst, if-cases, ltb,
  leb, ◌==◌, if◌then◌else◌, All, text, arith, Text, length, ◌+◌,
}
use nectar.Sync.Worker.{Item, Calls, Worker, handle}
use nectar.Sync.Runs.{Recorded, Settles, extra_runs}
use nectar.Sync.Settled.{handle-Settles}
use nectar.Sync.Rollback.{
  block, not_found, Table, blocks, epochs, ada_pots, epoch_params, rewards, Tables,
  chain_sync_roll_backward_handler, cleanup_orphaned_data,
}
use nectar.Sync.Rewound.{chain_sync_roll_backward_handler-blocks, cleanup_orphaned_data-clean}

-- the world keeps the results; the first two attempts lose the connection
abbrev run_result : List (Option Text) → Option Text
run_result results = if ltb (length results) 2 then some (text "broken pipe") else none

abbrev calls : Calls (List (Option Text)) ℕ ℕ
calls = record {
  ensure_healthy_connection = λ p w. (w, true);
  has_pool = true;
  recover_connection = λ id w. (w, true);
  get_connection = λ id w. (w, some id);
  new_block_processor = λ c. c;
  has_metadata_fetcher = false;
  set_metadata_fetcher = λ p. p;
  process_block = λ p item w. (run_result w ∷ w, run_result w);
}

abbrev results : List (Option Text) → List (Option Text)
results w = w

recorded : Recorded calls results
recorded = record {
  checked = λ p w. refl;
  recovered = λ i w. refl;
  connected = λ i w. refl;
  ran = λ p item w. refl;
}

abbrev first_block : Item
first_block = record { slot = 4492900; tx_count = 3; block_type = 1 }

abbrev fresh : Worker (List (Option Text)) ℕ
fresh = record {
  world = [];
  processor = 4;
  shared = 4;
  last_processed_slot = 0;
  blocks_processed = 0;
  transactions_processed = 0;
  sleeps = [];
  notes = [];
}

handle-Settles_example :
    Settles calls 4 results 1
      (4 + extra_runs 4 first_block)
      first_block
      fresh
      (handle calls 4 first_block fresh)
handle-Settles_example = handle-Settles calls 4 results recorded first_block fresh

abbrev Rows : Type 0
Rows = Table → List ℕ

abbrev up_to : ℕ → List ℕ → List ℕ
up_to n [] = []
up_to n (k ∷ ks) = if leb k n then k ∷ up_to n ks else up_to n ks

abbrev same_table : Table → Table → Bool
same_table blocks blocks = true
same_table epochs epochs = true
same_table ada_pots ada_pots = true
same_table epoch_params epoch_params = true
same_table rewards rewards = true
same_table _ _ = false

abbrev rows_of : Table → Rows → List ℕ
rows_of t db = db t

abbrev tables : Tables Rows ℕ
tables = record {
  find_block_at = λ slot hash db. if hash == slot then block slot 300 else not_found;
  find_block = λ hash db. block hash 300;
  delete_after = λ t n db. some (λ u. if same_table t u then up_to n (db u) else db u);
  commits = λ db. true;
}

up_to-All : (n : ℕ) (l : List ℕ) → All (λ k. k ≤ n) (up_to n l)
up_to-All n [] = tt
up_to-All n (k ∷ l) = ground (arith, up_to-All n l)

up_to-keeps : (n m : ℕ) (l : List ℕ) → All (λ k. k ≤ m) l → All (λ k. k ≤ m) (up_to n l)
up_to-keeps n m [] h = tt
up_to-keeps n m (k ∷ l) h = ground (arith, h, up_to-keeps n m l h.1)

abbrev before : Rows
before t = 250 ∷ 500 ∷ []

tables-bounds :
    (t : Table) (n : ℕ) (db db' : Rows)
    → tables.delete_after t n db ≡ some db'
    → All (λ k. k ≤ n) (rows_of t db')
tables-bounds t n db db' e = subst (λ (o : Option Rows). At_most t n o) e (kept t)
  where
    At_most : Table → ℕ → Option Rows → Type 0
    At_most u m none = Unit
    At_most u m (some rows) = All (λ k. k ≤ m) (rows u)

    kept : (u : Table) → At_most u n (tables.delete_after u n db)
    kept blocks = up_to-All n (db blocks)
    kept epochs = up_to-All n (db epochs)
    kept ada_pots = up_to-All n (db ada_pots)
    kept epoch_params = up_to-All n (db epoch_params)
    kept rewards = up_to-All n (db rewards)

tables-shrinks :
    (t u : Table) (n m : ℕ) (db db' : Rows)
    → tables.delete_after t n db ≡ some db'
    → All (λ k. k ≤ m) (rows_of u db)
    → All (λ k. k ≤ m) (rows_of u db')
tables-shrinks t u n m db db' e h = subst (λ (o : Option Rows). At_most o) e kept
  where
    At_most : Option Rows → Type 0
    At_most none = Unit
    At_most (some rows) = All (λ k. k ≤ m) (rows u)

    kept : At_most (tables.delete_after t n db)
    kept =
        if-cases (All (λ k. k ≤ m)) (same_table t u) (up_to n (db u)) (db u)
          (λ _. up_to-keeps n m (db u) h) (λ _. h)

tables-exact :
    (slot hash : ℕ) (db : Rows) (s e : ℕ) → tables.find_block_at slot hash db ≡ block s e → s ≡ slot
tables-exact slot hash db s e h = ground (arith, h)

chain_sync_roll_backward_handler-blocks_example :
    let r = chain_sync_roll_backward_handler tables true 400 400 before in
    (r.1 ≡ false → r.0 ≡ before) × (r.1 ≡ true → All (λ k. k ≤ 400) (rows_of blocks r.0))
chain_sync_roll_backward_handler-blocks_example =
    chain_sync_roll_backward_handler-blocks tables rows_of tables-bounds tables-shrinks tables-exact
      true 400 400 before (omega arith)

cleanup_orphaned_data-clean_example :
    (db' : Rows) × (cleanup_orphaned_data tables 400 before ≡ some db')
    × All (λ k. k ≤ 300) (rows_of epochs db')
    × All (λ k. k ≤ 400) (rows_of ada_pots db')
    × All (λ k. k ≤ 300) (rows_of epoch_params db')
    × All (λ k. k ≤ 300) (rows_of rewards db')
cleanup_orphaned_data-clean_example =
    cleanup_orphaned_data-clean tables rows_of tables-bounds tables-shrinks
      (λ t n db h. ground (arith, h)) 400 before 400 300 refl
