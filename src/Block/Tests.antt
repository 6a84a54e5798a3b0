-- ===== src/Block/Tests.antt =====
-- A block with two transactions, over a database that counts its calls.
use nectar.Prelude.{
  ℕ, suc, ◌≡◌, refl, true, false, none, some, [], ◌∷◌, any, if◌then◌else◌, Text, text, arith,
  Option, List, text_eq, text_eq_refl, if-cases, some_not_none, none_not_some,
}
use nectar.Cache.Lru.{byte_new}
use nectar.Era.Slots.{byron_main, alonzo}
use nectar.Era.Config.{new_era_state}
use nectar.Block.Ledger.{Address, TxInput, LedgerTx, LedgerBlock, other_header}
use nectar.Block.Address.{max_address_length, address_text}
use nectar.Block.Bounded.{Fits, address_text-Fits}
use nectar.Block.Leader.{LeaderTable, get_or_create_slot_leader}
use nectar.Block.Leading.{Led, get_or_create_slot_leader-Led}
use nectar.Block.Parts.{Call, Parts, Processor, process_transaction}
use nectar.Block.Process.{Header, Connection, process_era_aware_transactions}
use nectar.Block.Stored.{process_transaction-independent}
use nectar.Block.Kept.{TxLaws}
use nectar.Block.Present.{Present, process_era_aware_transactions-Present}

abbrev spent : TxInput
spent = record { id = text "I"; index = 3 }

abbrev payment : LedgerTx
payment = record {
  hash = text "T";
  cbor_length = 200;
  fee = 5;
  inputs = spent ∷ spent ∷ [];
  outputs = [];
  has_metadata = false;
  withdrawals = [];
  asset_mint = none;
  certificates = [];
  votes = false;
  proposals = 0;
  validity_interval_start = 0;
  ttl = 9;
  is_valid = true;
  total_collateral = 0;
  donation = 0;
  collateral = spent ∷ record { id = text "J"; index = 1 } ∷ [];
  collateral_return = none;
  reference_inputs = [];
  required_signers = [];
}

abbrev block : LedgerBlock
block = record {
  hash = text "B";
  prev_hash = text "A";
  slot_number = 7;
  block_number = 7;
  body_size = 300;
  header = other_header;
  transactions = payment ∷ payment ∷ [];
}

-- a call that succeeds, and one that fails
abbrev counts : Call ℕ
counts n = (none, suc n)

abbrev fails : Call ℕ
fails n = (some (text "Duplicate entry"), suc n)

abbrev parts : Parts ℕ
parts = record {
  insert_tx = λ row. counts;
  process_inputs = λ t b. counts;
  process_outputs = λ t b. fails;
  process_metadata = λ t. counts;
  process_withdrawals = λ t m b. counts;
  process_mint = λ t m. counts;
  process_scripts = λ t b. counts;
  process_collateral = λ t b. counts;
  process_collateral_return = λ t b. counts;
  process_reference_inputs = λ t b. counts;
  process_required_signers = λ t b. counts;
  process_certificates = λ t c. counts;
  process_governance = λ t b. counts;
}

abbrev leaders : LeaderTable ℕ
leaders = record { has_leader = λ h n. some true; create_leader = λ h d n. some (suc n) }

abbrev header : Header ℕ
header = record {
  leaders = leaders;
  insert_block = λ row. counts;
  find_block = λ h n. none;
  create_epoch = λ e row. counts;
  calculate_ada_pots = λ e n. counts;
  provide_epoch_params = λ e. counts;
  has_service = false;
  calculate_epoch_rewards = λ e. counts;
  process_refunds = λ e. counts;
}

abbrev conn : Connection ℕ
conn = record {
  get_handle = λ n. none;
  ping = λ n. none;
  select_one = counts;
  do_one = suc;
  set_isolation = counts;
  commit = λ n. none;
}

unfoldable processor : Processor ℕ
unfolding byte_new new_era_state
processor = record {
  world = 0;
  slot_leader_cache = byte_new 10;
  era = new_era_state;
  warnings = [];
  db_block = none;
}

process_transaction-independent_example :
    (process_transaction parts payment alonzo (text "B") 0 processor).0
    ≡ (process_transaction
        (record parts { process_scripts = λ t b. fails })
        payment
        alonzo
        (text "B")
        0
        processor).0
process_transaction-independent_example =
    process_transaction-independent parts (record parts { process_scripts = λ t b. fails }) payment
      alonzo (text "B") 0 processor processor refl

-- a database of the transactions' hashes, which the parts leave alone; a second insert of a hash is
-- a duplicate entry
abbrev passes : Call (List Text)
passes w = (none, w)

abbrev insert_hash : Text → Call (List Text)
insert_hash hash w =
    if any (text_eq hash) w then (some (text "Duplicate entry"), w) else (none, hash ∷ w)

abbrev table_parts : Parts (List Text)
table_parts = record {
  insert_tx = λ row. insert_hash row.hash;
  process_inputs = λ t b. passes;
  process_outputs = λ t b. passes;
  process_metadata = λ t. passes;
  process_withdrawals = λ t m b. passes;
  process_mint = λ t m. passes;
  process_scripts = λ t b. passes;
  process_collateral = λ t b. passes;
  process_collateral_return = λ t b. passes;
  process_reference_inputs = λ t b. passes;
  process_required_signers = λ t b. passes;
  process_certificates = λ t c. passes;
  process_governance = λ t b. passes;
}

abbrev table_conn : Connection (List Text)
table_conn = record {
  get_handle = λ w. none;
  ping = λ w. none;
  select_one = passes;
  do_one = λ w. w;
  set_isolation = passes;
  commit = λ w. none;
}

abbrev HasTx : Text → List Text → Type 0
HasTx h w = any (text_eq h) w ≡ true

insert_hash-created :
    (h : Text) (w : List Text) → (insert_hash h w).0 ≡ none → HasTx h (insert_hash h w).1
insert_hash-created h w =
    if-cases (λ (r : Option Text × List Text). r.0 ≡ none → HasTx h r.1) (any (text_eq h) w) _ _
      (λ _ n. absurd (some_not_none n)) (λ _ _. rw (text_eq_refl h) refl)

insert_hash-duplicated :
    (h : Text) (w : List Text) (e : Text)
    → (insert_hash h w).0 ≡ some e
    → HasTx h (insert_hash h w).1
insert_hash-duplicated h w e =
    if-cases (λ (r : Option Text × List Text). r.0 ≡ some e → HasTx h r.1) (any (text_eq h) w) _ _
      (λ k _. k) (λ _ n. absurd (none_not_some n))

insert_hash-kept : (k h : Text) (w : List Text) → HasTx h w → HasTx h (insert_hash k w).1
insert_hash-kept k h w p =
    if-cases (λ (r : Option Text × List Text). HasTx h r.1) (any (text_eq k) w) _ _ (λ _. p)
      (λ _. ground (arith, p))

tx_laws : TxLaws HasTx table_conn table_parts
tx_laws = record {
  created = λ row. insert_hash-created row.hash;
  duplicated = λ row w e h _. insert_hash-duplicated row.hash w e h;
  tx = λ row. insert_hash-kept row.hash;
  isolates = λ h w p. p;
  spends = λ t b h w p. p;
  pays = λ t b h w p. p;
  labels = λ t h w p. p;
  draws = λ t m b h w p. p;
  mints = λ t m h w p. p;
  scripted = λ t b h w p. p;
  pledges = λ t b h w p. p;
  returns = λ t b h w p. p;
  refers = λ t b h w p. p;
  signs = λ t b h w p. p;
  certifies = λ t c h w p. p;
  governs = λ t b h w p. p;
}

unfoldable empty_table : Processor (List Text)
unfolding byte_new new_era_state
empty_table = record {
  world = [];
  slot_leader_cache = byte_new 10;
  era = new_era_state;
  warnings = [];
  db_block = none;
}

no_error :
    (process_era_aware_transactions table_conn table_parts
      (text "B")
      7
      byron_main
      0
      block.transactions
      empty_table).0
    ≡ none
unfolding process_era_aware_transactions empty_table
no_error = refl

process_era_aware_transactions-Present_example :
    Present HasTx table_conn table_parts tx_laws byron_main
      (text "B")
      0
      block.transactions
      empty_table
      (process_era_aware_transactions table_conn table_parts
        (text "B")
        7
        byron_main
        0
        block.transactions
        empty_table).1
process_era_aware_transactions-Present_example =
    process_era_aware_transactions-Present HasTx table_conn table_parts tx_laws byron_main
      (text "B") 7 0 block.transactions empty_table no_error

get_or_create_slot_leader-Led_example :
    Led leaders block byron_main
      (byte_new 10)
      0
      (get_or_create_slot_leader leaders block byron_main (byte_new 10) 0)
get_or_create_slot_leader-Led_example =
    get_or_create_slot_leader-Led leaders (λ h d n m e. refl) block byron_main (byte_new 10) 0

abbrev digest : Text
digest = text "01234567890123456789012345678901"

abbrev broken : Address
broken = record { string_form = none; bytes = some (text "raw") }

address_text-Fits_example : Fits max_address_length (address_text (λ x. digest) 0 broken)
address_text-Fits_example = address_text-Fits (λ x. digest) (λ x. refl) 0 broken
