-- ===== src/Block/Stored.antt =====
-- Which errors of a transaction are returned, and which row a header has: processors/block_processor.go.
use nectar.Prelude.{
  some_not_none, ℕ, ◌≡◌, refl, sym, ◌∙◌, ap, false, Option, none, some, ◌++◌, if-cases,
  option-cases_eq, Text, text, arith,
}
use nectar.Era.Slots.{BlockType, byron_ebb, byron_main, shelley, is_epoch_boundary}
use nectar.Block.Ledger.{LedgerTx, LedgerBlock}
use nectar.Block.Gates.{
  since, get_transaction_certificates, get_transaction_withdrawals, get_transaction_mint,
  has_governance_data,
}
use nectar.Block.Rows.{BlockRow, tx_row, block_row}
use nectar.Block.Leader.{get_or_create_slot_leader}
use nectar.Block.Parts.{
  Call, real_error, fast_create, Operation, inputs, outputs, metadata, scripts, epoch_boundary,
  Parts, Processor, warned, run_part, run_if, process_first_parts, process_last_parts, after_insert,
  process_transaction,
}
use nectar.Block.Process.{Header, process_epoch_boundary, store_block, process_block_header}

module _ {World : Type 0} (parts : Parts World) (t : LedgerTx) where
  -- The parts of a Byron transaction: nothing of the later eras is called.
  unfoldable byron_parts : BlockType → Processor World → Processor World
  unfolding run_part
  byron_parts b s =
      let s1 = run_part inputs (parts.process_inputs t b) s in
      let s2 = run_part outputs (parts.process_outputs t b) s1 in
      let s3 = run_if t.has_metadata metadata (parts.process_metadata t) s2 in
      run_part scripts (parts.process_scripts t b) s3

  parts-byron :
      (b : BlockType) (s : Processor World)
      → since shelley b ≡ false
      → process_last_parts parts t b (process_first_parts parts t b s) ≡ byron_parts b s
  unfolding process_first_parts process_last_parts byron_parts get_transaction_certificates
      get_transaction_withdrawals get_transaction_mint has_governance_data run_part
  parts-byron byron_ebb s h = refl
  parts-byron byron_main s h = refl
  parts-byron _ s h = absurd (ground (arith, h))

  fast_create-none :
      (create : Call World) (w : World)
      → (create w).0 ≡ none
      → fast_create create w ≡ (none, (create w).1)
  unfolding fast_create real_error
  fast_create-none create w e = ap (λ (o : Option Text). (real_error o, (create w).1)) e

  -- A Byron transaction whose row is inserted without an error returns none, after its inputs, its
  -- outputs, its metadata and its scripts alone have been processed.
  process_transaction-byron :
      (b : BlockType) (block_hash : Text) (block_index : ℕ) (s : Processor World)
      → since shelley b ≡ false
      → let (err, w) = parts.insert_tx (tx_row t block_hash block_index b) s.world in
        err ≡ none
        → process_transaction parts t b block_hash block_index s
          ≡ (none, byron_parts b (record s { world = w }))
  unfolding process_transaction after_insert
  process_transaction-byron b block_hash block_index s h e =
      let row = tx_row t block_hash block_index b in
      let w = (parts.insert_tx row s.world).1 in
      ap (λ (r : Option Text × World). after_insert parts t b r.0 r.1 s)
        (fast_create-none (parts.insert_tx row) s.world e)
      ∙ ap (λ (x : Processor World). (none, x)) (parts-byron b (record s { world = w }) h)

insert_error : Option Text → Option Text
insert_error none = none
insert_error (some e) = some (text "failed to insert transaction: " ++ e)

after_insert-error :
    {World : Type 0} (parts : Parts World) (t : LedgerTx) (b : BlockType) (o : Option Text)
    (w : World) (s : Processor World)
    → (after_insert parts t b o w s).0 ≡ insert_error o
unfolding after_insert insert_error
after_insert-error parts t b none w s = refl
after_insert-error parts t b (some e) w s = refl

fast_create-error :
    {World : Type 0} (create other : Call World) (w w' : World)
    → (create w).0 ≡ (other w').0
    → (fast_create create w).0 ≡ (fast_create other w').0
unfolding fast_create
fast_create-error create other w w' e = ap real_error e

-- Whether a transaction is processed with an error, and with which, depends on the insert of its row
-- alone, whatever the parts of the transaction do and return.
pub process_transaction-independent :
    {World : Type 0} (parts others : Parts World) (t : LedgerTx) (b : BlockType) (block_hash : Text)
    (block_index : ℕ) (s s' : Processor World)
    → let row = tx_row t block_hash block_index b in
      (parts.insert_tx row s.world).0 ≡ (others.insert_tx row s'.world).0
      → (process_transaction parts t b block_hash block_index s).0
        ≡ (process_transaction others t b block_hash block_index s').0
unfolding process_transaction
process_transaction-independent parts others t b block_hash block_index s s' e =
    let row = tx_row t block_hash block_index b in
    after_insert-error parts t b (fast_create (parts.insert_tx row) s.world).0 _ s
    ∙ ap insert_error
        (fast_create-error (parts.insert_tx row) (others.insert_tx row) s.world s'.world e)
    ∙ sym (after_insert-error others t b (fast_create (others.insert_tx row) s'.world).0 _ s')

warned-db_block :
    {World : Type 0} (op : Operation) (s : Processor World) (p : Option Text × World)
    → (warned op s p).db_block ≡ s.db_block
warned-db_block op s (none, w) = refl
warned-db_block op s (some e, w) = refl

run_part-db_block :
    {World : Type 0} (op : Operation) (call : Call World) (s : Processor World)
    → (run_part op call s).db_block ≡ s.db_block
unfolding run_part
run_part-db_block op call s = warned-db_block op s (call s.world)

module _ {World : Type 0} where
  -- The processor holds a row of the block.
  abbrev pub Holds : LedgerBlock → Processor World → Type 0
  Holds block s = (row : BlockRow) × (s.db_block ≡ some row) × (row.hash ≡ block.hash)

module _ {World : Type 0} (header : Header World)
    (finds : (hash : Text) (w : World) (row : BlockRow)
      → header.find_block hash w ≡ some row
      → row.hash ≡ hash) where
  abbrev Headed : LedgerBlock → Option Text × Processor World → Type 0
  Headed block p = p.0 ≡ none → Holds block p.1

  store_block-Headed :
      (block : LedgerBlock) (b : BlockType) (row : BlockRow) (s : Processor World)
      → row.hash ≡ block.hash
      → Headed block (store_block header block b row s)
  unfolding store_block
  store_block-Headed block b row s h =
      let w = (fast_create (header.insert_block row) s.world).1 in
      option-cases_eq (Headed block) (fast_create (header.insert_block row) s.world).0 _ _
        (λ _.
          if-cases (λ (x : Processor World). Headed block (none, x))
            (is_epoch_boundary block.slot_number b) _ _
            (λ _. (λ _. (
              row,
              run_part-db_block epoch_boundary (process_epoch_boundary header row row.epoch_no b)
                  (record s { world = w; db_block = some row }),
              h,
            )))
            (λ _ _. (row, refl, h)))
        (λ e _.
          option-cases_eq (Headed block) (header.find_block row.hash w) _ _
            (λ _ o. absurd (some_not_none o))
            (λ found f _. (found, refl, finds row.hash w found f ∙ h)))

  -- After a header that is processed without an error, the row for the transactions has the block's
  -- hash, whether it was inserted or found, if a row that is found by a hash has that hash.
  process_block_header-Holds :
      (block : LedgerBlock) (b : BlockType) (s : Processor World)
      → (process_block_header header block b s).0 ≡ none
      → Holds block (process_block_header header block b s).1
  unfolding process_block_header
  process_block_header-Holds block b s =
      let (leader, cache, w) =
        get_or_create_slot_leader header.leaders block b s.slot_leader_cache s.world in
      option-cases_eq (Headed block) leader _ _ (λ _ o. absurd (some_not_none o))
        (λ hash _.
          store_block-Headed block b (block_row block b hash)
            (record s { world = w; slot_leader_cache = cache }) refl)
