-- ===== src/Block/Kept.antt =====
-- What a transaction of processors/block_processor.go leaves of the transactions' rows: its own row is
-- there when it has no error, and no other is deleted.
use nectar.Prelude.{
  if◌then◌else◌, ℕ, ◌≡◌, refl, subst, Bool, true, false, Option, none, some, some_not_none, List,
  not, is_empty, contains, Text, text, arith,
}
use nectar.Prelude.Int.{ℤ}
use nectar.Era.Slots.{BlockType, alonzo, babbage, conway}
use nectar.Block.Ledger.{Certificate, LedgerTx}
use nectar.Block.Gates.{
  since, get_transaction_certificates, get_transaction_withdrawals, get_transaction_mint,
  has_governance_data,
}
use nectar.Block.Rows.{
  TxRow, tx_row, set_era_specific_tx_fields, set_validity, set_script_fields, has_validity,
  if_positive,
}
use nectar.Block.Parts.{
  Call, Operation, inputs, outputs, metadata, withdrawals, mint, scripts, collateral,
  collateral_return, reference_inputs, required_signers, certificates, governance, Parts, Processor,
  warned, run_part, run_if, fast_create, real_error, process_first_parts, process_last_parts,
  after_insert, process_transaction,
}
use nectar.Block.Process.{Connection}

choice-hash :
    (h : Text) (c : Bool) (x y : TxRow) → x.hash ≡ h → y.hash ≡ h → (if c then x else y).hash ≡ h
choice-hash h true x y e f = e
choice-hash h false x y e f = f

set_era_specific_tx_fields-hash :
    (t : LedgerTx) (b : BlockType) (row : TxRow)
    → (set_era_specific_tx_fields t b row).hash ≡ row.hash
unfolding set_era_specific_tx_fields set_validity set_script_fields
set_era_specific_tx_fields-hash t b row =
    let row1 = if has_validity b then set_validity t row else row in
    let row2 = if since alonzo b then set_script_fields t row1 else row1 in
    let h1 = choice-hash row.hash (has_validity b) (set_validity t row) row refl refl in
    let h2 = choice-hash row.hash (since alonzo b) (set_script_fields t row1) row1 h1 h1 in
    choice-hash row.hash (since conway b)
      (record row2 { treasury_donation = if_positive t.donation row2.treasury_donation }) row2 h2 h2

tx_row-hash :
    (t : LedgerTx) (block_hash : Text) (idx : ℕ) (b : BlockType)
    → (tx_row t block_hash idx b).hash ≡ t.hash
unfolding tx_row
tx_row-hash t block_hash idx b = set_era_specific_tx_fields-hash t b _

module _ {World : Type 0} (HasTx : Text → World → Type 0) where
  -- A call deletes no row of a transaction.
  abbrev pub Keeps : Call World → Type 0
  Keeps call = (h : Text) (w : World) → HasTx h w → HasTx h (call w).1

  -- The row of a transaction is there after its insert without an error, or with one that says that
  -- it is there already; nothing else deletes it.
  pub record TxLaws (conn : Connection World) (parts : Parts World) : Type 0 where
    pub created :
        (row : TxRow) (w : World)
        → (parts.insert_tx row w).0 ≡ none
        → HasTx row.hash (parts.insert_tx row w).1
    pub duplicated :
        (row : TxRow) (w : World) (e : Text)
        → (parts.insert_tx row w).0 ≡ some e
        → contains (text "Duplicate entry") e ≡ true
        → HasTx row.hash (parts.insert_tx row w).1
    pub tx : (row : TxRow) → Keeps (parts.insert_tx row)
    pub isolates : Keeps conn.set_isolation
    pub spends : (t : LedgerTx) (b : BlockType) → Keeps (parts.process_inputs t b)
    pub pays : (t : LedgerTx) (b : BlockType) → Keeps (parts.process_outputs t b)
    pub labels : (t : LedgerTx) → Keeps (parts.process_metadata t)
    pub draws :
        (t : LedgerTx) (m : List (Text × ℕ)) (b : BlockType)
        → Keeps (parts.process_withdrawals t m b)
    pub mints : (t : LedgerTx) (m : List (Text × ℤ)) → Keeps (parts.process_mint t m)
    pub scripted : (t : LedgerTx) (b : BlockType) → Keeps (parts.process_scripts t b)
    pub pledges : (t : LedgerTx) (b : BlockType) → Keeps (parts.process_collateral t b)
    pub returns : (t : LedgerTx) (b : BlockType) → Keeps (parts.process_collateral_return t b)
    pub refers : (t : LedgerTx) (b : BlockType) → Keeps (parts.process_reference_inputs t b)
    pub signs : (t : LedgerTx) (b : BlockType) → Keeps (parts.process_required_signers t b)
    pub certifies : (t : LedgerTx) (c : List Certificate) → Keeps (parts.process_certificates t c)
    pub governs : (t : LedgerTx) (b : BlockType) → Keeps (parts.process_governance t b)

  unfoldable pub Has : Text → Processor World → Type 0
  Has h s = HasTx h s.world

  warned-Has :
      (op : Operation) (s : Processor World) (r : Option Text × World) (h : Text)
      → HasTx h r.1
      → Has h (warned op s r)
  unfolding Has
  warned-Has op s (none, w) h k = k
  warned-Has op s (some e, w) h k = k

  pub run_part-Has :
      (op : Operation) (call : Call World) (h : Text) (s : Processor World)
      → Keeps call
      → Has h s
      → Has h (run_part op call s)
  unfolding run_part Has
  run_part-Has op call h s k p = warned-Has op s (call s.world) h (k h s.world p)

  run_if-Has :
      (b : Bool) (op : Operation) (call : Call World) (h : Text) (s : Processor World)
      → Keeps call
      → Has h s
      → Has h (run_if b op call s)
  unfolding run_if
  run_if-Has true op call h s k p = run_part-Has op call h s k p
  run_if-Has false op call h s k p = p

  module _ (conn : Connection World) (parts : Parts World) (laws : TxLaws conn parts)
      (b : BlockType) where
    first_parts-Has :
        (t : LedgerTx) (h : Text) (s : Processor World)
        → Has h s
        → Has h (process_first_parts parts t b s)
    unfolding process_first_parts
    first_parts-Has t h s p =
        let s1 = run_part inputs (parts.process_inputs t b) s in
        let s2 = run_part outputs (parts.process_outputs t b) s1 in
        let s3 = run_if t.has_metadata metadata (parts.process_metadata t) s2 in
        let drawn = get_transaction_withdrawals t b in
        let draw = parts.process_withdrawals t drawn b in
        let s4 = run_if (not (is_empty drawn)) withdrawals draw s3 in
        let minted = get_transaction_mint t b in
        let s5 = run_if (not (is_empty minted)) mint (parts.process_mint t minted) s4 in
        let p1 = run_part-Has inputs (parts.process_inputs t b) h s (laws.spends t b) p in
        let p2 = run_part-Has outputs (parts.process_outputs t b) h s1 (laws.pays t b) p1 in
        let p3 =
          run_if-Has t.has_metadata metadata (parts.process_metadata t) h s2 (laws.labels t) p2 in
        let p4 =
          run_if-Has (not (is_empty drawn)) withdrawals draw h s3 (laws.draws t drawn b) p3 in
        let p5 =
          run_if-Has (not (is_empty minted)) mint (parts.process_mint t minted) h s4
            (laws.mints t minted) p4 in
        run_part-Has scripts (parts.process_scripts t b) h s5 (laws.scripted t b) p5

    last_parts-Has :
        (t : LedgerTx) (h : Text) (s : Processor World)
        → Has h s
        → Has h (process_last_parts parts t b s)
    unfolding process_last_parts
    last_parts-Has t h s p =
        let s1 = run_if (since alonzo b) collateral (parts.process_collateral t b) s in
        let back = parts.process_collateral_return t b in
        let s2 = run_if (since babbage b) collateral_return back s1 in
        let refer = parts.process_reference_inputs t b in
        let s3 = run_if (since babbage b) reference_inputs refer s2 in
        let sign = parts.process_required_signers t b in
        let s4 = run_if (since alonzo b) required_signers sign s3 in
        let certs = get_transaction_certificates t b in
        let certify = parts.process_certificates t certs in
        let s5 = run_if (not (is_empty certs)) certificates certify s4 in
        let p1 =
          run_if-Has (since alonzo b) collateral (parts.process_collateral t b) h s
            (laws.pledges t b) p in
        let p2 = run_if-Has (since babbage b) collateral_return back h s1 (laws.returns t b) p1 in
        let p3 = run_if-Has (since babbage b) reference_inputs refer h s2 (laws.refers t b) p2 in
        let p4 = run_if-Has (since alonzo b) required_signers sign h s3 (laws.signs t b) p3 in
        let p5 =
          run_if-Has (not (is_empty certs)) certificates certify h s4 (laws.certifies t certs) p4 in
        run_if-Has (has_governance_data t b) governance (parts.process_governance t b) h s5
          (laws.governs t b) p5

    fast_create-stored :
        (row : TxRow) (w : World)
        → (fast_create (parts.insert_tx row) w).0 ≡ none
        → HasTx row.hash (fast_create (parts.insert_tx row) w).1
    unfolding fast_create real_error
    fast_create-stored row w = by_error (parts.insert_tx row w).0 refl
      where
        by_error :
            (o : Option Text)
            → (parts.insert_tx row w).0 ≡ o
            → real_error o ≡ none
            → HasTx row.hash (parts.insert_tx row w).1
        by_error none e n = laws.created row w e
        by_error (some e) h n = laws.duplicated row w e h (ground (arith, n))

    after_insert-Has :
        (t : LedgerTx) (h : Text) (o : Option Text) (w : World) (s : Processor World)
        → HasTx h w
        → Has h (after_insert parts t b o w s).1
    unfolding after_insert Has
    after_insert-Has t h none w s p =
        last_parts-Has t h _ (first_parts-Has t h (record s { world = w }) p)
    after_insert-Has t h (some e) w s p = p

    pub process_transaction-Has :
        (t : LedgerTx) (block_hash : Text) (idx : ℕ) (h : Text) (s : Processor World)
        → Has h s
        → Has h (process_transaction parts t b block_hash idx s).1
    unfolding process_transaction fast_create Has
    process_transaction-Has t block_hash idx h s p =
        after_insert-Has t h _ _ s (laws.tx (tx_row t block_hash idx b) h s.world p)

    pub process_transaction-stored :
        (t : LedgerTx) (block_hash : Text) (idx : ℕ) (s : Processor World)
        → (process_transaction parts t b block_hash idx s).0 ≡ none
        → Has t.hash (process_transaction parts t b block_hash idx s).1
    unfolding process_transaction Has
    process_transaction-stored t block_hash idx s n =
        let row = tx_row t block_hash idx b in
        let (err, w) = fast_create (parts.insert_tx row) s.world in
        after_insert-Has t t.hash err w s (
          subst (λ x. HasTx x w) (tx_row-hash t block_hash idx b)
            (fast_create-stored row s.world (unreturned err w n)))
      where
        unreturned :
            (o : Option Text) (w : World) → (after_insert parts t b o w s).0 ≡ none → o ≡ none
        unreturned none w n = refl
        unreturned (some e) w n = absurd (some_not_none n)
