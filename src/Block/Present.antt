-- ===== src/Block/Present.antt =====
-- Which transactions of a block the database has after `processEraAwareTransactions` of
-- processors/block_processor.go.
use nectar.Prelude.{
  ℕ, suc, ◌≡◌, ◌⊎◌, inl, inr, refl, sym, subst, true, Option, none, some, some_not_none, List, [],
  ◌∷◌, leb, ◌&&◌, if-cases, option-cases, option-cases_eq, none_not_some, contains, Text, text,
}
use nectar.Retry.Loop.{Outcome, succeeded, failed, exhausted, Finish, retry}
use nectar.Era.Slots.{BlockType}
use nectar.Block.Ledger.{LedgerTx}
use nectar.Block.Parts.{Parts, Processor, run_part, isolation, process_transaction}
use nectar.Block.Process.{Connection, transactional, retry_error, process_era_aware_transactions}
use nectar.Block.Rolled.{Kept, retry-Kept, Attempted, retry-Attempted}
use nectar.Block.Kept.{
  TxLaws, Has, run_part-Has, process_transaction-Has, process_transaction-stored,
}

module _ {World : Type 0} (HasTx : Text → World → Type 0) (conn : Connection World)
    (parts : Parts World) (laws : TxLaws HasTx conn parts) (b : BlockType) (block_hash : Text) where
  unfoldable pub finish_of : ℕ → LedgerTx → Processor World → Finish (Processor World)
  unfolding transactional retry process_transaction
  finish_of idx t s = retry (transactional conn (process_transaction parts t b block_hash idx)) s

  -- The transaction gave, after its attempts, an error that names a duplicate entry, and left
  -- the database as it was.
  abbrev pub Refused : ℕ → LedgerTx → Processor World → Type 0
  Refused idx t s =
      let f = finish_of idx t s in
      (e : Text) × (retry_error conn f.outcome ≡ some e)
      × (contains (text "Duplicate entry") e ≡ true)
      × (f.state.world ≡ s.world)

  -- The database has the row of each transaction at the end, or the transaction was refused.
  unfoldable pub Present : ℕ → List LedgerTx → Processor World → Processor World → Type 0
  unfolding finish_of retry_error contains
  Present idx [] s s' = Unit
  Present idx (t ∷ ts) s s' =
      (HasTx t.hash s'.world ⊎ Refused idx t s) × Present (suc idx) ts (finish_of idx t s).state s'

  finish_of-Has :
      (idx : ℕ) (t : LedgerTx) (s : Processor World) (h : Text)
      → HasTx h s.world
      → HasTx h (finish_of idx t s).state.world
  unfolding finish_of Attempted Kept Has
  finish_of-Has idx t s h p =
      let body = process_transaction parts t b block_hash idx in
      elim (retry-Kept conn body s) [
        | inr k ↦ subst (HasTx h) (sym k) p
        | inl o ↦
            let (s0, e, (n, r)) = retry-Attempted conn body s o in
            subst (λ (x : Processor World). HasTx h x.world) (sym r)
              (process_transaction-Has HasTx conn parts laws b t block_hash idx h
                (run_part isolation conn.set_isolation s0)
                (run_part-Has HasTx isolation conn.set_isolation h s0 laws.isolates
                  (subst (HasTx h) (sym e) p)))
      ]

  finish_of-stored :
      (idx : ℕ) (t : LedgerTx) (s : Processor World)
      → (finish_of idx t s).outcome ≡ succeeded
      → HasTx t.hash (finish_of idx t s).state.world
  unfolding finish_of Attempted Has
  finish_of-stored idx t s o =
      let body = process_transaction parts t b block_hash idx in
      let (s0, e, (n, r)) = retry-Attempted conn body s o in
      subst (λ (x : Processor World). HasTx t.hash x.world) (sym r)
        (process_transaction-stored HasTx conn parts laws b t block_hash idx
          (run_part isolation conn.set_isolation s0) n)

  unerring : (o : Outcome) → retry_error conn o ≡ none → o ≡ succeeded
  unfolding retry_error
  unerring succeeded h = refl
  unerring (failed e) h = absurd (some_not_none h)
  unerring (exhausted n) h = absurd (some_not_none h)

  unsettled : (o : Outcome) (e : Text) → retry_error conn o ≡ some e → ¬ (o ≡ succeeded)
  unfolding retry_error
  unsettled succeeded e h = absurd (none_not_some h)
  unsettled (failed x) e h = λ c. cc
  unsettled (exhausted n) e h = λ c. cc

  -- the rest of the block deletes no row
  processed-Has :
      (block_number idx : ℕ) (ts : List LedgerTx) (s : Processor World) (h : Text)
      → HasTx h s.world
      → HasTx h
          (process_era_aware_transactions conn parts block_hash block_number b idx ts s).1.world
  unfolding process_era_aware_transactions finish_of
  processed-Has block_number idx [] s h p = p
  processed-Has block_number idx (t ∷ ts) s h p =
      let f = finish_of idx t s in
      let k = finish_of-Has idx t s h p in
      let rest = processed-Has block_number (suc idx) ts f.state h k in
      option-cases Kept_h (retry_error conn f.outcome) _ _ rest (λ e.
        if-cases Kept_h (contains (text "Duplicate entry") e) _ _ (λ _. rest)
          (λ _.
            if-cases Kept_h (leb 4492800 block_number && leb block_number 4493000) _ _ (λ _. k)
              (λ _. k)))
    where
      Kept_h : Option Text × Processor World → Type 0
      Kept_h r = HasTx h r.1.world

  refused :
      (idx : ℕ) (t : LedgerTx) (s : Processor World) (e : Text)
      → retry_error conn (finish_of idx t s).outcome ≡ some e
      → contains (text "Duplicate entry") e ≡ true
      → Refused idx t s
  unfolding finish_of Kept
  refused idx t s e o d = elim (retry-Kept conn (process_transaction parts t b block_hash idx) s) [
    | inl k ↦ absurd (unsettled _ e o k)
    | inr k ↦ (e, o, d, k)
  ]

  Goes : ℕ → List LedgerTx → Processor World → Option Text × Processor World → Type 0
  Goes idx ts s r = r.0 ≡ none → Present idx ts s r.1

  -- Let an insert of a transaction's row without an error, or with one that names a duplicate
  -- entry, leave a row with its hash, and let no part of a transaction delete such a row. When
  -- the transactions of a block are processed without an error, the database has at the end the
  -- row of each of them but of those that were refused: whose transaction, after the retries,
  -- gave an error that names a duplicate entry and left the database as it was.
  pub process_era_aware_transactions-Present :
      (block_number idx : ℕ) (ts : List LedgerTx) (s : Processor World)
      → let (err, s') =
          process_era_aware_transactions conn parts block_hash block_number b idx ts s in
        err ≡ none → Present idx ts s s'
  unfolding process_era_aware_transactions Present finish_of Goes
  process_era_aware_transactions-Present block_number idx [] s = λ n. tt
  process_era_aware_transactions-Present block_number idx (t ∷ ts) s =
      let f = finish_of idx t s in
      let rest = process_era_aware_transactions-Present block_number (suc idx) ts f.state in
      option-cases_eq (Goes idx (t ∷ ts) s) (retry_error conn f.outcome) _ _
        (λ o n. (
          inl (
              processed-Has block_number (suc idx) ts f.state t.hash
                (finish_of-stored idx t s (unerring _ o))),
          rest n,
        ))
        (λ e o.
          if-cases (Goes idx (t ∷ ts) s) (contains (text "Duplicate entry") e) _ _
            (λ d n. (inr (refused idx t s e o d), rest n))
            (λ _.
              if-cases (Goes idx (t ∷ ts) s) (leb 4492800 block_number && leb block_number 4493000)
                _ _ (λ _ n. absurd (some_not_none n)) (λ _ n. absurd (some_not_none n))))
