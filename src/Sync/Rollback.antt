-- ===== src/Sync/Rollback.antt =====
-- `chainSyncRollBackwardHandler`, `performFullRollback` and `cleanupOrphanedData` of main.go. The
-- database is a parameter: its queries and its deletions, none for one that fails.
use nectar.Prelude.{ℕ, Bool, true, false, not, Option, none, some, ◌==◌, if◌then◌else◌}

-- `First` on the blocks: the block's slot and epoch, no such record, or another error.
pub data Found : Type 0 where
  block : ℕ → ℕ → Found
  not_found : Found
  query_error : Found

pub data Table : Type 0 where
  blocks epochs ada_pots epoch_params rewards : Table

pub record Tables (Db Hash : Type 0) : Type 0 where
  pub find_block_at : ℕ → Hash → Db → Found
  pub find_block : Hash → Db → Found
  -- the records above the number, by slot or by epoch
  pub delete_after : Table → ℕ → Db → Option Db
  -- whether the transaction can be committed
  pub commits : Db → Bool

module _ {Db : Type 0} where
  -- a deletion whose error is reported and passed over
  abbrev pub try_delete : (Db → Option Db) → Db → Db
  try_delete delete db = elim (delete db) [ none ↦ db | some db' ↦ db' ]

module _ {Db Hash : Type 0} (tables : Tables Db Hash) where
  -- the four deletions of the clean-up
  unfoldable pub delete_orphans : ℕ → ℕ → Db → Db
  delete_orphans max_slot max_epoch db = try_delete (tables.delete_after rewards max_epoch) (
      try_delete (tables.delete_after epoch_params max_epoch) (
        try_delete (tables.delete_after ada_pots max_slot)
          (try_delete (tables.delete_after epochs max_epoch) db)))

  -- The errors of the deletions are not returned; that of the query is. The block that is found has
  -- an epoch: one without would panic, which is not modelled.
  unfoldable pub cleanup_orphaned_data : Hash → Db → Option Db
  unfolding delete_orphans
  cleanup_orphaned_data hash db = elim (tables.find_block hash db) [
    | block max_slot max_epoch ↦ some (delete_orphans max_slot max_epoch db)
    | not_found ↦ none
    | query_error ↦ none
  ]

  unfoldable pub perform_full_rollback : ℕ → Db → Option Db
  perform_full_rollback slot db = tables.delete_after blocks slot db

  -- the body of the transaction
  unfoldable pub roll_back : ℕ → Hash → Db → Option Db
  unfolding cleanup_orphaned_data perform_full_rollback
  roll_back slot hash db = elim (tables.find_block_at slot hash db) [
    | block target_slot epoch ↦ elim (tables.delete_after blocks target_slot db) [
      | none ↦ none
      | some deleted ↦ elim (cleanup_orphaned_data hash deleted) [
        | none ↦ some deleted
        | some cleaned ↦ some cleaned
      ]
    ]
    | not_found ↦ if slot == 0 then some db else perform_full_rollback slot db
    | query_error ↦ none
  ]

  -- The transaction is rolled back when its body or its commit fails; true stands for no error.
  unfoldable pub chain_sync_roll_backward_handler : Bool → ℕ → Hash → Db → Db × Bool
  unfolding roll_back
  chain_sync_roll_backward_handler connected slot hash db =
      if not connected then (db, false) else elim (roll_back slot hash db) [
        | none ↦ (db, false)
        | some db' ↦ if tables.commits db' then (db', true) else (db, false)
      ]
