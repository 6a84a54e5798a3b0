-- ===== src/Era/Boundaries.antt =====
-- Where `isEpochBoundary` of processors/block_processor.go fires, against the epochs that
-- `getEpochForSlot` computes.
use nectar.Prelude.{ℕ, ◌+◌, ◌^◌, ◌≤◌, ◌<◌, ◌≡◌, ◌↔◌, true, arith}
use nectar.Era.Slots.{BlockType, tag, get_epoch_for_slot, is_epoch_boundary}
use nectar.Era.Epochs.{epoch_start}

-- From the first Shelley slot up to 2^50, for a Shelley or later block, a slot counts as an epoch
-- boundary exactly when it is the 259200th slot after the first slot of its epoch: never the
-- first slot, which is the one that begins the epoch.
pub is_epoch_boundary-epoch_start :
    (slot : ℕ) (bt : BlockType)
    → 4492800 ≤ slot
    → slot < 2 ^ 50
    → 2 ≤ tag bt
    → (is_epoch_boundary slot bt ≡ true)
      ↔ (slot ≡ epoch_start (get_epoch_for_slot slot bt) + 259200)
unfolding is_epoch_boundary get_epoch_for_slot epoch_start
is_epoch_boundary-epoch_start slot BlockType.byron_ebb h b t = absurd (omega arith)
is_epoch_boundary-epoch_start slot BlockType.byron_main h b t = absurd (omega arith)
is_epoch_boundary-epoch_start slot bt h b t = ground arith

-- Among Byron main blocks below the first Shelley slot, a slot counts as an epoch boundary exactly
-- when it is the first slot of its epoch.
pub is_epoch_boundary_byron :
    (slot : ℕ)
    → slot < 4492800
    → (is_epoch_boundary slot BlockType.byron_main ≡ true)
      ↔ (slot ≡ epoch_start (get_epoch_for_slot slot BlockType.byron_main))
unfolding is_epoch_boundary get_epoch_for_slot epoch_start
is_epoch_boundary_byron slot h = ground arith
