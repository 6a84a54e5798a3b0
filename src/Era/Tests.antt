-- ===== src/Era/Tests.antt =====
-- The era arithmetic at concrete slots.
use nectar.Prelude.{◌+◌, ◌≤◌, ◌<◌, ◌≡◌, ◌≢◌, ◌↔◌, true, arith}
use nectar.Era.Slots.{BlockType, get_epoch_for_slot, is_epoch_boundary}
use nectar.Era.Names.{get_era_from_slot, indexer_era_from_slot}
use nectar.Era.Epochs.{Fits, epoch_start, get_epoch_for_slot-epoch_start}
use nectar.Era.Boundaries.{is_epoch_boundary-epoch_start}
use nectar.Era.Agreement.{Disputed, indexer_era_from_slot-get_era_from_slot}

byron_fits : Fits 4492799 BlockType.byron_main
byron_fits = ((λ _. omega arith), (λ h. absurd (omega (arith, h))))

shelley_fits : Fits 4492800 BlockType.shelley
shelley_fits = ((λ h. absurd (omega (arith, h))), (λ _. omega arith))

get_epoch_for_slot-epoch_start_example :
    (epoch_start (get_epoch_for_slot 4492799 BlockType.byron_main) ≤ 4492799)
    × (4492799 < epoch_start (get_epoch_for_slot 4492799 BlockType.byron_main + 1))
get_epoch_for_slot-epoch_start_example =
    get_epoch_for_slot-epoch_start 4492799 BlockType.byron_main byron_fits (omega arith)

is_epoch_boundary-epoch_start_example :
    (is_epoch_boundary 4752000 BlockType.shelley ≡ true)
    ↔ (4752000 ≡ epoch_start (get_epoch_for_slot 4752000 BlockType.shelley) + 259200)
is_epoch_boundary-epoch_start_example =
    is_epoch_boundary-epoch_start 4752000 BlockType.shelley (omega arith) (omega arith)
      (omega arith)

indexer_era_from_slot-get_era_from_slot_example :
    (indexer_era_from_slot 16588740 ≢ get_era_from_slot 16588740) ↔ Disputed 16588740
indexer_era_from_slot-get_era_from_slot_example = indexer_era_from_slot-get_era_from_slot 16588740
