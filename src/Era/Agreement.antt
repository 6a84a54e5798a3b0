-- ===== src/Era/Agreement.antt =====
-- Where the era names that the packages compute agree: `GetEraFromSlot` of constants/eras.go,
-- `getEraFromSlot` of main.go, and `GetEraForEpoch` of processors/epoch_params_provider.go.
use nectar.Prelude.{ℕ, ◌≤◌, ◌<◌, ◌≡◌, ◌≢◌, ◌↔◌, ◌⊎◌, arith}
use nectar.Era.Slots.{BlockType, tag, get_epoch_for_slot}
use nectar.Era.Names.{Era, get_era_from_slot, indexer_era_from_slot, get_era_for_epoch}
use nectar.Era.Epochs.{Fits}

-- The slots on which the two tables of era boundaries differ: the last slots of Shelley, Allegra,
-- Mary and Alonzo, and everything from the Conway slot on.
abbrev pub Disputed : ℕ → Type 0
Disputed slot =
    ((16588738 ≤ slot) × (slot < 16588800))
    ⊎ ((23068794 ≤ slot) × (slot < 23068800))
    ⊎ ((39916797 ≤ slot) × (slot < 39916800))
    ⊎ ((72316797 ≤ slot) × (slot < 72316800))
    ⊎ (133660800 ≤ slot)

-- The era that the dashboard shows for a slot is the one of the constants exactly outside the
-- disputed slots.
pub indexer_era_from_slot-get_era_from_slot :
    (slot : ℕ) → (indexer_era_from_slot slot ≢ get_era_from_slot slot) ↔ Disputed slot
unfolding indexer_era_from_slot get_era_from_slot
indexer_era_from_slot-get_era_from_slot slot = ground arith

-- For a slot below 126748800 and a block type that fits it, the era of the slot's epoch is the era
-- of the slot by the constants.
pub get_era_for_epoch-get_epoch_for_slot :
    (slot : ℕ) (bt : BlockType)
    → Fits slot bt
    → slot < 126748800
    → get_era_for_epoch (get_epoch_for_slot slot bt) ≡ get_era_from_slot slot
unfolding get_era_for_epoch get_era_from_slot get_epoch_for_slot
get_era_for_epoch-get_epoch_for_slot slot BlockType.byron_ebb h b = ground arith
get_era_for_epoch-get_epoch_for_slot slot BlockType.byron_main h b = ground arith
get_era_for_epoch-get_epoch_for_slot slot bt h b = ground arith

-- The epoch parameters call the epochs 491 to 506 Conway, while the dashboard calls every slot of
-- these epochs Babbage.
get_era_for_epoch_early_conway :
    (slot : ℕ) (bt : BlockType)
    → 2 ≤ tag bt
    → 126748800 ≤ slot
    → slot < 133660800
    → (get_era_for_epoch (get_epoch_for_slot slot bt) ≡ Era.conway)
      × (indexer_era_from_slot slot ≡ Era.babbage)
unfolding get_era_for_epoch indexer_era_from_slot get_epoch_for_slot
get_era_for_epoch_early_conway slot BlockType.byron_ebb t a b = absurd (omega arith)
get_era_for_epoch_early_conway slot BlockType.byron_main t a b = absurd (omega arith)
get_era_for_epoch_early_conway slot bt t a b = ground arith
