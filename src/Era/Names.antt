-- ===== src/Era/Names.antt =====
-- The era names that the packages give to slots, epochs and block types. An era stands for the
-- string that names it, in whatever letter case the function writes it.
use nectar.Prelude.{ℕ, leb, ltb, if◌then◌else◌}
use nectar.Era.Slots.{BlockType}

pub data Era : Type 0 where
  byron shelley allegra mary alonzo babbage conway : Era
  -- "Allegra/Mary" and "Unknown"
  allegra_mary unknown : Era

-- `constants.GetEraFromSlot`
unfoldable pub get_era_from_slot : ℕ → Era
get_era_from_slot slot =
    if leb slot 4492799
    then Era.byron
    else if leb slot 16588799
    then Era.shelley
    else if leb slot 23068799
    then Era.allegra
    else if leb slot 39916799
    then Era.mary
    else if leb slot 72316799
    then Era.alonzo
    else Era.babbage

-- `getEraFromSlot` of main.go
unfoldable pub indexer_era_from_slot : ℕ → Era
indexer_era_from_slot slot =
    if leb 133660800 slot
    then Era.conway
    else if leb 72316797 slot
    then Era.babbage
    else if leb 39916797 slot
    then Era.alonzo
    else if leb 23068794 slot
    then Era.mary
    else if leb 16588738 slot
    then Era.allegra
    else if leb 4492800 slot
    then Era.shelley
    else Era.byron

-- `GetEraForEpoch` of processors/epoch_params_provider.go
unfoldable pub get_era_for_epoch : ℕ → Era
get_era_for_epoch epoch_no =
    if ltb epoch_no 208
    then Era.byron
    else if ltb epoch_no 236
    then Era.shelley
    else if ltb epoch_no 251
    then Era.allegra
    else if ltb epoch_no 290
    then Era.mary
    else if ltb epoch_no 365
    then Era.alonzo
    else if ltb epoch_no 491
    then Era.babbage
    else Era.conway

-- `GetEraName` of processors/era_config.go
unfoldable pub get_era_name : ℕ → Era
get_era_name epoch_no =
    if ltb epoch_no 208
    then Era.byron
    else if ltb epoch_no 236
    then Era.shelley
    else if ltb epoch_no 290
    then Era.allegra_mary
    else if ltb epoch_no 365
    then Era.alonzo
    else Era.babbage

-- `getEraName` of processors/block_processor.go
unfoldable pub block_era_name : BlockType → Era
block_era_name BlockType.byron_ebb = Era.byron
block_era_name BlockType.byron_main = Era.byron
block_era_name BlockType.shelley = Era.shelley
block_era_name BlockType.allegra = Era.allegra
block_era_name BlockType.mary = Era.mary
block_era_name BlockType.alonzo = Era.alonzo
block_era_name BlockType.babbage = Era.babbage
block_era_name BlockType.conway = Era.conway
block_era_name (BlockType.other n) = Era.unknown
