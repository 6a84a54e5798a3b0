-- ===== src/Era/Slots.antt =====
-- Slot, epoch and time arithmetic: the block type constants and the methods `getEpochForSlot`,
-- `getBlockTime` and `isEpochBoundary` of processors/block_processor.go, and the epoch that
-- processors/certificate_processor.go takes from a slot. Slots are `uint64`, epochs `uint32`.
use nectar.Prelude.{
  ℕ, ◌+◌, ◌-◌, ◌*◌, ◌/◌, ◌%◌, ◌^◌, Bool, true, Option, none, some, ltb, ◌==◌, if◌then◌else◌,
}
use nectar.Prelude.Int.{ℤ, pos, ◌+ℤ◌, to_int64}

-- The ledger era tags. `other` is any tag above 7.
pub data BlockType : Type 0 where
  byron_ebb byron_main shelley allegra mary alonzo babbage conway : BlockType
  other : ℕ → BlockType

-- The number behind a tag; tags are compared with `<` and `>=` in the source.
abbrev pub tag : BlockType → ℕ
tag byron_ebb = 0
tag byron_main = 1
tag shelley = 2
tag allegra = 3
tag mary = 4
tag alonzo = 5
tag babbage = 6
tag conway = 7
tag (other n) = 8 + n

-- `constants.ByronEraEndSlot`
abbrev pub byron_era_end_slot : ℕ
byron_era_end_slot = 4492799

-- A conversion to `uint32`.
abbrev pub to_uint32 : ℕ → ℕ
to_uint32 n = n % 2 ^ 32

unfoldable pub byron_epoch : ℕ → ℕ
byron_epoch slot = to_uint32 (slot / 21600)

unfoldable pub shelley_epoch : ℕ → ℕ
shelley_epoch slot = to_uint32 (208 + to_uint32 ((slot - 4492800) / 432000))

unfoldable pub get_epoch_for_slot : ℕ → BlockType → ℕ
unfolding byron_epoch shelley_epoch
get_epoch_for_slot slot block_type =
    if slot == byron_era_end_slot + 1 then 208 else elim block_type [
      | byron_ebb ↦ byron_epoch slot
      | byron_main ↦ byron_epoch slot
      | _ ↦ if ltb slot 4492800 then byron_epoch slot else shelley_epoch slot
    ]

-- Times are nanoseconds since 1970; 2020-07-29 21:44:51 UTC and 2017-09-23 21:44:51 UTC.
abbrev pub second : ℕ
second = 1000000000

abbrev pub shelley_start : ℤ
shelley_start = pos (1596059091 * second)

abbrev pub byron_start : ℤ
byron_start = pos (1506203091 * second)

-- `byronStart.Add(time.Duration(slot) * 20 * time.Second)`: a duration is an `int64`.
unfoldable pub byron_time : ℕ → ℤ
byron_time slot = byron_start +ℤ to_int64 (slot * 20 * second)

unfoldable pub shelley_time : ℕ → ℤ
shelley_time slot = shelley_start +ℤ to_int64 ((slot - 4492800) * second)

unfoldable pub get_block_time : ℕ → BlockType → ℤ
unfolding byron_time shelley_time
get_block_time slot block_type = if slot == 4492800 then shelley_start else elim block_type [
  | byron_ebb ↦ byron_time slot
  | byron_main ↦ byron_time slot
  | _ ↦ if ltb slot 4492800 then byron_time slot else shelley_time slot
]

unfoldable pub is_epoch_boundary : ℕ → BlockType → Bool
is_epoch_boundary slot block_type = elim block_type [
  | byron_ebb ↦ true
  | byron_main ↦ slot % 21600 == 0
  | _ ↦ slot % 432000 == 0
]

-- `calculateEpochFromTransaction` of processors/certificate_processor.go, on the slot of the block
-- that the query finds; `none` is a query that fails.
unfoldable pub calculate_epoch_from_transaction : Option ℕ → ℕ
calculate_epoch_from_transaction none = 0
calculate_epoch_from_transaction (some slot_no) = slot_no / 432000
