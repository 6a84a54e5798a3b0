-- ===== src/Era/Epochs.antt =====
-- What the slot and time arithmetic of processors/block_processor.go computes over the whole chain.
use nectar.Prelude.{
  ℕ, ◌+◌, ◌-◌, ◌*◌, ◌/◌, ◌^◌, ◌≤◌, ◌<◌, ◌≡◌, some, arith, ltb, if◌then◌else◌, Bool-cases, tests,
  inl, inr,
}
use nectar.Prelude.Int.{pos, ◌+ℤ◌, ◌<ℤ◌, to_int64}
use nectar.Era.Slots.{
  BlockType, tag, get_epoch_for_slot, get_block_time, second, calculate_epoch_from_transaction,
}

-- A block type that fits its slot: Byron tags below the first Shelley slot, later tags from it on.
abbrev pub Fits : ℕ → BlockType → Type 0
Fits slot bt = (slot < 4492800 → tag bt < 2) × (4492800 ≤ slot → 2 ≤ tag bt)

byron_epoch_lem :
    (slot : ℕ) (bt : BlockType) → slot < 4492800 → get_epoch_for_slot slot bt ≡ slot / 21600
unfolding get_epoch_for_slot
byron_epoch_lem slot BlockType.byron_ebb h = ground arith
byron_epoch_lem slot bt h = ground arith

shelley_epoch_lem :
    (slot : ℕ) (bt : BlockType)
    → 4492800 ≤ slot
    → slot < 2 ^ 50
    → 2 ≤ tag bt
    → get_epoch_for_slot slot bt ≡ 208 + (slot - 4492800) / 432000
unfolding get_epoch_for_slot
shelley_epoch_lem slot BlockType.byron_ebb h b t = absurd (omega arith)
shelley_epoch_lem slot BlockType.byron_main h b t = absurd (omega arith)
shelley_epoch_lem slot bt h b t = ground arith

-- The first slot of an epoch: 208 Byron epochs of 21600 slots, then epochs of 432000 slots.
unfoldable pub epoch_start : ℕ → ℕ
epoch_start e = if ltb e 208 then e * 21600 else 4492800 + (e - 208) * 432000

-- For a slot below 2^50 and a block type that fits it, the epoch of the slot is the one whose
-- slots hold it: it starts at the slot or before, and the next epoch starts after the slot.
pub get_epoch_for_slot-epoch_start :
    (slot : ℕ) (bt : BlockType)
    → Fits slot bt
    → slot < 2 ^ 50
    → (epoch_start (get_epoch_for_slot slot bt) ≤ slot)
      × (slot < epoch_start (get_epoch_for_slot slot bt + 1))
unfolding epoch_start
get_epoch_for_slot-epoch_start slot bt h b = elim (Bool-cases (ltb slot 4492800)) [
  | inl early ↦ rw (byron_epoch_lem slot bt (omega tests)) (ground arith)
  | inr late ↦ rw (shelley_epoch_lem slot bt (ground arith) b (h.1 (ground arith))) (ground arith)
]

-- Over slots below 2^50 with fitting block types, a later slot never has an earlier epoch.
pub get_epoch_for_slot_mono :
    (s t : ℕ) (a b : BlockType)
    → Fits s a
    → Fits t b
    → s ≤ t
    → t < 2 ^ 50
    → get_epoch_for_slot s a ≤ get_epoch_for_slot t b
get_epoch_for_slot_mono s t a b ha hb le bound = elim (Bool-cases (ltb s 4492800)) [
  | inl early ↦ elim (Bool-cases (ltb t 4492800)) [
    | inl early' ↦
        rw (byron_epoch_lem s a (omega tests), byron_epoch_lem t b (omega tests)) (omega arith)
    | inr late' ↦
        rw
          (
            byron_epoch_lem s a (omega tests),
            shelley_epoch_lem t b (ground arith) bound (hb.1 (ground arith)),
          )
          (ground arith)
  ]
  | inr late ↦
      rw
        (
          shelley_epoch_lem s a (ground arith) (omega arith) (ha.1 (ground arith)),
          shelley_epoch_lem t b (ground arith) bound (hb.1 (ground arith)),
        )
        (ground arith)
]

-- For a Shelley or later block below slot 2^50, the epoch that a certificate takes from the
-- slot by dividing by 432000 is 197 or 198 epochs below the epoch of the block.
calculate_epoch_from_transaction_behind :
    (slot : ℕ) (bt : BlockType)
    → 4492800 ≤ slot
    → slot < 2 ^ 50
    → 2 ≤ tag bt
    → (calculate_epoch_from_transaction (some slot) + 197 ≤ get_epoch_for_slot slot bt)
      × (get_epoch_for_slot slot bt ≤ calculate_epoch_from_transaction (some slot) + 198)
unfolding calculate_epoch_from_transaction
calculate_epoch_from_transaction_behind slot bt h b t =
    rw (shelley_epoch_lem slot bt h b t) (omega arith)

byron_time_lem :
    (slot : ℕ) (bt : BlockType)
    → slot < 4492800
    → get_block_time slot bt ≡ pos ((1506203091 + slot * 20) * second)
unfolding get_block_time ◌+ℤ◌ to_int64
byron_time_lem slot BlockType.byron_ebb h = ground arith
byron_time_lem slot bt h = ground arith

shelley_time_lem :
    (slot : ℕ) (bt : BlockType)
    → 4492800 ≤ slot
    → slot < 9223372036
    → 2 ≤ tag bt
    → get_block_time slot bt ≡ pos ((1596059091 + (slot - 4492800)) * second)
unfolding get_block_time ◌+ℤ◌ to_int64
shelley_time_lem slot BlockType.byron_ebb h b t = absurd (omega arith)
shelley_time_lem slot BlockType.byron_main h b t = absurd (omega arith)
shelley_time_lem slot bt h b t = ground arith

-- Below slot 9223372036, with fitting block types, a later slot has a later time: the two eras'
-- clocks meet at the first Shelley slot and no duration overflows.
pub get_block_time_mono :
    (s t : ℕ) (a b : BlockType)
    → Fits s a
    → Fits t b
    → s < t
    → t < 9223372036
    → get_block_time s a <ℤ get_block_time t b
get_block_time_mono s t a b ha hb lt bound = elim (Bool-cases (ltb s 4492800)) [
  | inl early ↦ elim (Bool-cases (ltb t 4492800)) [
    | inl early' ↦
        rw (byron_time_lem s a (omega tests), byron_time_lem t b (omega tests)) (omega arith)
    | inr late' ↦
        rw
          (
            byron_time_lem s a (omega tests),
            shelley_time_lem t b (ground arith) bound (hb.1 (ground arith)),
          )
          (ground arith)
  ]
  | inr late ↦
      rw
        (
          shelley_time_lem s a (ground arith) (omega arith) (ha.1 (ground arith)),
          shelley_time_lem t b (ground arith) bound (hb.1 (ground arith)),
        )
        (ground arith)
]
