-- ===== src/Sync/Tip.antt =====
-- The tip and the place to resume from, in main.go: `trackTipDistance`, `getTipDistance`,
-- `getLastProcessedSlot`, `buildIntersectionPoints`. Subtraction on `uint64` wraps around. The
-- results of the database's queries are arguments, none for an error.
use nectar.Prelude.{
  ℕ, zero, suc, ◌+◌, ◌-◌, ◌%◌, ◌^◌, Bool, true, Option, none, some, List, [], ◌∷◌, ltb, leb, ◌==◌,
  ◌||◌, if◌then◌else◌, Text,
}
use nectar.Prelude.Int.{ℤ, to_uint64}

-- `a - b` on `uint64`
abbrev pub sub_uint64 : ℕ → ℕ → ℕ
sub_uint64 a b = (a + 2 ^ 64 - b) % 2 ^ 64

-- The indexer's record of the tip; `logs` collects the lines "We're … slots behind".
pub record TipState : Type 0 where
  pub tip_slot : ℕ
  pub tip_block_no : ℕ
  pub tip_hash : Text
  pub last_tip_time : ℕ
  pub last_chain_tip_log : Option ℕ
  pub last_processed_slot : ℕ
  pub logs : List ℕ

-- `trackTipDistance` at the time `now`, in seconds
unfoldable pub track_tip_distance : ℕ → ℕ → ℕ → ℕ → Text → TipState → TipState
track_tip_distance now current_slot slot block_no hash s =
    let distance = sub_uint64 slot current_slot in
    let due : Bool = elim s.last_chain_tip_log [ none ↦ true | some t ↦ ltb 10 (now - t) ] in
    let s1 = record s {
      tip_slot = slot;
      tip_block_no = block_no;
      tip_hash = hash;
      last_tip_time = now;
    } in
    if ltb 1000 distance
    then if due then record s1 { last_chain_tip_log = some now; logs = distance ∷ s.logs } else s1
    else s1

-- the distance of `getTipDistance`
unfoldable pub get_tip_distance : TipState → ℕ
get_tip_distance s =
    if (s.tip_slot == 0) || (s.last_processed_slot == 0)
    then 0
    else sub_uint64 s.tip_slot s.last_processed_slot

abbrev safety_margin : ℕ
safety_margin = 20

-- `getLastProcessedSlot`: the query fails, or there is no block, or there is a highest slot.
unfoldable get_last_processed_slot : Option (Option ℤ) → Option ℕ
unfolding to_uint64
get_last_processed_slot none = none
get_last_processed_slot (some none) = some 0
get_last_processed_slot (some (some last_slot)) =
    let slot = to_uint64 last_slot in
    if leb slot safety_margin then some 0 else some (slot - safety_margin)

pub data Point : Type 0 where
  origin : Point
  point : ℕ → Text → Point

-- `buildIntersectionPoints`: `latest` is the slot and the hash of the block with the highest slot.
unfoldable pub build_intersection_points : Option (Option ℤ) → Option (ℕ × Text) → List Point
unfolding get_last_processed_slot
build_intersection_points max_slot latest = elim (get_last_processed_slot max_slot) [
  | none ↦ origin ∷ []
  | some zero ↦ origin ∷ []
  | some (suc n) ↦ elim latest [
    | none ↦ origin ∷ []
    | some (slot, hash) ↦ point slot hash ∷ origin ∷ []
  ]
]
