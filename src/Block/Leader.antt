-- ===== src/Block/Leader.antt =====
-- `getOrCreateSlotLeader` of processors/block_processor.go, on the cache of Cache/Lru. The count and
-- the insert of the slot leaders are parameters.
use nectar.Prelude.{
  Bool, true, false, Option, none, some, if◌then◌else◌, take, Text, text, text_discrete,
}
use nectar.Prelude.Hex.{hex}
use nectar.Cache.Lru.{ByteCache, byte_get, byte_put}
use nectar.Era.Slots.{BlockType, byron_ebb, byron_main}
use nectar.Block.Ledger.{LedgerBlock, HeaderKind, keyed_header, other_header}

pub record LeaderTable (World : Type 0) : Type 0 where
  -- whether the count is above 0; none for an error
  pub has_leader : Text → World → Option Bool
  -- `FastCreate` of the row with its description; none for an error
  pub create_leader : Text → Option Text → World → Option World

abbrev pub is_byron : BlockType → Bool
is_byron byron_ebb = true
is_byron byron_main = true
is_byron _ = false

-- 28 bytes of the issuer's key, or of the block's hash
abbrev pub issuer_hash : HeaderKind → Text → Text
issuer_hash (keyed_header key vrf) hash = take 28 key
issuer_hash other_header hash = take 28 (take 28 hash)

unfoldable pub slot_leader_hash_of : LedgerBlock → BlockType → Text
slot_leader_hash_of block b =
    if is_byron b then take 28 block.hash else issuer_hash block.header block.hash

abbrev pub leader_description : BlockType → Option Text
leader_description b = if is_byron b then some (text "Byron slot leader") else none

module _ {World : Type 0} (table : LeaderTable World) where
  -- the query, and the insert where there is no row; none for an error
  unfoldable pub ensure_leader : Text → Option Text → World → Option World
  ensure_leader hash description w = elim (table.has_leader hash w) [
    | none ↦ none
    | some there ↦ if there then some w else table.create_leader hash description w
  ]

  -- The hash, or none for an error.
  unfoldable pub get_or_create_slot_leader :
      LedgerBlock → BlockType → ByteCache → World → Option Text × ByteCache × World
  unfolding byte_get byte_put text_discrete hex slot_leader_hash_of ensure_leader
  get_or_create_slot_leader block b c w =
      let hash = slot_leader_hash_of block b in
      let (c1, cached) = byte_get text_discrete (hex hash) c in
      elim cached [
        | some h ↦ (some h, c1, w)
        | none ↦ elim (ensure_leader hash (leader_description b) w) [
          | none ↦ (none, c1, w)
          | some w1 ↦ (some hash, byte_put text_discrete (hex hash) hash c1, w1)
        ]
      ]
