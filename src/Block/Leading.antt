-- ===== src/Block/Leading.antt =====
-- What the slot leader that processors/block_processor.go gives a block stands for.
use nectar.Prelude.{
  none_not_some, some_injective, ◌≡◌, ◌⊎◌, inl, inr, refl, Bool, true, false, Option, none, some,
  if◌then◌else◌, Text, text_discrete, option-cases_eq, subst,
}
use nectar.Prelude.Hex.{hex}
use nectar.Cache.Lru.{ByteCache, byte_get}
use nectar.Era.Slots.{BlockType}
use nectar.Block.Ledger.{LedgerBlock}
use nectar.Block.Leader.{
  LeaderTable, leader_description, slot_leader_hash_of, ensure_leader, get_or_create_slot_leader,
}

module _ {World : Type 0} (table : LeaderTable World) where
  -- how a call ends: the cached hash and no query, or the block's own hash, whose row is there
  abbrev pub Led :
      LedgerBlock → BlockType → ByteCache → World → Option Text × ByteCache × World → Type 0
  unfolding byte_get hex slot_leader_hash_of text_discrete
  Led block b c w (none, c', w') = Unit
  Led block b c w (some h, c', w') =
      let hash = slot_leader_hash_of block b in
      (((byte_get text_discrete (hex hash) c).1 ≡ some h) × (w' ≡ w))
      ⊎ (((byte_get text_discrete (hex hash) c).1 ≡ none)
          × (h ≡ hash)
          × (table.has_leader h w' ≡ some true))

module _ {World : Type 0} (table : LeaderTable World)
    (creates : (hash : Text) (d : Option Text) (w w' : World)
      → table.create_leader hash d w ≡ some w'
      → table.has_leader hash w' ≡ some true) where
  ensure_leader-has :
      (hash : Text) (d : Option Text) (w w' : World)
      → ensure_leader table hash d w ≡ some w'
      → table.has_leader hash w' ≡ some true
  unfolding ensure_leader
  ensure_leader-has hash d w w' e =
      option-cases_eq (λ (o : Option World). o ≡ some w' → table.has_leader hash w' ≡ some true)
        (table.has_leader hash w) _ _ (λ _ o. absurd (none_not_some o)) (λ there h. present there h)
        e
    where
      present :
          (there : Bool)
          → table.has_leader hash w ≡ some there
          → (if there then some w else table.create_leader hash d w) ≡ some w'
          → table.has_leader hash w' ≡ some true
      present true h o = subst (λ x. table.has_leader hash x ≡ some true) (some_injective o) h
      present false h o = creates hash d w w' o

  -- A call without an error returns the cached hash and leaves the database as it was, whatever the
  -- database holds, or the hash is not cached, it is the block's own, and its row is in the
  -- database, if an insert without an error stores its row.
  pub get_or_create_slot_leader-Led :
      (block : LedgerBlock) (b : BlockType) (c : ByteCache) (w : World)
      → Led table block b c w (get_or_create_slot_leader table block b c w)
  unfolding get_or_create_slot_leader
  get_or_create_slot_leader-Led block b c w =
      let hash = slot_leader_hash_of block b in
      option-cases_eq (Led table block b c w) (byte_get text_discrete (hex hash) c).1 _ _
        (λ n.
          option-cases_eq (Led table block b c w)
            (ensure_leader table hash (leader_description b) w) _ _ (λ _. tt)
            (λ w1 e. inr (n, refl, ensure_leader-has hash (leader_description b) w w1 e)))
        (λ h e. inl (e, refl))
