-- ===== src/Cache/StakeAddress.antt =====
-- `StakeAddressCache`, processors/stake_address_cache.go, on the cache of Cache/Lru. The
-- transaction's queries are parameters over a state `World`; the waits are left out.
use nectar.Prelude.{
  ℕ, zero, suc, Bool, not, Option, none, some, List, [], ◌∷◌, ◌==◌, if◌then◌else◌, length, Text,
  text_discrete,
}
use nectar.Prelude.Hex.{hex}
use nectar.Cache.Lru.{LruCache, new, get, put}

-- `First` on the stake addresses: the hash of the record, no record, or another error.
pub data StakeRecord : Type 0 where
  stored : Text → StakeRecord
  missing : StakeRecord
  query_failed : StakeRecord

-- The transaction: the query, the insert with whether it had no error, and whether
-- `tx.RowsAffected` is 0.
pub record StakeTable (World : Type 0) : Type 0 where
  pub first : Text → World → StakeRecord × World
  pub create : Text → Text → World → Bool × World
  pub none_affected : World → Bool

abbrev pub StakeCache : Type 0
StakeCache = LruCache Text Text

unfoldable pub new_stake_address_cache : StakeCache
unfolding new
new_stake_address_cache = new 200000

module _ {World : Type 0} (table : StakeTable World) where
  -- The fetches after an insert without an effect, with the rounds left.
  unfoldable pub fetch_again : ℕ → Text → World → StakeRecord × World
  fetch_again zero hash w = (missing, w)
  fetch_again (suc n) hash w =
      let (found, w1) = table.first hash w in
      let rest = fetch_again n hash w1 in
      elim found [ stored h ↦ (stored h, w1) | missing ↦ rest | query_failed ↦ (query_failed, w1) ]

  -- A new record, or the one that another worker made.
  unfoldable pub create_stake_address : Text → World → Option Text × World
  unfolding fetch_again hex
  create_stake_address hash w =
      let (ok, w1) = table.create hash (hex hash) w in
      let (found, w2) = fetch_again 3 hash w1 in
      if not ok
      then (none, w1)
      else if table.none_affected w1
      then elim found [
        | stored h ↦ (some h, w2)
        | missing ↦ (some hash, w2)
        | query_failed ↦ (none, w2)
      ]
      else (some hash, w1)

  -- what follows when the cache has no entry
  unfoldable pub load_stake_address : Text → World → Option Text × World
  unfolding create_stake_address
  load_stake_address hash w =
      let (found, w1) = table.first hash w in
      elim found [
        | stored h ↦ (some h, w1)
        | missing ↦ create_stake_address hash w1
        | query_failed ↦ (none, w1)
      ]

  -- `GetOrCreateStakeAddressFromBytesWithTx`: the hash, or none for an error.
  unfoldable pub get_or_create_stake_address :
      Text → StakeCache → World → Option Text × StakeCache × World
  unfolding get put hex load_stake_address
  get_or_create_stake_address hash c w =
      let (c1, cached) = get text_discrete (hex hash) c in
      let (loaded, w1) = load_stake_address hash w in
      if not (length hash == 28) then (none, c, w) else elim cached [
        | some h ↦ (some h, c1, w)
        | none ↦ elim loaded [
          | none ↦ (none, c1, w1)
          | some h ↦ (some h, put text_discrete (hex hash) h c1, w1)
        ]
      ]

-- a batch of `PreloadCache`
unfoldable pub preload_batch : List Text → StakeCache → StakeCache
unfolding put hex
preload_batch [] c = c
preload_batch (h ∷ hs) c = preload_batch hs (put text_discrete (hex h) h c)
