-- ===== src/Stake/Pools.antt =====
-- The pools of processors/certificate_processor.go: `preloadPoolHashes`, `ensurePoolHash`,
-- `processPoolMetadata`, `processPoolRelays` and `processPoolOwners`.
use nectar.Prelude.{
  ℕ, suc, ◌++◌, Bool, true, Option, none, some, List, [], ◌∷◌, if◌then◌else◌, Text, text,
  text_discrete, contains,
}
use nectar.Prelude.Hex.{hex}
use nectar.Prelude.Dict.{lookup, insert}
use nectar.Cache.Existence.{is_cached}
use nectar.Cache.StakeAddress.{get_or_create_stake_address}
use nectar.Era.Slots.{to_uint32}
use nectar.Stake.Certificates.{
  Relay, single_host_address, single_host_name, multi_host_name, unknown_relay, PoolRegistration,
  PoolRelay, StakeRow, pool_metadata_row, pool_relay_row, pool_owner_row, pool_hash_row, pool_there,
  pool_missing, pool_query_failed, StakeDb, StakeState,
}

module _ {World : Type 0} (db : StakeDb World) where
  unfoldable pub cache_pools : List Text → List (Text × Bool) → List (Text × Bool)
  unfolding insert text_discrete hex
  cache_pools [] m = m
  cache_pools (h ∷ hs) m = cache_pools hs (insert text_discrete (hex h) true m)

  unfoldable pub preload_pool_hashes : StakeState World → StakeState World
  unfolding cache_pools
  preload_pool_hashes s = elim (db.load_pools s.world) [
    | none ↦ s
    | some hashes ↦ record s { pool_cache = cache_pools hashes s.pool_cache }
  ]

  -- an insert whose error is logged and passed over
  unfoldable pub insert_logged : StakeRow → StakeState World → StakeState World
  insert_logged row s = record s { world = (db.insert row s.world).1 }

  unfoldable pub cache_pool : Text → StakeState World → StakeState World
  unfolding insert text_discrete hex
  cache_pool hash s = record s { pool_cache = insert text_discrete (hex hash) true s.pool_cache }

  -- The error, or none; an insert of a pool that is there already is no error.
  unfoldable pub ensure_pool_hash : Text → StakeState World → Option Text × StakeState World
  unfolding lookup text_discrete hex cache_pool contains
  ensure_pool_hash hash s =
      if is_cached (lookup text_discrete (hex hash) s.pool_cache)
      then (none, s)
      else elim (db.find_pool hash s.world) [
        | pool_there ↦ (none, cache_pool hash s)
        | pool_query_failed e ↦ (some e, s)
        | pool_missing ↦
            let (err, w) = db.insert (pool_hash_row hash (hex hash)) s.world in
            let s1 = record s { world = w } in
            elim err [
              | none ↦ (none, cache_pool hash s1)
              | some e ↦
                  if contains (text "Duplicate entry") e
                  then (none, cache_pool hash s1)
                  else (some (text "failed to create pool hash: " ++ e), s1)
            ]
      ]

  -- `EnsureStakeAddressFromBytesWithTx`: whether there is no error
  unfoldable pub ensure_stake_address : Text → StakeState World → Option Text × StakeState World
  unfolding get_or_create_stake_address
  ensure_stake_address hash s =
      let (found, cache, w) = get_or_create_stake_address db.stakes hash s.stake_cache s.world in
      (found, record s { stake_cache = cache; world = w })

  unfoldable pub process_pool_metadata :
      Text → Text → PoolRegistration → StakeState World → StakeState World
  process_pool_metadata pool_hash tx_hash cert s = elim cert.pool_metadata [
    | none ↦ s
    | some m ↦
        let (err, w) = db.insert (pool_metadata_row m.1 pool_hash m.0 tx_hash) s.world in
        elim err [
          | none ↦ record s { world = db.queue_metadata pool_hash m.0 m.1 w }
          | some e ↦ record s { world = w }
        ]
  ]

  -- A relay of another type has no row.
  unfoldable pub relay_row : Text → ℕ → ℕ → Relay → Option PoolRelay
  relay_row tx_hash cert_index i (single_host_address v4 v6 port) = some (record {
    update_tx_hash = tx_hash;
    update_cert_index = cert_index;
    relay_index = to_uint32 i;
    ip_v4 = v4;
    ip_v6 = v6;
    dns_name = none;
    dns_srv_name = none;
    port = port;
  })
  relay_row tx_hash cert_index i (single_host_name host port) = some (record {
    update_tx_hash = tx_hash;
    update_cert_index = cert_index;
    relay_index = to_uint32 i;
    ip_v4 = none;
    ip_v6 = none;
    dns_name = host;
    dns_srv_name = none;
    port = port;
  })
  relay_row tx_hash cert_index i (multi_host_name host) = some (record {
    update_tx_hash = tx_hash;
    update_cert_index = cert_index;
    relay_index = to_uint32 i;
    ip_v4 = none;
    ip_v6 = none;
    dns_name = none;
    dns_srv_name = host;
    port = none;
  })
  relay_row tx_hash cert_index i unknown_relay = none

  unfoldable pub process_pool_relays :
      Text → ℕ → ℕ → List Relay → StakeState World → StakeState World
  unfolding relay_row insert_logged
  process_pool_relays tx_hash cert_index i [] s = s
  process_pool_relays tx_hash cert_index i (relay ∷ relays) s =
      process_pool_relays tx_hash cert_index (suc i) relays
        (elim (relay_row tx_hash cert_index i relay) [
          | none ↦ s
          | some row ↦ insert_logged (pool_relay_row row) s
        ])

  unfoldable pub process_pool_owners : Text → ℕ → List Text → StakeState World → StakeState World
  unfolding ensure_stake_address insert_logged
  process_pool_owners tx_hash cert_index [] s = s
  process_pool_owners tx_hash cert_index (owner ∷ owners) s =
      let (ensured, s1) = ensure_stake_address owner s in
      process_pool_owners tx_hash cert_index owners (elim ensured [
        | none ↦ s1
        | some h ↦ insert_logged (pool_owner_row tx_hash cert_index owner) s1
      ])
