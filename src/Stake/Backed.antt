-- ===== src/Stake/Backed.antt =====
-- The pool cache of processors/certificate_processor.go and the table of pool hashes: what is
-- assumed of the database, and `ensurePoolHash` with the pools' parts.
use nectar.Prelude.{
  ℕ, suc, ◌≡◌, refl, ap, sym, ◌∙◌, subst, Bool, true, Option, none, some, List, [], ◌∷◌, ◌++◌, All,
  if◌then◌else◌, if-cases, option-cases, option-cases_eq, Text, text, text_discrete, contains,
}
use nectar.Prelude.Hex.{hex}
use nectar.Prelude.Dict.{lookup, insert, lookup-insert_ne}
use nectar.Cache.StakeWorlds.{get_or_create_stake_address-keeps}
use nectar.Cache.Existence.{is_cached}
use nectar.Stake.Certificates.{
  Relay, PoolRegistration, StakeRow, pool_metadata_row, pool_relay_row, pool_owner_row,
  pool_hash_row, PoolFound, pool_there, pool_missing, pool_query_failed, StakeDb, StakeState,
}
use nectar.Stake.Pools.{
  cache_pools, preload_pool_hashes, insert_logged, cache_pool, ensure_pool_hash,
  ensure_stake_address, process_pool_metadata, relay_row, process_pool_relays, process_pool_owners,
}

-- What the code relies on, with `HasPool` for the pools, by their views, that the table has: the
-- calls delete no pool, and a query that finds a pool and an insert, the one without an error or
-- with an error of a duplicate, mean that the pool is there.
pub record PoolLaws {World : Type 0} (db : StakeDb World) (HasPool : Text → World → Type 0)
    : Type 0 where
  pub keeps_insert :
      (row : StakeRow) (k : Text) (w : World) → HasPool k w → HasPool k (db.insert row w).1
  pub keeps_first : (hash k : Text) (w : World) → HasPool k w → HasPool k (db.stakes.first hash w).1
  pub keeps_create :
      (hash view k : Text) (w : World) → HasPool k w → HasPool k (db.stakes.create hash view w).1
  pub keeps_queue :
      (pool url hash k : Text) (w : World)
      → HasPool k w
      → HasPool k (db.queue_metadata pool url hash w)
  pub loaded :
      (hashes : List Text) (w : World)
      → db.load_pools w ≡ some hashes
      → All (λ h. HasPool (hex h) w) hashes
  pub found : (hash : Text) (w : World) → db.find_pool hash w ≡ pool_there → HasPool (hex hash) w
  pub made :
      (hash : Text) (w : World)
      → (db.insert (pool_hash_row hash (hex hash)) w).0 ≡ none
      → HasPool (hex hash) (db.insert (pool_hash_row hash (hex hash)) w).1
  pub duplicate :
      (hash : Text) (w : World) (e : Text)
      → (db.insert (pool_hash_row hash (hex hash)) w).0 ≡ some e
      → contains (text "Duplicate entry") e ≡ true
      → HasPool (hex hash) (db.insert (pool_hash_row hash (hex hash)) w).1

module _ {World : Type 0} (db : StakeDb World) (HasPool : Text → World → Type 0)
    (laws : PoolLaws db HasPool) where
  -- The pools of the cache are in the table.
  unfoldable pub Backed : StakeState World → Type 0
  Backed s = (k : Text) → is_cached (lookup text_discrete k s.pool_cache) ≡ true → HasPool k s.world

  -- the same of the state that a handler leaves
  unfoldable pub Leaves : Option Text × StakeState World → Type 0
  Leaves r = Backed r.1

  pub leaves : (e : Option Text) (s : StakeState World) → Backed s → Leaves (e, s)
  unfolding Leaves
  leaves e s b = b

  pub insert_logged-Backed :
      (row : StakeRow) (s : StakeState World) → Backed s → Backed (insert_logged db row s)
  unfolding insert_logged Backed
  insert_logged-Backed row s b k c = laws.keeps_insert row k s.world (b k c)

  pub ensure_stake_address-Backed :
      (hash : Text) (s : StakeState World) → Backed s → Backed (ensure_stake_address db hash s).1
  unfolding ensure_stake_address Backed
  ensure_stake_address-Backed hash s b k c =
      get_or_create_stake_address-keeps db.stakes (HasPool k) (λ h. laws.keeps_first h k)
        (λ h v. laws.keeps_create h v k) hash s.stake_cache s.world (b k c)

  cache_pool-Backed :
      (hash : Text) (s : StakeState World)
      → HasPool (hex hash) s.world
      → Backed s
      → Backed (cache_pool db hash s)
  unfolding cache_pool Backed
  cache_pool-Backed hash s p b k c = elim (text_discrete k (hex hash)) [
    | yes e ↦ subst (λ x. HasPool x s.world) (sym e) p
    | no n ↦
        b k
          (ap is_cached (sym (lookup-insert_ne text_discrete k (hex hash) true s.pool_cache n)) ∙ c)
  ]

  cache_pools-Backed :
      (hashes : List Text) (m : List (Text × Bool)) (w : World)
      → All (λ h. HasPool (hex h) w) hashes
      → ((k : Text) → is_cached (lookup text_discrete k m) ≡ true → HasPool k w)
      → (k : Text) → is_cached (lookup text_discrete k (cache_pools db hashes m)) ≡ true
      → HasPool k w
  unfolding cache_pools
  cache_pools-Backed [] m w a b = b
  cache_pools-Backed (h ∷ hs) m w a b =
      cache_pools-Backed hs (insert text_discrete (hex h) true m) w a.1 (λ k c.
        elim (text_discrete k (hex h)) [
          | yes e ↦ subst (λ x. HasPool x w) (sym e) a.0
          | no n ↦ b k (ap is_cached (sym (lookup-insert_ne text_discrete k (hex h) true m n)) ∙ c)
        ])

  -- The preload keeps the pools of the cache in the table.
  preload_pool_hashes-Backed : (s : StakeState World) → Backed s → Backed (preload_pool_hashes db s)
  unfolding preload_pool_hashes Backed
  preload_pool_hashes-Backed s b =
      option-cases_eq Backed (db.load_pools s.world) _ _ (λ _. b)
        (λ hashes e.
          cache_pools-Backed hashes s.pool_cache s.world (laws.loaded hashes s.world e) b)

  pool-found :
      (hash : Text) (s : StakeState World) (f : Text → Text)
      → Backed s
      → (found : PoolFound) → db.find_pool hash s.world ≡ found
      → let (err, w) = db.insert (pool_hash_row hash (hex hash)) s.world in
        let s1 = record s { world = w } in
        Leaves (elim found [
          | pool_there ↦ (none, cache_pool db hash s)
          | pool_query_failed e ↦ (some e, s)
          | pool_missing ↦ elim err [
            | none ↦ (none, cache_pool db hash s1)
            | some e ↦
                if contains (text "Duplicate entry") e
                then (none, cache_pool db hash s1)
                else (some (f e), s1)
          ]
        ])
  unfolding Leaves insert_logged
  pool-found hash s f b pool_there h = cache_pool-Backed hash s (laws.found hash s.world h) b
  pool-found hash s f b (pool_query_failed e) h = b
  pool-found hash s f b pool_missing h =
      let row = pool_hash_row hash (hex hash) in
      let s1 = insert_logged db row s in
      let b1 = insert_logged-Backed row s b in
      option-cases_eq Leaves (db.insert row s.world).0 _ _
        (λ k. cache_pool-Backed hash s1 (laws.made hash s.world k) b1)
        (λ e k.
          if-cases Leaves (contains (text "Duplicate entry") e) _ _
            (λ c. cache_pool-Backed hash s1 (laws.duplicate hash s.world e k c) b1) (λ _. b1))

  pub ensure_pool_hash-Leaves :
      (hash : Text) (s : StakeState World) → Backed s → Leaves (ensure_pool_hash db hash s)
  unfolding ensure_pool_hash
  ensure_pool_hash-Leaves hash s b =
      if-cases Leaves (is_cached (lookup text_discrete (hex hash) s.pool_cache)) _ _
        (λ _. leaves none s b)
        (λ _.
          pool-found hash s (λ e. text "failed to create pool hash: " ++ e) b
            (db.find_pool hash s.world) refl)

  pub process_pool_metadata-Backed :
      (pool tx_hash : Text) (cert : PoolRegistration) (s : StakeState World)
      → Backed s
      → Backed (process_pool_metadata db pool tx_hash cert s)
  unfolding process_pool_metadata Backed
  process_pool_metadata-Backed pool tx_hash cert s b =
      option-cases Backed cert.pool_metadata _ _ b (λ m.
        let row = pool_metadata_row m.1 pool m.0 tx_hash in
        option-cases Backed (db.insert row s.world).0 _ _
          (λ k c. laws.keeps_queue pool m.0 m.1 k _ (laws.keeps_insert row k s.world (b k c)))
          (λ e k c. laws.keeps_insert row k s.world (b k c)))

  pub process_pool_relays-Backed :
      (tx_hash : Text) (cert_index i : ℕ) (relays : List Relay) (s : StakeState World)
      → Backed s
      → Backed (process_pool_relays db tx_hash cert_index i relays s)
  unfolding process_pool_relays
  process_pool_relays-Backed tx_hash cert_index i [] s b = b
  process_pool_relays-Backed tx_hash cert_index i (relay ∷ relays) s b =
      process_pool_relays-Backed tx_hash cert_index (suc i) relays _ (
        option-cases Backed (relay_row db tx_hash cert_index i relay) _ _ b
          (λ row. insert_logged-Backed (pool_relay_row row) s b))

  pub process_pool_owners-Backed :
      (tx_hash : Text) (cert_index : ℕ) (owners : List Text) (s : StakeState World)
      → Backed s
      → Backed (process_pool_owners db tx_hash cert_index owners s)
  unfolding process_pool_owners
  process_pool_owners-Backed tx_hash cert_index [] s b = b
  process_pool_owners-Backed tx_hash cert_index (owner ∷ owners) s b =
      let (ensured, s1) = ensure_stake_address db owner s in
      let b1 = ensure_stake_address-Backed owner s b in
      process_pool_owners-Backed tx_hash cert_index owners _ (
        option-cases Backed ensured _ _ b1
          (λ _. insert_logged-Backed (pool_owner_row tx_hash cert_index owner) s1 b1))
