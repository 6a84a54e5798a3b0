-- ===== src/Stake/Known.antt =====
-- The pool cache of processors/certificate_processor.go.
use nectar.Prelude.{
  ◌≡◌, refl, ap, true, Option, none, some, ◌++◌, if◌then◌else◌, if-cases, option-cases,
  some_not_none, Text, text, text_discrete, contains,
}
use nectar.Prelude.Hex.{hex}
use nectar.Prelude.Dict.{lookup, lookup-insert_self}
use nectar.Cache.Existence.{is_cached}
use nectar.Stake.Certificates.{
  pool_hash_row, PoolFound, pool_there, pool_missing, pool_query_failed, StakeDb, StakeState,
}
use nectar.Stake.Pools.{cache_pool, ensure_pool_hash}

module _ {World : Type 0} (db : StakeDb World) (hash : Text) where
  -- A pool that has been made sure of needs nothing more.
  Sure : Option Text × StakeState World → Type 0
  Sure r = r.0 ≡ none → ensure_pool_hash db hash r.1 ≡ (none, r.1)

  failed-Sure : (e : Text) (s : StakeState World) → Sure (some e, s)
  unfolding Sure
  failed-Sure e s h = absurd (some_not_none h)

  cached-Sure :
      (s : StakeState World)
      → is_cached (lookup text_discrete (hex hash) s.pool_cache) ≡ true
      → Sure (none, s)
  unfolding Sure ensure_pool_hash
  cached-Sure s h k = rw h refl

  cache_pool-Sure : (s : StakeState World) → Sure (none, cache_pool db hash s)
  unfolding cache_pool
  cache_pool-Sure s =
      cached-Sure (cache_pool db hash s)
        (ap is_cached (lookup-insert_self text_discrete (hex hash) true s.pool_cache))

  found-Sure :
      (found : PoolFound) (o : Option Text) (s s1 : StakeState World) (f : Text → Text)
      → Sure (elim found [
        | pool_there ↦ (none, cache_pool db hash s)
        | pool_query_failed e ↦ (some e, s)
        | pool_missing ↦ elim o [
          | none ↦ (none, cache_pool db hash s1)
          | some e ↦
              if contains (text "Duplicate entry") e
              then (none, cache_pool db hash s1)
              else (some (f e), s1)
        ]
      ])
  found-Sure pool_there o s s1 f = cache_pool-Sure s
  found-Sure (pool_query_failed e) o s s1 f = failed-Sure e s
  found-Sure pool_missing o s s1 f = option-cases Sure o _ _ (cache_pool-Sure s1) (λ e.
      if-cases Sure (contains (text "Duplicate entry") e) _ _ (λ _. cache_pool-Sure s1)
        (λ _. failed-Sure (f e) s1))

  -- A pool hash that is made sure of without an error is made sure of again without an error, a
  -- query or an insert: the second call changes nothing.
  ensure_pool_hash-again :
      (s : StakeState World)
      → (ensure_pool_hash db hash s).0 ≡ none
      → ensure_pool_hash db hash (ensure_pool_hash db hash s).1
        ≡ (none, (ensure_pool_hash db hash s).1)
  unfolding ensure_pool_hash Sure
  ensure_pool_hash-again s =
      let (err, w) = db.insert (pool_hash_row hash (hex hash)) s.world in
      if-cases Sure (is_cached (lookup text_discrete (hex hash) s.pool_cache)) _ _ (cached-Sure s)
        (λ _.
          found-Sure (db.find_pool hash s.world) err s (record s { world = w })
            (λ e. text "failed to create pool hash: " ++ e))
