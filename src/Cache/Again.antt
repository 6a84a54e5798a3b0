-- ===== src/Cache/Again.antt =====
-- A row that a map of Cache/Existence has is not looked for again.
use nectar.Prelude.{
  ◌≡◌, refl, ap, Bool, true, Option, none, some, if◌then◌else◌, if-cases, option-cases, Text, text,
  text_discrete, some_not_none, ◌++◌,
}
use nectar.Prelude.Dict.{lookup, lookup-insert_self}
use nectar.Cache.Existence.{
  Found, there, missing, query_failed, Existing, is_cached, remember, RowTable, ensure,
}

module _ {World : Type 0} (table : RowTable World) (accepts : Text → Bool)
    (message key : Text) where
  Cached : Option Text × Existing × World → Type 0
  Cached r = r.0 ≡ none → is_cached (lookup text_discrete key r.1) ≡ true

  remember-Cached :
      (cache : Existing) → is_cached (lookup text_discrete key (remember key cache)) ≡ true
  unfolding remember
  remember-Cached cache = ap is_cached (lookup-insert_self text_discrete key true cache)

  found-Cached :
      (found : Found) (cache : Existing) (w : World)
      → let (err, w1) = table.create w in
        Cached (elim found [
          | there ↦ (none, remember key cache, w)
          | query_failed e ↦ (some (text "database error: " ++ e), cache, w)
          | missing ↦ elim err [
            | none ↦ (none, remember key cache, w1)
            | some e ↦
                if accepts e
                then (none, remember key cache, w1)
                else (some (message ++ e), cache, w1)
          ]
        ])
  unfolding Cached
  found-Cached there cache w h = remember-Cached cache
  found-Cached (query_failed e) cache w h = absurd (some_not_none h)
  found-Cached missing cache w h =
      option-cases Cached (table.create w).0 _ _ (λ _. remember-Cached cache)
        (λ e.
          if-cases Cached (accepts e) _ _ (λ _ _. remember-Cached cache)
            (λ _ k. absurd (some_not_none k)))
        h

  -- A row that was made sure of is in the map.
  ensure-Cached : (cache : Existing) (w : World) → Cached (ensure table accepts message key cache w)
  unfolding ensure Cached
  ensure-Cached cache w =
      if-cases Cached (is_cached (lookup text_discrete key cache)) _ _ (λ e _. e)
        (λ _. found-Cached (table.find w) cache w)

  known :
      (cache : Existing) (v : World)
      → is_cached (lookup text_discrete key cache) ≡ true
      → ensure table accepts message key cache v ≡ (none, cache, v)
  unfolding ensure
  known cache v h = rw h refl

  -- So it is not looked for again, whatever has become of the database.
  pub ensure-again :
      (cache : Existing) (w v : World)
      → (ensure table accepts message key cache w).0 ≡ none
      → let cache1 = (ensure table accepts message key cache w).1 in
        ensure table accepts message key cache1 v ≡ (none, cache1, v)
  unfolding Cached
  ensure-again cache w v h = known _ v (ensure-Cached cache w h)
