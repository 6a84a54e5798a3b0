-- ===== src/Cache/StakeWorlds.antt =====
-- What the queries of processors/stake_address_cache.go keep of the database.
use nectar.Prelude.{
  ℕ, zero, suc, Option, not, ◌==◌, if-cases, option-cases, length, Text, text_discrete,
}
use nectar.Prelude.Hex.{hex}
use nectar.Cache.Lru.{get}
use nectar.Cache.StakeAddress.{
  StakeRecord, stored, missing, query_failed, StakeTable, StakeCache, fetch_again,
  create_stake_address, load_stake_address, get_or_create_stake_address,
}

-- A property of a split on a query's result is one of the three results.
record-cases :
    {A : Type 0} (Q : A → Type 0) (o : StakeRecord) (f : Text → A) (x y : A)
    → ((h : Text) → Q (f h))
    → Q x
    → Q y
    → Q (elim o [ stored h ↦ f h | missing ↦ x | query_failed ↦ y ])
record-cases Q (stored h) f x y a b c = a h
record-cases Q missing f x y a b c = b
record-cases Q query_failed f x y a b c = c

module _ {World : Type 0} (table : StakeTable World) (P : World → Type 0)
    (keeps-first : (hash : Text) (w : World) → P w → P (table.first hash w).1)
    (keeps-create : (hash view : Text) (w : World) → P w → P (table.create hash view w).1) where
  -- the property of the world after a query
  After : {A : Type 0} → A × World → Type 0
  After r = P r.1

  fetch_again-keeps : (n : ℕ) (hash : Text) (w : World) → P w → After (fetch_again table n hash w)
  unfolding fetch_again After
  fetch_again-keeps zero hash w p = p
  fetch_again-keeps (suc n) hash w p =
      let (found, w1) = table.first hash w in
      let p1 = keeps-first hash w p in
      record-cases After found _ _ _ (λ _. p1) (fetch_again-keeps n hash w1 p1) p1

  create_stake_address-keeps :
      (hash : Text) (w : World) → P w → After (create_stake_address table hash w)
  unfolding create_stake_address After
  create_stake_address-keeps hash w p =
      let w1 = (table.create hash (hex hash) w).1 in
      let p1 = keeps-create hash (hex hash) w p in
      let (found, w2) = fetch_again table 3 hash w1 in
      let p2 = fetch_again-keeps 3 hash w1 p1 in
      if-cases After (not (table.create hash (hex hash) w).0) _ _ (λ _. p1)
        (λ _.
          if-cases After (table.none_affected w1) _ _
            (λ _. record-cases After found _ _ _ (λ _. p2) p2 p2) (λ _. p1))

  load_stake_address-keeps :
      (hash : Text) (w : World) → P w → After (load_stake_address table hash w)
  unfolding load_stake_address After
  load_stake_address-keeps hash w p =
      let (found, w1) = table.first hash w in
      let p1 = keeps-first hash w p in
      record-cases After found _ _ _ (λ _. p1) (create_stake_address-keeps hash w1 p1) p1

  -- A property of the database that the query and the insert keep is kept by the look-up.
  pub get_or_create_stake_address-keeps :
      (hash : Text) (c : StakeCache) (w : World)
      → P w
      → P (get_or_create_stake_address table hash c w).2
  unfolding get_or_create_stake_address After
  get_or_create_stake_address-keeps hash c w p =
      if-cases Good (not (length hash == 28)) _ _ (λ _. p)
        (λ _.
          option-cases Good (get text_discrete (hex hash) c).1 _ _
            (option-cases Good (load_stake_address table hash w).0 _ _
              (load_stake_address-keeps hash w p) (λ _. load_stake_address-keeps hash w p))
            (λ _. p))
    where
      Good : Option Text × StakeCache × World → Type 0
      Good r = P r.2
