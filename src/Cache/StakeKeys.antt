-- ===== src/Cache/StakeKeys.antt =====
-- What the stake address cache of processors/stake_address_cache.go holds and returns.
use nectar.Prelude.{
  ℕ, zero, suc, ◌≡◌, refl, sym, subst, ◌⊎◌, ap, ◌∙◌, inl, inr, not, Option, none, some, List, [],
  ◌∷◌, ◌==◌, if-cases, option-cases_eq, length, take, Text, text_discrete, arith,
}
use nectar.Prelude.Dict.{lookup, lookup-erase_ne}
use nectar.Prelude.Hex.{IsBytes, hex, hex-injective}
use nectar.Cache.Lru.{get}
use nectar.Cache.Order.{Represents, touch, after_get, after_put, get-Represents}
use nectar.Cache.Puts.{put-Represents}
use nectar.Cache.StakeAddress.{
  stored, StakeTable, StakeCache, fetch_again, create_stake_address, load_stake_address,
  get_or_create_stake_address,
}

-- Each entry's key is the hex of its value, which is bytes.
unfoldable pub Keyed : List (Text × Text) → Type 0
Keyed l = (k v : Text) → lookup text_discrete k l ≡ some v → (k ≡ hex v) × IsBytes v

Keyed-at :
    (l : List (Text × Text))
    → Keyed l
    → (k v : Text) → lookup text_discrete k l ≡ some v
    → (k ≡ hex v) × IsBytes v
unfolding Keyed
Keyed-at l p k v e = p k v e

lookup-take :
    (n : ℕ) (l : List (Text × Text)) (k v : Text)
    → lookup text_discrete k (take n l) ≡ some v
    → lookup text_discrete k l ≡ some v
unfolding lookup
lookup-take zero l k v e = ground arith
lookup-take (suc n) [] k v e = ground arith
lookup-take (suc n) (x ∷ l) k v e = ground (arith, lookup-take n l k v)

touch-lookup :
    (k h : Text) (l : List (Text × Text)) (q v : Text)
    → lookup text_discrete q (touch text_discrete k h l) ≡ some v
    → ((k ≡ q) × (h ≡ v)) ⊎ (lookup text_discrete q l ≡ some v)
unfolding lookup
touch-lookup k h l q v e = ground (arith, e, lookup-erase_ne text_discrete q k l)

touch-Keyed :
    (k h : Text) (l : List (Text × Text))
    → k ≡ hex h
    → IsBytes h
    → Keyed l
    → Keyed (touch text_discrete k h l)
unfolding Keyed
touch-Keyed k h l r b p q v e = elim (touch-lookup k h l q v e) [
  | inl (s, t) ↦ (sym s ∙ r ∙ ap hex t, subst IsBytes t b)
  | inr m ↦ p q v m
]

after_get-Keyed :
    (k : Text) (l : List (Text × Text)) → Keyed l → Keyed (after_get text_discrete k l)
unfolding after_get Keyed
after_get-Keyed k l p =
    option-cases_eq Keyed (lookup text_discrete k l) _ _ (λ _. p)
      (λ v e. touch-Keyed k v l (p k v e).0 (p k v e).1 p)

after_put-Keyed :
    (n : ℕ) (h : Text) (l : List (Text × Text))
    → IsBytes h
    → Keyed l
    → Keyed (after_put text_discrete n (hex h) h l)
unfolding after_put Keyed
after_put-Keyed n h l b p k v e =
    touch-Keyed (hex h) h l refl b p k v (lookup-take n (touch text_discrete (hex h) h l) k v e)

module _ {World : Type 0} (table : StakeTable World)
    -- The query for a hash finds a record with this hash.
    (exact : (hash : Text) (w : World) (h : Text)
      → (table.first hash w).0 ≡ stored h
      → h ≡ hash) where
  fetch_again-exact :
      (n : ℕ) (hash : Text) (w : World) (h : Text)
      → (fetch_again table n hash w).0 ≡ stored h
      → h ≡ hash
  unfolding fetch_again
  fetch_again-exact zero hash w h e = ground (arith, e)
  fetch_again-exact (suc n) hash w h e =
      ground (arith, e, exact hash w h, fetch_again-exact n hash (table.first hash w).1 h)

  create_stake_address-exact :
      (hash : Text) (w : World) (h : Text)
      → (create_stake_address table hash w).0 ≡ some h
      → h ≡ hash
  unfolding create_stake_address
  create_stake_address-exact hash w h e =
      ground (arith, e, fetch_again-exact 3 hash (table.create hash (hex hash) w).1 h)

  load_stake_address-exact :
      (hash : Text) (w : World) (h : Text) → (load_stake_address table hash w).0 ≡ some h → h ≡ hash
  unfolding load_stake_address
  load_stake_address-exact hash w h e =
      ground (arith, e, exact hash w h, create_stake_address-exact hash (table.first hash w).1 h)

  -- For a hash of 28 bytes and a cache whose entries each stand under the hex of a hash,
  -- `GetOrCreateStakeAddressFromBytesWithTx` returns an error or this hash, and leaves a cache whose
  -- entries each stand under the hex of a hash.
  pub get_or_create_stake_address-Keyed :
      (hash : Text) (c : StakeCache) (l : List (Text × Text)) (w : World)
      → IsBytes hash
      → length hash ≡ 28
      → Represents text_discrete c l
      → Keyed l
      → let r = get_or_create_stake_address table hash c w in
        ((r.0 ≡ none) ⊎ (r.0 ≡ some hash))
        × ((l' : List (Text × Text)) × Represents text_discrete r.1 l' × Keyed l')
  unfolding get_or_create_stake_address
  get_or_create_stake_address-Keyed hash c l w b _ held keyed =
      let (reply, held1) = get-Represents text_discrete (hex hash) c l held in
      let keyed1 = after_get-Keyed (hex hash) l keyed in
      if-cases Good (not (length hash == 28)) _ _ (λ _. (inl refl, (l, held, keyed)))
        (λ _.
          option-cases_eq Good (get text_discrete (hex hash) c).1 _ _
            (λ _.
              option-cases_eq Good (load_stake_address table hash w).0 _ _
                (λ _. (inl refl, (after_get text_discrete (hex hash) l, held1, keyed1)))
                (λ h e.
                  let same = load_stake_address-exact hash w h e in
                  let c1 = (get text_discrete (hex hash) c).0 in
                  (
                    inr (ap some same),
                    (
                      after_put text_discrete c1.capacity (hex hash) h
                          (after_get text_discrete (hex hash) l),
                      put-Represents text_discrete (hex hash) h c1
                          (after_get text_discrete (hex hash) l) held1,
                      subst
                          (λ x. Keyed (
                            after_put text_discrete c1.capacity (hex hash) x
                              (after_get text_discrete (hex hash) l)))
                          (sym same)
                          (after_put-Keyed c1.capacity hash (after_get text_discrete (hex hash) l) b
                            keyed1),
                    ),
                  )))
            (λ h e.
              let (k, bytes) = keyed_at h (sym reply ∙ e) in
              (
                inr (ap some (sym (hex-injective hash h b bytes k))),
                (after_get text_discrete (hex hash) l, held1, keyed1),
              )))
    where
      Good : Option Text × StakeCache × World → Type 0
      Good r =
          ((r.0 ≡ none) ⊎ (r.0 ≡ some hash))
          × ((l' : List (Text × Text)) × Represents text_discrete r.1 l' × Keyed l')

      keyed_at :
          (h : Text) → lookup text_discrete (hex hash) l ≡ some h → (hex hash ≡ hex h) × IsBytes h
      keyed_at h e = Keyed-at l keyed (hex hash) h e
