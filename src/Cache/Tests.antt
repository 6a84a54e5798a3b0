-- ===== src/Cache/Tests.antt =====
-- The caches at a small capacity.
use native.Mathlib.Decide.{ℕ_discrete}
use nectar.Prelude.{
  ℕ, ◌≡◌, ◌⊎◌, refl, true, false, none, some, List, [], ◌∷◌, any, if◌then◌else◌, Text, text_eq,
  text_discrete, arith,
}
use nectar.Cache.StakeAddress.{StakeTable, stored, missing, get_or_create_stake_address}
use nectar.Prelude.Hex.{IsBytes}
use nectar.Cache.StakeKeys.{Keyed, get_or_create_stake_address-Keyed}
use nectar.Prelude.Dict.{lookup}
use nectar.Cache.Lru.{LruCache, new, put}
use nectar.Cache.Order.{Represents, after_put}
use nectar.Cache.Puts.{put-Represents}
use nectar.Cache.Runs.{
  Call, get_call, put_call, clear_call, run, run_list, new-Represents, run-Represents,
}

abbrev empty : LruCache ℕ ℕ
empty = new 1

abbrev one : LruCache ℕ ℕ
one = put ℕ_discrete 1 10 empty

abbrev one_entry : List (ℕ × ℕ)
one_entry = after_put ℕ_discrete empty.capacity 1 10 []

one-Represents : Represents ℕ_discrete one one_entry
one-Represents = put-Represents ℕ_discrete 1 10 empty [] (new-Represents ℕ_discrete 1)

abbrev history : List (Call ℕ ℕ)
history = get_call 1 ∷ put_call 2 20 ∷ get_call 1 ∷ clear_call ∷ get_call 2 ∷ []

run-Represents_example :
    ((run ℕ_discrete history one).0 ≡ (run_list ℕ_discrete one.capacity history one_entry).0)
    × Represents ℕ_discrete
        (run ℕ_discrete history one).1
        (run_list ℕ_discrete one.capacity history one_entry).1
run-Represents_example = run-Represents ℕ_discrete history one one_entry one-Represents

-- a table that finds every hash in its world, and otherwise stores it
abbrev stakes : StakeTable (List Text)
stakes = record {
  first = λ hash w. ((if any (text_eq hash) w then stored hash else missing), w);
  create = λ hash view w. (true, hash ∷ w);
  none_affected = λ w. false;
}

stakes-exact :
    (hash : Text) (w : List Text) (h : Text) → (stakes.first hash w).0 ≡ stored h → h ≡ hash
stakes-exact hash w h e = ground (arith, e)

abbrev zeros : Text
zeros =
    0 ∷ 0 ∷ 0 ∷ 0 ∷ 0 ∷ 0 ∷ 0 ∷ 0 ∷ 0 ∷ 0 ∷ 0 ∷ 0 ∷ 0 ∷ 0 ∷ 0 ∷ 0 ∷ 0 ∷ 0 ∷ 0 ∷ 0 ∷ 0 ∷ 0 ∷ 0 ∷ 0
    ∷ 0 ∷ 0 ∷ 0 ∷ 255 ∷ []

zeros-IsBytes : IsBytes zeros
zeros-IsBytes = ground arith

empty-Keyed : Keyed []
unfolding Keyed lookup
empty-Keyed k v e = ground (arith, e)

get_or_create_stake_address-Keyed_example :
    let r = get_or_create_stake_address stakes zeros (new 2) [] in
    ((r.0 ≡ none) ⊎ (r.0 ≡ some zeros))
    × ((l' : List (Text × Text)) × Represents text_discrete r.1 l' × Keyed l')
get_or_create_stake_address-Keyed_example =
    get_or_create_stake_address-Keyed stakes stakes-exact zeros (new 2) [] [] zeros-IsBytes refl
      (new-Represents text_discrete 2) empty-Keyed
