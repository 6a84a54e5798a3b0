-- ===== src/Cache/Order.antt =====
-- The LRU caches against their specification: a list of keys and values, most recently used
-- first, that never grows beyond the capacity.
use nectar.Prelude.{
  ℕ, ◌≤◌, ◌≡◌, refl, ap, sym, ◌∙◌, Option, none, some, List, ◌∷◌, length, arith, take, inl, inr,
  Option-cases,
}
use nectar.Prelude.Dict.{lookup, erase, Distinct}
use nectar.Cache.Lru.{LruCache, move_to_front, get}
use nectar.Cache.Nodes.{
  Node, ids, contents, DistinctIds, Backed, find, without, DistinctKeys, find_cases, find_miss,
  find-without_ne, find-without_self, DistinctKeys-without, ids-without, DistinctIds-without,
  Backed-without, contents-without, lookup-contents,
}

module _ {K V : Type 0} (dec : Discrete K) where
  -- The cache's list, map and heap hold the given nodes.
  pub record Linked (c : LruCache K V) (t : List (Node K V)) : Type 0 where
    pub order : c.list ≡ ids t
    pub backed : Backed c.entry c.next t
    pub distinct_ids : DistinctIds t
    pub distinct_keys : DistinctKeys dec t
    pub agrees : (k : K) → lookup dec k c.cache ≡ find dec k t
    pub map_distinct : Distinct dec c.cache
    pub map_size : length c.cache ≡ length (ids t)

  -- And there are no more of them than the capacity.
  pub record Holds (c : LruCache K V) (t : List (Node K V)) : Type 0 where
    pub linked : Linked c t
    pub open linked use *
    pub bounded : length (ids t) ≤ c.capacity

  -- Moving a key to the front, with a value.
  abbrev pub touch : K → V → List (K × V) → List (K × V)
  touch k v l = (k, v) ∷ erase dec k l

  -- What a `Get` and a `Put` do to the entries.
  unfoldable pub after_get : K → List (K × V) → List (K × V)
  after_get k l = elim (lookup dec k l) [ none ↦ l | some v ↦ touch k v l ]

  unfoldable pub after_put : ℕ → K → V → List (K × V) → List (K × V)
  after_put capacity k v l = take capacity (touch k v l)

  -- The cache holds exactly these entries, in this order.
  abbrev pub Represents : LruCache K V → List (K × V) → Type 0
  Represents c l = (t : List (Node K V)) × Holds c t × (contents t ≡ l)

  -- The nodes with a key moved to the front.
  abbrev pub front : K → ℕ → V → List (Node K V) → List (Node K V)
  front k i v t = (i, k, v) ∷ without dec k t

  agrees-front :
      (k : K) (i : ℕ) (v : V) (t : List (Node K V))
      → find dec k t ≡ some i
      → (q : K) → find dec q (front k i v t) ≡ find dec q t
  unfolding find
  agrees-front k i v t e q = elim (dec k q) [
    | yes p ↦ ground arith
    | no p ↦ ground (arith, find-without_ne dec q k t)
  ]

  -- A hit keeps the cache consistent, whatever the value is that the entry has afterwards.
  pub hit-Holds :
      (c : LruCache K V) (t : List (Node K V)) (k : K) (i : ℕ) (v : V) (h : ℕ → Option (K × V))
      → Holds c t
      → find dec k t ≡ some i
      → h i ≡ some (k, v)
      → Backed h c.next (without dec k t)
      → Holds (record c { list = move_to_front i c.list; entry = h }) (front k i v t)
  unfolding move_to_front
  hit-Holds c t k i v h r e at b =
      let (_, _, _, _, old) = find_cases dec k t i c.entry c.next e r.backed in
      let (same, gone, listed, count) = ids-without dec k t i e r.distinct_ids in
      record {
        linked = record {
          order = rw (r.order, listed, same) refl;
          backed = (at, old, b);
          distinct_ids = (gone, DistinctIds-without dec k t r.distinct_ids);
          distinct_keys = (
            find-without_self dec k t r.distinct_keys,
            DistinctKeys-without dec k t r.distinct_keys,
          );
          agrees = λ q. r.agrees q ∙ sym (agrees-front k i v t e q);
          map_distinct = r.map_distinct;
          map_size = r.map_size ∙ sym count;
        };
        bounded = omega (arith, count, r.bounded);
      }

  get_miss : (k : K) (c : LruCache K V) → lookup dec k c.cache ≡ none → get dec k c ≡ (c, none)
  unfolding get
  get_miss k c e = ground arith

  get_hit :
      (k : K) (c : LruCache K V) (i : ℕ) (v : V)
      → lookup dec k c.cache ≡ some i
      → c.entry i ≡ some (k, v)
      → get dec k c ≡ (record c { list = move_to_front i c.list }, some v)
  unfolding get
  get_hit k c i v e at = ground arith

  after_get_miss : (k : K) (l : List (K × V)) → lookup dec k l ≡ none → after_get k l ≡ l
  unfolding after_get
  after_get_miss k l e = ground arith

  after_get_hit :
      (k : K) (l : List (K × V)) (v : V) → lookup dec k l ≡ some v → after_get k l ≡ touch k v l
  unfolding after_get
  after_get_hit k l v e = ground arith

  -- For a cache that holds a list of entries, `Get` returns what the list has under the key, and
  -- leaves the list with that entry first, or the same list if the key is not in it.
  pub get-Represents :
      (k : K) (c : LruCache K V) (l : List (K × V))
      → Represents c l
      → ((get dec k c).1 ≡ lookup dec k l) × Represents (get dec k c).0 (after_get k l)
  get-Represents k c l (t, r, e) = elim (Option-cases (find dec k t)) [
    | inl miss ↦
        let none_there : lookup dec k l ≡ none =
          ap (lookup dec k) (sym e) ∙ lookup-contents dec k t ∙ find_miss dec k t miss in
        rw (get_miss k c (r.agrees k ∙ miss), none_there, after_get_miss k l none_there)
          (refl, (t, r, e))
    | inr (i, hit) ↦
        let (v, at, found, _, _) = find_cases dec k t i c.entry c.next hit r.backed in
        let there : lookup dec k l ≡ some v =
          ap (lookup dec k) (sym e) ∙ lookup-contents dec k t ∙ found in
        rw (get_hit k c i v (r.agrees k ∙ hit) at, there, after_get_hit k l v there)
          (
            refl,
            (
              front k i v t,
              hit-Holds c t k i v c.entry r hit at (Backed-without dec c.entry c.next k t r.backed),
              ap (◌∷◌ (k, v)) (contents-without dec k t ∙ ap (erase dec k) e),
            ),
          )
  ]
