-- ===== src/Cache/Puts.antt =====
-- `Put` and its eviction, against the specification of Cache/Order.
use nectar.Prelude.{
  ℕ, zero, suc, ◌≤◌, ◌<◌, ◌≡◌, refl, ap, sym, ◌∙◌, none, some, List, [], ◌∷◌, ltb, length, arith,
  take, inl, inr, Option-cases, Bool-cases, tests,
}
use nectar.Prelude.Dict.{
  lookup, insert, erase, lookup-insert_self, lookup-insert_ne, lookup-erase_self, lookup-erase_ne,
  length-insert_new, length-erase, Distinct-insert, Distinct-erase,
}
use nectar.Cache.Lru.{LruCache, remove, move_to_front, back, update, evict, put}
use nectar.Cache.Nodes.{
  Node, ids, contents, find, without, find_cases, find-without_ne, find-without_self,
  DistinctKeys-without, ids-without, DistinctIds-without, Backed-without, Backed-update, elem_fresh,
  contents-without, last, back-last, find-last, contents-init,
}
use nectar.Cache.Order.{Linked, Holds, Represents, touch, after_put, front, hit-Holds}

module _ {K V : Type 0} (dec : Discrete K) where
  -- What `Put` does to a consistent cache, in the three cases: the key is there; it is new and
  -- there is room; it is new and the oldest entry goes.
  put_hit :
      (k : K) (v w : V) (c : LruCache K V) (i : ℕ)
      → lookup dec k c.cache ≡ some i
      → c.entry i ≡ some (k, w)
      → put dec k v c ≡ record c { list = move_to_front i c.list; entry = update c.entry i (k, v) }
  unfolding put
  put_hit k v w c i e at = ground arith

  abbrev pushed : K → V → LruCache K V → LruCache K V
  pushed k v c = record c {
    cache = insert dec k c.next c.cache;
    list = c.next ∷ c.list;
    entry = update c.entry c.next (k, v);
    next = suc c.next;
  }

  put_new :
      (k : K) (v : V) (c : LruCache K V)
      → lookup dec k c.cache ≡ none
      → put dec k v c ≡ evict dec (pushed k v c)
  unfolding put
  put_new k v c e = ground arith

  evict_room : (c : LruCache K V) → length c.list ≤ c.capacity → evict dec c ≡ c
  unfolding evict
  evict_room c h = ground arith

  evict_oldest :
      (c : LruCache K V) (i : ℕ) (k : K) (v : V)
      → c.capacity < length c.list
      → back c.list ≡ some i
      → c.entry i ≡ some (k, v)
      → evict dec c ≡ record c { list = remove i c.list; cache = erase dec k c.cache }
  unfolding evict
  evict_oldest c i k v h e at = ground arith

  pushed-Linked :
      (k : K) (v : V) (c : LruCache K V) (t : List (Node K V))
      → Linked dec c t
      → find dec k t ≡ none
      → Linked dec (pushed k v c) ((c.next, k, v) ∷ t)
  unfolding find
  pushed-Linked k v c t r e =
      let fresh = elem_fresh dec c.entry c.next t r.backed in
      record {
        order = ap (◌∷◌ c.next) r.order;
        backed = (
          ground arith,
          omega arith,
          Backed-update dec c.entry c.next (suc c.next) c.next (k, v) t r.backed (omega arith)
              fresh,
        );
        distinct_ids = (fresh, r.distinct_ids);
        distinct_keys = (e, r.distinct_keys);
        agrees = pushed-agrees;
        map_distinct = Distinct-insert dec k c.next c.cache r.map_distinct;
        map_size = length-insert_new dec k c.next c.cache (r.agrees k ∙ e) ∙ ap suc r.map_size;
      }
    where
      pushed-agrees :
          (q : K) → lookup dec q (insert dec k c.next c.cache) ≡ find dec q ((c.next, k, v) ∷ t)
      pushed-agrees q = elim (dec k q) [
        | yes p ↦ ground (arith, lookup-insert_self dec k c.next c.cache)
        | no p ↦ ground (arith, lookup-insert_ne dec q k c.next c.cache, r.agrees q)
      ]

  -- Taking a key out of the list and out of the map.
  dropped-Linked :
      (c : LruCache K V) (k : K) (i : ℕ) (t : List (Node K V))
      → Linked dec c t
      → find dec k t ≡ some i
      → Linked dec
          (record c { list = remove i c.list; cache = erase dec k c.cache })
          (without dec k t)
  dropped-Linked c k i t r e =
      let (same, _, _, count) = ids-without dec k t i e r.distinct_ids in
      record {
        order = ap (remove i) r.order ∙ sym same;
        backed = Backed-without dec c.entry c.next k t r.backed;
        distinct_ids = DistinctIds-without dec k t r.distinct_ids;
        distinct_keys = DistinctKeys-without dec k t r.distinct_keys;
        agrees = dropped-agrees;
        map_distinct = Distinct-erase dec k c.cache r.map_distinct;
        map_size = omega (arith, length-erase dec k c.cache i (r.agrees k ∙ e), count, r.map_size);
      }
    where
      dropped-agrees : (q : K) → lookup dec q (erase dec k c.cache) ≡ find dec q (without dec k t)
      dropped-agrees q = elim (dec q k) [
        | yes p ↦ rw p (
            lookup-erase_self dec k c.cache r.map_distinct
            ∙ sym (find-without_self dec k t r.distinct_keys))
        | no p ↦ lookup-erase_ne dec q k c.cache p ∙ r.agrees q ∙ sym (find-without_ne dec q k t p)
      ]

  take_of_length-le : (n : ℕ) (l : List (K × V)) → length l ≤ n → take n l ≡ l
  take_of_length-le zero [] h = refl
  take_of_length-le zero (x ∷ l) h = absurd (omega arith)
  take_of_length-le (suc n) [] h = refl
  take_of_length-le (suc n) (x ∷ l) h = ap (◌∷◌ x) (take_of_length-le n l (omega arith))

  pub length-contents : (t : List (Node K V)) → length (contents t) ≡ length (ids t)
  length-contents [] = refl
  length-contents (n ∷ t) = ap suc (length-contents t)

  without_absent : (k : K) (t : List (Node K V)) → find dec k t ≡ none → without dec k t ≡ t
  unfolding find without
  without_absent k [] e = refl
  without_absent k (n ∷ t) e = ground (arith, without_absent k t)

  length-ids : (t : List (Node K V)) → length (ids t) ≡ length t
  length-ids [] = refl
  length-ids (n ∷ t) = ap suc (length-ids t)

  touch-contents :
      (k : K) (v : V) (t : List (Node K V))
      → find dec k t ≡ none
      → touch dec k v (contents t) ≡ (k, v) ∷ contents t
  touch-contents k v t e =
      ap (◌∷◌ (k, v)) (sym (contents-without dec k t) ∙ ap contents (without_absent k t e))

  put_hit-Represents :
      (k : K) (v : V) (c : LruCache K V) (t : List (Node K V)) (i : ℕ)
      → Holds dec c t
      → find dec k t ≡ some i
      → Represents dec (put dec k v c) (after_put dec c.capacity k v (contents t))
  unfolding after_put
  put_hit-Represents k v c t i r hit =
      let (w, at, _, _, _) = find_cases dec k t i c.entry c.next hit r.backed in
      let (_, gone, _, count) = ids-without dec k t i hit r.distinct_ids in
      rw (put_hit k v w c i (r.agrees k ∙ hit) at) (
        front dec k i v t,
        hit-Holds dec c t k i v (update c.entry i (k, v)) r hit (ground arith) (
            Backed-update dec c.entry c.next c.next i (k, v) (without dec k t)
              (Backed-without dec c.entry c.next k t r.backed) (omega arith) gone),
        ap (◌∷◌ (k, v)) (contents-without dec k t)
            ∙ sym (
                take_of_length-le c.capacity (touch dec k v (contents t)) (
                  omega (
                    arith,
                    count,
                    r.bounded,
                    length-contents (without dec k t),
                    ap length (contents-without dec k t),
                  ))),
      )

  put_room-Represents :
      (k : K) (v : V) (c : LruCache K V) (t : List (Node K V))
      → Holds dec c t
      → find dec k t ≡ none
      → length (ids t) < c.capacity
      → Represents dec (put dec k v c) (after_put dec c.capacity k v (contents t))
  unfolding after_put
  put_room-Represents k v c t r miss room =
      rw
        (
          put_new k v c (r.agrees k ∙ miss),
          evict_room (pushed k v c) (omega (arith, ap length r.order)),
          touch-contents k v t miss,
        )
        (
          (c.next, k, v) ∷ t,
          record { linked = pushed-Linked k v c t r.linked miss; bounded = room },
          sym (
              take_of_length-le c.capacity ((k, v) ∷ contents t)
                (omega (arith, length-contents t))),
        )

  put_full-Represents :
      (k : K) (v : V) (c : LruCache K V) (t : List (Node K V))
      → Holds dec c t
      → find dec k t ≡ none
      → length (ids t) ≡ c.capacity
      → Represents dec (put dec k v c) (after_put dec c.capacity k v (contents t))
  unfolding after_put
  put_full-Represents k v c t r miss full =
      let n : Node K V = (c.next, k, v) in
      let p = pushed-Linked k v c t r.linked miss in
      let (found, rest) = find-last dec n t p.distinct_keys in
      let old = last dec n t in
      let (w, at, _, _, _) =
        find_cases dec old.1 (n ∷ t) old.0 (pushed k v c).entry (suc c.next) found p.backed in
      let gone = dropped-Linked (pushed k v c) old.1 old.0 (n ∷ t) p found in
      rw
        (
          put_new k v c (r.agrees k ∙ miss),
          evict_oldest (pushed k v c) old.0 old.1 w (omega (arith, ap length r.order, full))
              (ap back p.order ∙ back-last dec n t) at,
          touch-contents k v t miss,
        )
        (
          without dec old.1 (n ∷ t),
          record {
            linked = gone;
            bounded =
                omega (arith, (ids-without dec old.1 (n ∷ t) old.0 found p.distinct_ids).3, full);
          },
          ap contents rest
              ∙ contents-init dec n t
              ∙ ap (λ j. take j (contents (n ∷ t))) (sym (length-ids t) ∙ full),
        )

  -- For a cache that holds a list of entries, `Put` leaves the list with the new entry first, an
  -- older entry of the same key gone, and cut to the capacity: the least recently used entry goes.
  pub put-Represents :
      (k : K) (v : V) (c : LruCache K V) (l : List (K × V))
      → Represents dec c l
      → Represents dec (put dec k v c) (after_put dec c.capacity k v l)
  put-Represents k v c l (t, r, e) = rw (← e) (elim (Option-cases (find dec k t)) [
    | inl miss ↦ elim (Bool-cases (ltb (length (ids t)) c.capacity)) [
      | inl room ↦ put_room-Represents k v c t r miss (omega tests)
      | inr full ↦ put_full-Represents k v c t r miss (ground (arith, r.bounded))
    ]
    | inr (i, hit) ↦ put_hit-Represents k v c t i r hit
  ])
