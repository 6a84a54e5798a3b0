-- ===== src/Cache/Lru.antt =====
-- The two LRU caches, processors/generic_lru_cache.go and processors/byte_lru_cache.go. The map
-- holds pointers to the elements of a linked list, so the model keeps a heap of entries: an
-- element is a number, `entry` is what it points to, and `list` is the order of the elements,
-- most recently used first. The mutex makes each method one step.
use nectar.Prelude.{
  ℕ, suc, Bool, false, Option, none, some, List, [], ◌∷◌, ltb, ◌==◌, ◌||◌, if◌then◌else◌, length,
  Text,
}
use nectar.Prelude.Dict.{lookup, insert, erase}

-- `container/list`: an element is in the list, is taken out of it, is moved to the front (nothing
-- happens if it is not in the list), and the last element.
unfoldable pub elem : ℕ → List ℕ → Bool
elem i [] = false
elem i (j ∷ l) = j == i || elem i l

unfoldable pub remove : ℕ → List ℕ → List ℕ
remove i [] = []
remove i (j ∷ l) = if j == i then l else j ∷ remove i l

unfoldable pub move_to_front : ℕ → List ℕ → List ℕ
unfolding elem remove
move_to_front i l = if elem i l then i ∷ remove i l else l

unfoldable pub back : List ℕ → Option ℕ
back [] = none
back (i ∷ []) = some i
back (i ∷ j ∷ l) = back (j ∷ l)

pub record LruCache (K V : Type 0) : Type 0 where
  pub capacity : ℕ
  pub cache : List (K × ℕ)
  pub list : List ℕ
  pub entry : ℕ → Option (K × V)
  pub next : ℕ

abbrev pub update : {A : Type 0} → (ℕ → Option A) → ℕ → A → ℕ → Option A
update h i a j = if i == j then some a else h j

-- `NewGenericLRUCache`
unfoldable pub new : {K V : Type 0} → ℕ → LruCache K V
new capacity = record { capacity = capacity; cache = []; list = []; entry = λ i. none; next = 0 }

module _ {K V : Type 0} (dec : Discrete K) where
  -- the value that an element points to
  unfoldable pub value : LruCache K V → ℕ → Option V
  value c i = elim (c.entry i) [ none ↦ none | some (k, v) ↦ some v ]

  -- `Get`: the value, or `none` for `nil, false`
  unfoldable pub get : K → LruCache K V → LruCache K V × Option V
  unfolding lookup move_to_front value
  get key c = elim (lookup dec key c.cache) [
    | none ↦ (c, none)
    | some i ↦ (record c { list = move_to_front i c.list }, value c i)
  ]

  -- the eviction at the end of `Put`
  unfoldable pub evict : LruCache K V → LruCache K V
  unfolding back remove erase
  evict c =
      if ltb c.capacity (length c.list)
      then elim (back c.list) [
        | none ↦ c
        | some oldest ↦ elim (c.entry oldest) [
          | none ↦ record c { list = remove oldest c.list }
          | some (k, v) ↦ record c { list = remove oldest c.list; cache = erase dec k c.cache }
        ]
      ]
      else c

  -- `Put`; the entry of an element that is found keeps its key
  unfoldable pub put : K → V → LruCache K V → LruCache K V
  unfolding lookup move_to_front insert evict
  put key v c = elim (lookup dec key c.cache) [
    | none ↦ evict (record c {
      cache = insert dec key c.next c.cache;
      list = c.next ∷ c.list;
      entry = update c.entry c.next (key, v);
      next = suc c.next;
    })
    | some i ↦ elim (c.entry i) [
      | none ↦ record c { list = move_to_front i c.list }
      | some (k, w) ↦ record c { list = move_to_front i c.list; entry = update c.entry i (k, v) }
    ]
  ]

-- `Size` of the generic cache counts the map, `Size` of the byte cache the list.
unfoldable pub size : {K V : Type 0} → LruCache K V → ℕ
size c = length c.cache

-- `Clear`: the old elements are out of the list and out of the map.
unfoldable pub clear : {K V : Type 0} → LruCache K V → LruCache K V
clear c = record c { cache = []; list = [] }

-- The byte cache has the same fields and methods at values that are byte strings; only its
-- `Size` differs.
abbrev pub ByteCache : Type 0
ByteCache = LruCache Text Text

unfoldable pub byte_new : ℕ → ByteCache
unfolding new
byte_new = new

module _ (dec : Discrete Text) where
  unfoldable pub byte_get : Text → ByteCache → ByteCache × Option Text
  unfolding get
  byte_get = get dec

  unfoldable pub byte_put : Text → Text → ByteCache → ByteCache
  unfolding put
  byte_put = put dec

unfoldable pub byte_size : ByteCache → ℕ
byte_size c = length c.list

unfoldable pub byte_clear : ByteCache → ByteCache
unfolding clear
byte_clear = clear
