-- ===== src/Cache/Runs.antt =====
-- Whole histories of calls on an LRU cache: what they reply, and how much the cache holds.
use nectar.Prelude.{ℕ, ◌≤◌, ◌≡◌, refl, ap, Option, List, [], ◌∷◌, length, arith}
use nectar.Prelude.Dict.{lookup}
use nectar.Cache.Lru.{LruCache, new, get, put, size, clear}
use nectar.Cache.Nodes.{find}
use nectar.Cache.Order.{Represents, after_get, after_put, get-Represents}
use nectar.Cache.Puts.{put-Represents, length-contents}

pub data Call (K V : Type 0) : Type 0 where
  get_call : K → Call K V
  put_call : K → V → Call K V
  clear_call : Call K V

module _ {K V : Type 0} (dec : Discrete K) where
  -- the replies of the `Get`s and the cache afterwards
  unfoldable pub run : List (Call K V) → LruCache K V → List (Option V) × LruCache K V
  unfolding get put clear
  run [] c = ([], c)
  run (get_call k ∷ calls) c =
      let (c', r) = get dec k c in let (rs, c'') = run calls c' in (r ∷ rs, c'')
  run (put_call k v ∷ calls) c = run calls (put dec k v c)
  run (clear_call ∷ calls) c = run calls (clear c)

  -- the same on a list of entries
  unfoldable pub run_list : ℕ → List (Call K V) → List (K × V) → List (Option V) × List (K × V)
  unfolding after_get after_put lookup
  run_list capacity [] l = ([], l)
  run_list capacity (get_call k ∷ calls) l =
      let (rs, l') = run_list capacity calls (after_get dec k l) in (lookup dec k l ∷ rs, l')
  run_list capacity (put_call k v ∷ calls) l =
      run_list capacity calls (after_put dec capacity k v l)
  run_list capacity (clear_call ∷ calls) l = run_list capacity calls []

  pub clear-Represents : (c : LruCache K V) → Represents dec (clear c) []
  unfolding clear lookup find
  clear-Represents c = (
    [],
    record {
      linked = record {
        order = refl;
        backed = tt;
        distinct_ids = tt;
        distinct_keys = tt;
        agrees = λ k. refl;
        map_distinct = tt;
        map_size = refl;
      };
      bounded = omega arith;
    },
    refl,
  )

  pub new-Represents : (capacity : ℕ) → Represents {V = V} dec (new capacity) []
  unfolding new clear
  new-Represents capacity = clear-Represents (new capacity)

  put-capacity : (k : K) (v : V) (c : LruCache K V) → (put dec k v c).capacity ≡ c.capacity
  unfolding put
  put-capacity k v c = ground arith

  get-capacity : (k : K) (c : LruCache K V) → (get dec k c).0.capacity ≡ c.capacity
  unfolding get
  get-capacity k c = ground arith

  -- A cache that holds a list of entries has the size of the list by either of the two `Size`
  -- methods, and the list is no longer than the capacity.
  pub size-Represents :
      (c : LruCache K V) (l : List (K × V))
      → Represents dec c l
      → (size c ≡ length l) × (length c.list ≡ length l) × (length l ≤ c.capacity)
  unfolding size
  size-Represents c l (t, r, e) =
      omega (arith, ap length r.order, r.map_size, r.bounded, length-contents dec t, ap length e)

  -- For a cache that holds a list of entries, any history of calls gives the replies that the
  -- list gives, and leaves a cache that holds the list which the history leaves.
  pub run-Represents :
      (calls : List (Call K V)) (c : LruCache K V) (l : List (K × V))
      → Represents dec c l
      → ((run calls c).0 ≡ (run_list c.capacity calls l).0)
        × Represents dec (run calls c).1 (run_list c.capacity calls l).1
  unfolding run run_list clear
  run-Represents [] c l h = (refl, h)
  run-Represents (get_call k ∷ calls) c l h =
      let (reply, h') = get-Represents dec k c l h in
      let ih =
        rw (get-capacity k c) at (run-Represents calls (get dec k c).0 (after_get dec k l) h') in
      (cc (reply, ih.0), ih.1)
  run-Represents (put_call k v ∷ calls) c l h = rw (put-capacity k v c) at (
      run-Represents calls (put dec k v c) (after_put dec c.capacity k v l)
        (put-Represents dec k v c l h))
  run-Represents (clear_call ∷ calls) c l h = run-Represents calls (clear c) [] (clear-Represents c)
