-- ===== src/Cache/Nodes.antt =====
-- The linked list of a cache as a list of nodes: element, key and value, most recently used first.
use nectar.Prelude.{
  ℕ, suc, ◌≤◌, ◌<◌, ◌≡◌, ◌≢◌, refl, ap, true, false, Option, none, some, List, [], ◌∷◌, length,
  arith, take,
}
use mathlib.Core.Logic.{ite}
use nectar.Prelude.Dict.{lookup, erase}
use nectar.Cache.Lru.{elem, remove, back, update}

abbrev pub Node : Type 0 → Type 0 → Type 0
Node K V = ℕ × K × V

module _ {K V : Type 0} where
  abbrev pub ids : List (Node K V) → List ℕ
  ids [] = []
  ids (n ∷ t) = n.0 ∷ ids t

  abbrev pub contents : List (Node K V) → List (K × V)
  contents [] = []
  contents (n ∷ t) = (n.1, n.2) ∷ contents t

  -- No element stands twice.
  abbrev pub DistinctIds : List (Node K V) → Type 0
  DistinctIds [] = Unit
  DistinctIds (n ∷ t) = (elem n.0 (ids t) ≡ false) × DistinctIds t

  -- Every element points to its node, and is older than the next new one.
  abbrev pub Backed : (ℕ → Option (K × V)) → ℕ → List (Node K V) → Type 0
  Backed h next [] = Unit
  Backed h next (n ∷ t) = (h n.0 ≡ some (n.1, n.2)) × (n.0 < next) × Backed h next t

module _ {K V : Type 0} (dec : Discrete K) where
  -- the element of a key
  unfoldable pub find : K → List (Node K V) → Option ℕ
  find k [] = none
  find k (n ∷ t) = ite (dec n.1 k) (some n.0) (find k t)

  unfoldable pub find_value : K → List (Node K V) → Option V
  find_value k [] = none
  find_value k (n ∷ t) = ite (dec n.1 k) (some n.2) (find_value k t)

  -- drops the first node of a key
  unfoldable pub without : K → List (Node K V) → List (Node K V)
  without k [] = []
  without k (n ∷ t) = ite (dec n.1 k) t (n ∷ without k t)

  -- No key stands twice.
  abbrev pub DistinctKeys : List (Node K V) → Type 0
  DistinctKeys [] = Unit
  DistinctKeys (n ∷ t) = (find n.1 t ≡ none) × DistinctKeys t

  -- A key that is found stands in the list, with its value behind its element.
  pub find_cases :
      (k : K) (t : List (Node K V)) (i : ℕ) (h : ℕ → Option (K × V)) (next : ℕ)
      → find k t ≡ some i
      → Backed h next t
      → (v : V) × (h i ≡ some (k, v))
        × (find_value k t ≡ some v)
        × (elem i (ids t) ≡ true)
        × (i < next)
  unfolding find find_value elem
  find_cases k [] i h next e b = ground arith
  find_cases k (n ∷ t) i h next e b = elim (dec n.1 k) [
    | yes p ↦ (n.2, ground arith, ground arith, ground arith, ground arith)
    | no p ↦
        let (v, at, found, listed, old) = find_cases k t i h next (ground arith) b.2 in
        (v, at, ground arith, ground arith, old)
  ]

  pub find_miss : (k : K) (t : List (Node K V)) → find k t ≡ none → find_value k t ≡ none
  unfolding find find_value
  find_miss k [] e = refl
  find_miss k (n ∷ t) e = ground (arith, find_miss k t)

  pub find-without_ne : (q k : K) (t : List (Node K V)) → q ≢ k → find q (without k t) ≡ find q t
  unfolding find without
  find-without_ne q k [] h = refl
  find-without_ne q k (n ∷ t) h = ground (arith, find-without_ne q k t)

  pub find-without_self :
      (k : K) (t : List (Node K V)) → DistinctKeys t → find k (without k t) ≡ none
  unfolding find without
  find-without_self k [] d = refl
  find-without_self k (n ∷ t) d = ground (arith, find-without_self k t d.1)

  pub DistinctKeys-without :
      (k : K) (t : List (Node K V)) → DistinctKeys t → DistinctKeys (without k t)
  unfolding without
  DistinctKeys-without k [] d = tt
  DistinctKeys-without k (n ∷ t) d =
      ground (arith, DistinctKeys-without k t d.1, find-without_ne n.1 k t)

  -- The element of a key is taken out of the order exactly where its node is.
  pub ids-without :
      (k : K) (t : List (Node K V)) (i : ℕ)
      → find k t ≡ some i
      → DistinctIds t
      → (ids (without k t) ≡ remove i (ids t))
        × (elem i (ids (without k t)) ≡ false)
        × (elem i (ids t) ≡ true)
        × (suc (length (ids (without k t))) ≡ length (ids t))
  unfolding find without remove elem
  ids-without k [] i e d = ground arith
  ids-without k (n ∷ t) i e d = elim (dec n.1 k) [
    | yes p ↦ ground arith
    | no p ↦ ground (arith, ids-without k t i (ground arith) d.1)
  ]

  elem-without :
      (j : ℕ) (k : K) (t : List (Node K V))
      → elem j (ids t) ≡ false
      → elem j (ids (without k t)) ≡ false
  unfolding without elem
  elem-without j k [] e = refl
  elem-without j k (n ∷ t) e = ground (arith, elem-without j k t)

  pub DistinctIds-without :
      (k : K) (t : List (Node K V)) → DistinctIds t → DistinctIds (without k t)
  unfolding without
  DistinctIds-without k [] d = tt
  DistinctIds-without k (n ∷ t) d =
      ground (arith, DistinctIds-without k t d.1, elem-without n.0 k t d.0)

  pub Backed-without :
      (h : ℕ → Option (K × V)) (next : ℕ) (k : K) (t : List (Node K V))
      → Backed h next t
      → Backed h next (without k t)
  unfolding without
  Backed-without h next k [] b = tt
  Backed-without h next k (n ∷ t) b = ground (arith, Backed-without h next k t b.2)

  -- A write to an element that no node has changes no node.
  pub Backed-update :
      (h : ℕ → Option (K × V)) (next next' i : ℕ) (e : K × V) (t : List (Node K V))
      → Backed h next t
      → next ≤ next'
      → elem i (ids t) ≡ false
      → Backed (update h i e) next' t
  unfolding elem
  Backed-update h next next' i e [] b le f = tt
  Backed-update h next next' i e (n ∷ t) b le f =
      ground (arith, Backed-update h next next' i e t b.2 le)

  -- A new element is in no list of older ones.
  pub elem_fresh :
      (h : ℕ → Option (K × V)) (next : ℕ) (t : List (Node K V))
      → Backed h next t
      → elem next (ids t) ≡ false
  unfolding elem
  elem_fresh h next [] b = refl
  elem_fresh h next (n ∷ t) b = ground (arith, elem_fresh h next t b.2)

  pub contents-without :
      (k : K) (t : List (Node K V)) → contents (without k t) ≡ erase dec k (contents t)
  unfolding without erase
  contents-without k [] = refl
  contents-without k (n ∷ t) = ground (arith, contents-without k t)

  pub lookup-contents : (k : K) (t : List (Node K V)) → lookup dec k (contents t) ≡ find_value k t
  unfolding find_value lookup
  lookup-contents k [] = refl
  lookup-contents k (n ∷ t) = ground (arith, lookup-contents k t)

-- Dropping the last node.
module _ {K V : Type 0} (dec : Discrete K) where
  -- all nodes but the last, and the last
  unfoldable pub init : Node K V → List (Node K V) → List (Node K V)
  init n [] = []
  init n (m ∷ t) = n ∷ init m t

  unfoldable pub last : Node K V → List (Node K V) → Node K V
  last n [] = n
  last n (m ∷ t) = last m t

  pub back-last : (n : Node K V) (t : List (Node K V)) → back (ids (n ∷ t)) ≡ some (last n t).0
  unfolding back last
  back-last n [] = refl
  back-last n (m ∷ t) = back-last m t

  -- The oldest node is the node of its key, so dropping it is taking its key out.
  pub find-last :
      (n : Node K V) (t : List (Node K V))
      → DistinctKeys dec (n ∷ t)
      → (find dec (last n t).1 (n ∷ t) ≡ some (last n t).0)
        × (without dec (last n t).1 (n ∷ t) ≡ init n t)
  unfolding find without last init
  find-last n [] d = ground arith
  find-last n (m ∷ t) d = elim (dec n.1 (last m t).1) [
    | yes p ↦ absurd (last-ne n.1 m t d.1 d.0 p)
    | no p ↦ ground (arith, find-last m t d.1)
  ]
    where
      last-ne :
          (k : K) (m : Node K V) (t : List (Node K V))
          → DistinctKeys dec (m ∷ t)
          → find dec k (m ∷ t) ≡ none
          → k ≢ (last m t).1
      last-ne k m [] d e = ground arith
      last-ne k m (o ∷ t) d e = last-ne k o t d.1 (ground arith)

  pub contents-init :
      (n : Node K V) (t : List (Node K V))
      → contents (init n t) ≡ take (length t) (contents (n ∷ t))
  unfolding init
  contents-init n [] = refl
  contents-init n (m ∷ t) = ap (◌∷◌ (n.1, n.2)) (contents-init m t)
