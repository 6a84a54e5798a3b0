-- ===== src/Prelude/Dict.antt =====
-- Go's maps as association lists over keys with a decidable equality. A store to a key that is
-- there keeps its place; the order stands for no promise of Go's.
use Prim.Native.Nat.{suc}
use mathlib.Core.Path.{◌≡◌, refl}
use mathlib.Core.Logic.{◌≢◌, ite}
use mathlib.Core.List.{List, [], ◌∷◌}
use mathlib.Core.Option.{Option, none, some}
use native.Mathlib.Omega.{arith}
use nectar.Prelude.Lists.{length}

module _ {ℓ} {K V : Type ℓ} (dec : Discrete K) where
  -- `m[k]`
  unfoldable pub lookup : K → List (K × V) → Option V
  lookup k [] = none
  lookup k ((j, v) ∷ m) = ite (dec j k) (some v) (lookup k m)

  -- `m[k] = v`
  unfoldable pub insert : K → V → List (K × V) → List (K × V)
  insert k v [] = (k, v) ∷ []
  insert k v ((j, w) ∷ m) = ite (dec j k) ((j, v) ∷ m) ((j, w) ∷ insert k v m)

  -- `delete(m, k)`
  unfoldable pub erase : K → List (K × V) → List (K × V)
  erase k [] = []
  erase k ((j, w) ∷ m) = ite (dec j k) m ((j, w) ∷ erase k m)

  -- No key stands twice.
  abbrev pub Distinct : List (K × V) → Type ℓ
  Distinct [] = Unit
  Distinct ((j, w) ∷ m) = (lookup j m ≡ none) × Distinct m

  pub lookup-insert_self : (k : K) (v : V) (m : List (K × V)) → lookup k (insert k v m) ≡ some v
  unfolding lookup insert
  lookup-insert_self k v [] = ground arith
  lookup-insert_self k v (e ∷ m) = ground (arith, lookup-insert_self k v m)

  pub lookup-insert_ne :
      (q k : K) (v : V) (m : List (K × V)) → q ≢ k → lookup q (insert k v m) ≡ lookup q m
  unfolding lookup insert
  lookup-insert_ne q k v [] h = ground arith
  lookup-insert_ne q k v (e ∷ m) h = ground (arith, lookup-insert_ne q k v m)

  pub lookup-erase_self : (k : K) (m : List (K × V)) → Distinct m → lookup k (erase k m) ≡ none
  unfolding lookup erase
  lookup-erase_self k [] d = refl
  lookup-erase_self k (e ∷ m) d = ground (arith, lookup-erase_self k m d.1)

  pub lookup-erase_ne : (q k : K) (m : List (K × V)) → q ≢ k → lookup q (erase k m) ≡ lookup q m
  unfolding lookup erase
  lookup-erase_ne q k [] h = refl
  lookup-erase_ne q k (e ∷ m) h = ground (arith, lookup-erase_ne q k m)

  pub length-insert_new :
      (k : K) (v : V) (m : List (K × V))
      → lookup k m ≡ none
      → length (insert k v m) ≡ suc (length m)
  unfolding lookup insert
  length-insert_new k v [] h = refl
  length-insert_new k v (e ∷ m) h = ground (arith, length-insert_new k v m)

  pub length-insert_old :
      (k : K) (v : V) (m : List (K × V)) (w : V)
      → lookup k m ≡ some w
      → length (insert k v m) ≡ length m
  unfolding lookup insert
  length-insert_old k v [] w h = ground arith
  length-insert_old k v (e ∷ m) w h = ground (arith, length-insert_old k v m w)

  pub length-erase :
      (k : K) (m : List (K × V)) (w : V) → lookup k m ≡ some w → suc (length (erase k m)) ≡ length m
  unfolding lookup erase
  length-erase k [] w h = ground arith
  length-erase k (e ∷ m) w h = ground (arith, length-erase k m w)

  pub Distinct-insert : (k : K) (v : V) (m : List (K × V)) → Distinct m → Distinct (insert k v m)
  unfolding lookup insert
  Distinct-insert k v [] d = (refl, tt)
  Distinct-insert k v (e ∷ m) d =
      ground (arith, Distinct-insert k v m d.1, lookup-insert_ne e.0 k v m)

  pub Distinct-erase : (k : K) (m : List (K × V)) → Distinct m → Distinct (erase k m)
  unfolding erase
  Distinct-erase k [] d = tt
  Distinct-erase k (e ∷ m) d = ground (arith, Distinct-erase k m d.1, lookup-erase_ne e.0 k m)
