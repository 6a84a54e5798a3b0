-- ===== src/Cache/Backing.antt =====
-- What the maps of Cache/Existence say of the database.
use nectar.Prelude.{
  [], arith, ◌≡◌, refl, sym, ap, ◌∙◌, subst, ◌++◌, Bool, true, Option, none, some, if◌then◌else◌,
  if-cases, option-cases, option-cases_eq, Text, text, text_discrete,
}
use nectar.Prelude.Dict.{lookup, lookup-insert_ne}
use nectar.Cache.Existence.{
  Found, there, missing, query_failed, is_cached, Existing, remember, RowTable, ensure,
}

module _ {World : Type 0} (Has : Text → World → Type 0) where
  -- The rows of the cache are in the table.
  unfoldable pub Stored : Existing → World → Type 0
  Stored cache w = (k : Text) → is_cached (lookup text_discrete k cache) ≡ true → Has k w

  pub empty-Stored : (w : World) → Stored [] w
  unfolding Stored lookup
  empty-Stored w k c = ground (arith, c)

  pub moved-Stored :
      (cache : Existing) (w w1 : World)
      → ((k : Text) → Has k w → Has k w1)
      → Stored cache w
      → Stored cache w1
  unfolding Stored
  moved-Stored cache w w1 kept s k c = kept k (s k c)

  remember-Stored :
      (key : Text) (cache : Existing) (w : World)
      → Has key w
      → Stored cache w
      → Stored (remember key cache) w
  unfolding Stored remember
  remember-Stored key cache w h s k c = elim (text_discrete k key) [
    | yes e ↦ subst (λ x. Has x w) (sym e) h
    | no n ↦ s k (ap is_cached (sym (lookup-insert_ne text_discrete k key true cache n)) ∙ c)
  ]

-- What is relied on of a table: an insert takes no row away, and a row that is found, that is
-- inserted without an error, or whose insert has an accepted error is there.
pub record RowLaws {World : Type 0} (Has : Text → World → Type 0) (accepts : Text → Bool)
    (key : Text) (table : RowTable World) : Type 0 where
  pub keeps : (k : Text) (w : World) → Has k w → Has k (table.create w).1
  pub found : (w : World) → table.find w ≡ there → Has key w
  pub made : (w : World) → (table.create w).0 ≡ none → Has key (table.create w).1
  pub accepted :
      (w : World) (e : Text)
      → (table.create w).0 ≡ some e
      → accepts e ≡ true
      → Has key (table.create w).1

module _ {World : Type 0} (Has : Text → World → Type 0) (accepts : Text → Bool) (key : Text)
    (table : RowTable World) (laws : RowLaws Has accepts key table) where
  -- the map and the database that a call leaves
  Leaves : Option Text × Existing × World → Type 0
  Leaves r = Stored Has r.1 r.2

  found-Leaves :
      (message : Text) (cache : Existing) (w : World)
      → Stored Has cache w
      → (found : Found) → table.find w ≡ found
      → let (err, w1) = table.create w in
        Leaves (elim found [
          | there ↦ (none, remember key cache, w)
          | query_failed e ↦ (some (text "database error: " ++ e), cache, w)
          | missing ↦ elim err [
            | none ↦ (none, remember key cache, w1)
            | some e ↦
                if accepts e
                then (none, remember key cache, w1)
                else (some (message ++ e), cache, w1)
          ]
        ])
  unfolding Leaves
  found-Leaves message cache w s there h = remember-Stored Has key cache w (laws.found w h) s
  found-Leaves message cache w s (query_failed e) h = s
  found-Leaves message cache w s missing h =
      let w1 = (table.create w).1 in
      let s1 = moved-Stored Has cache w w1 (λ k. laws.keeps k w) s in
      option-cases_eq Leaves (table.create w).0 _ _
        (λ k. remember-Stored Has key cache w1 (laws.made w k) s1)
        (λ e k.
          if-cases Leaves (accepts e) _ _
            (λ a. remember-Stored Has key cache w1 (laws.accepted w e k a) s1) (λ _. s1))

  -- A call keeps the rows of the map in the table.
  pub ensure-Stored :
      (message : Text) (cache : Existing) (w : World)
      → Stored Has cache w
      → let r = ensure table accepts message key cache w in Stored Has r.1 r.2
  unfolding ensure Leaves
  ensure-Stored message cache w s =
      if-cases Leaves (is_cached (lookup text_discrete key cache)) _ _ (λ _. s)
        (λ _. found-Leaves message cache w s (table.find w) refl)

module _ {World : Type 0} (P : World → Type 0) (table : RowTable World)
    (kept : (w : World) → P w → P (table.create w).1) where
  After : Option Text × Existing × World → Type 0
  After r = P r.2

  split_found :
      (found : Found) (err : Option Text) (accepts : Text → Bool) (message key : Text)
      (cache : Existing) (w w1 : World)
      → P w
      → P w1
      → After (elim found [
        | there ↦ (none, remember key cache, w)
        | query_failed e ↦ (some (text "database error: " ++ e), cache, w)
        | missing ↦ elim err [
          | none ↦ (none, remember key cache, w1)
          | some e ↦
              if accepts e then (none, remember key cache, w1) else (some (message ++ e), cache, w1)
        ]
      ])
  unfolding After
  split_found there err accepts message key cache w w1 p q = p
  split_found (query_failed e) err accepts message key cache w w1 p q = p
  split_found missing err accepts message key cache w w1 p q =
      option-cases After err _ _ q (λ e. if-cases After (accepts e) _ _ (λ _. q) (λ _. q))

  -- A property of the database that the insert keeps is kept by a call.
  pub ensure-keeps :
      (accepts : Text → Bool) (message key : Text) (cache : Existing) (w : World)
      → P w
      → P (ensure table accepts message key cache w).2
  unfolding ensure After
  ensure-keeps accepts message key cache w p =
      if-cases After (is_cached (lookup text_discrete key cache)) _ _ (λ _. p)
        (λ _.
          split_found (table.find w) (table.create w).0 accepts message key cache w
            (table.create w).1 p (kept w p))
