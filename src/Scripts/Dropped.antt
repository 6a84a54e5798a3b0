-- ===== src/Scripts/Dropped.antt =====
-- The redeemers that processors/script_processor.go stores: what is relied on of the tables, and one
-- redeemer.
use nectar.Prelude.{ℕ, ◌≡◌, sym, ap, subst, Option, none, some, [], ◌∷◌, option-cases_eq, Text}
use nectar.Prelude.Keys.{Keys, Lacks}
use nectar.Scripts.Rows.{
  Script, Datum, RedeemerData, Redeemer, ScriptTables, Hashes, RedeemerValue, ScriptStore,
}
use nectar.Scripts.Redeemers.{redeemer_row, redeemer_data_row, store_redeemer}

-- No key stands twice.
abbrev pub Once : Keys → Type 0
Once [] = Unit
Once (k ∷ l) = Lacks k l × Once l

-- What is relied on, with the hashes of the table of redeemer data, and the data hashes of the table
-- of redeemers: a record of data whose hash is there is refused, an insert without an error adds its
-- row and nothing else, and one with an error changes neither table; nor do scripts and datums.
pub record RedeemerLaws {World : Type 0} (tables : ScriptTables World) (data_keys : World → Keys)
    (stored : World → Keys) : Type 0 where
  pub data_added :
      (row : RedeemerData) (w : World)
      → (tables.create_redeemer_data row w).0 ≡ none
      → Lacks row.hash (data_keys w)
        × (data_keys (tables.create_redeemer_data row w).1 ≡ row.hash ∷ data_keys w)
        × (stored (tables.create_redeemer_data row w).1 ≡ stored w)
  pub data_refused :
      (row : RedeemerData) (w : World) (e : Text)
      → (tables.create_redeemer_data row w).0 ≡ some e
      → (data_keys (tables.create_redeemer_data row w).1 ≡ data_keys w)
        × (stored (tables.create_redeemer_data row w).1 ≡ stored w)
  pub redeemer_added :
      (row : Redeemer) (w : World)
      → (tables.create_redeemer row w).0 ≡ none
      → (data_keys (tables.create_redeemer row w).1 ≡ data_keys w)
        × (stored (tables.create_redeemer row w).1 ≡ row.redeemer_data_hash ∷ stored w)
  pub redeemer_refused :
      (row : Redeemer) (w : World) (e : Text)
      → (tables.create_redeemer row w).0 ≡ some e
      → (data_keys (tables.create_redeemer row w).1 ≡ data_keys w)
        × (stored (tables.create_redeemer row w).1 ≡ stored w)
  pub script_kept :
      (row : Script) (w : World)
      → (data_keys (tables.create_script row w).1 ≡ data_keys w)
        × (stored (tables.create_script row w).1 ≡ stored w)
  pub datum_kept :
      (row : Datum) (w : World)
      → (data_keys (tables.create_datum row w).1 ≡ data_keys w)
        × (stored (tables.create_datum row w).1 ≡ stored w)

-- No data hash stands twice among the redeemers, and each is a record of data's.
pub record Paired (keys hashes : Keys) : Type 0 where
  pub once : Once hashes
  pub covered : (h : Option Text) → Lacks h keys → Lacks h hashes

abbrev more_data :
    (h : Option Text) (keys hashes : Keys) → Paired keys hashes → Paired (h ∷ keys) hashes
more_data h keys hashes p = record { once = p.once; covered = λ x l. p.covered x l.1 }

abbrev more_redeemers :
    (h : Option Text) (keys hashes : Keys)
    → Lacks h keys
    → Paired keys hashes
    → Paired (h ∷ keys) (h ∷ hashes)
more_redeemers h keys hashes new p = record {
  once = (p.covered h new, p.once);
  covered = λ x l. (l.0, p.covered x l.1);
}

pub moved :
    (keys hashes keys1 hashes1 : Keys)
    → keys1 ≡ keys
    → hashes1 ≡ hashes
    → Paired keys hashes
    → Paired keys1 hashes1
moved keys hashes keys1 hashes1 d e p =
    subst (λ k. Paired k hashes1) (sym d) (subst (λ l. Paired keys l) (sym e) p)

module _ {World : Type 0} (tables : ScriptTables World) (data_keys : World → Keys)
    (stored : World → Keys) (laws : RedeemerLaws tables data_keys stored) where
  abbrev pub Sole : World → Type 0
  Sole w = Paired (data_keys w) (stored w)

  Ends : Option Text × ScriptStore World → Type 0
  Ends r = Sole r.1.world

  pub store_redeemer-Sole :
      (h : Hashes) (tx_hash purpose : Text) (index : ℕ) (v : RedeemerValue) (s : ScriptStore World)
      → Sole s.world
      → Sole (store_redeemer tables h tx_hash purpose index v s).1.world
  unfolding store_redeemer redeemer_row redeemer_data_row Ends
  store_redeemer-Sole h tx_hash purpose index v s p =
      let row = redeemer_data_row tables h tx_hash v in
      let (err, w) = tables.create_redeemer_data row s.world in
      let r = redeemer_row tables h tx_hash purpose index v in
      let (failure, w1) = tables.create_redeemer r w in
      option-cases_eq Ends err _ _
        (λ d.
          let (new, keys, same) = laws.data_added row s.world d in
          option-cases_eq Ends failure _ _
            (λ f.
              let (keys1, more) = laws.redeemer_added r w f in
              moved _ _ _ _ keys1 more (
                moved (row.hash ∷ data_keys s.world) (row.hash ∷ stored s.world) _ _ keys
                  (ap (λ l. row.hash ∷ l) same)
                  (more_redeemers row.hash (data_keys s.world) (stored s.world) new p)))
            (λ e f.
              let (keys1, same1) = laws.redeemer_refused r w e f in
              moved _ _ _ _ keys1 same1 (
                moved (row.hash ∷ data_keys s.world) (stored s.world) _ _ keys same
                  (more_data row.hash (data_keys s.world) (stored s.world) p))))
        (λ e d. let (keys, same) = laws.data_refused row s.world e d in moved _ _ _ _ keys same p)
