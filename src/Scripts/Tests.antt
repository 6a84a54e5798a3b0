-- ===== src/Scripts/Tests.antt =====
-- A transaction with two redeemers of the same data, over tables of data hashes.
use nectar.Prelude.{
  ◌≡◌, refl, Option, none, some, [], ◌∷◌, any, if◌then◌else◌, if-cases, Text, text, none_not_some,
  some_not_none, arith,
}
use nectar.Era.Slots.{babbage}
use nectar.Cache.Existence.{missing}
use nectar.Scripts.Rows.{
  ScriptTables, Hashes, RedeemerData, Redeemers, WitnessSet, ScriptState, new_script_processor,
}
use nectar.Scripts.Processor.{process_script_parts}
use nectar.Prelude.Keys.{Keys, Lacks, same_key, any-Lacks}
use nectar.Scripts.Dropped.{RedeemerLaws, Paired, Sole}
use nectar.Scripts.Sole.{process_script_parts-Sole}

abbrev add_data : RedeemerData → Keys × Keys → Option Text × (Keys × Keys)
add_data row (keys, stored) =
    if any (same_key row.hash) keys
    then (some (text "Duplicate entry"), (keys, stored))
    else (none, (row.hash ∷ keys, stored))

abbrev tables : ScriptTables (Keys × Keys)
tables = record {
  find_script = λ hash w. missing;
  create_script = λ row w. (none, w);
  find_datum = λ hash w. missing;
  create_datum = λ row w. (none, w);
  create_redeemer_data = add_data;
  create_redeemer = λ row w. (none, (w.0, row.redeemer_data_hash ∷ w.1));
}

added :
    (row : RedeemerData) (w : Keys × Keys)
    → (add_data row w).0 ≡ none
    → Lacks row.hash w.0 × ((add_data row w).1.0 ≡ row.hash ∷ w.0) × ((add_data row w).1.1 ≡ w.1)
added row (keys, stored) =
    if-cases
      (λ (r : Option Text × (Keys × Keys)).
        r.0 ≡ none → Lacks row.hash keys × (r.1.0 ≡ row.hash ∷ keys) × (r.1.1 ≡ stored))
      (any (same_key row.hash) keys) _ _ (λ _ h. absurd (some_not_none h))
      (λ e _. (any-Lacks row.hash keys e, refl, refl))

laws : RedeemerLaws tables (λ w. w.0) (λ w. w.1)
laws = record {
  data_added = added;
  data_refused = λ row w e h. ground (arith, h);
  redeemer_added = λ row w e. (refl, refl);
  redeemer_refused = λ row w e h. absurd (none_not_some h);
  script_kept = λ row w. (refl, refl);
  datum_kept = λ row w. (refl, refl);
}

abbrev hashes : Hashes
hashes = record {
  blake2b_224 = λ bytes. bytes;
  blake2b_256 = λ bytes. bytes;
  sha256 = λ bytes. bytes;
  encode = λ bytes. some bytes;
}

abbrev unit_data : Redeemers
unit_data = record {
  indexes = λ tag. 0 ∷ 1 ∷ [];
  value = λ i tag. record { cbor = some (text "D"); memory = 10; steps = 20 };
}

abbrev witnesses : WitnessSet
witnesses = record {
  native_scripts = record { item = some (text "N"); whole = none } ∷ [];
  plutus_v1_scripts = text "S" ∷ [];
  plutus_v2_scripts = [];
  plutus_v3_scripts = text "S" ∷ [];
  redeemers = some unit_data;
  plutus_data = some (text "D") ∷ none ∷ [];
}

abbrev start : ScriptState (Keys × Keys)
unfolding new_script_processor
start = new_script_processor ([], [])

process_script_parts-Sole_example :
    Sole tables
      (λ w. w.0)
      (λ w. w.1)
      laws
      (process_script_parts tables hashes (text "T") babbage (some witnesses) [] start).store.world
unfolding start
process_script_parts-Sole_example =
    process_script_parts-Sole tables (λ w. w.0) (λ w. w.1) laws hashes (text "T") babbage
      (some witnesses) [] start empty
  where
    empty : Paired [] []
    empty = record { once = tt; covered = λ h l. tt }
