-- ===== src/Scripts/Rows.antt =====
-- The rows of processors/script_processor.go, the tables and the hashes that it works on, as
-- parameters, and the witnesses of a transaction as values. What goes to the log alone is left out.
use nectar.Prelude.{ℕ, Bool, Option, List, [], ◌++◌, Text}
use nectar.Prelude.Hex.{index_bytes}
use nectar.Cache.Existence.{Found}
use nectar.Cache.Lru.{LruCache, new, clear}

pub record Script : Type 0 where
  pub hash : Text
  pub tx_hash : Text
  pub script_type : Text
  pub json : Option Text
  pub bytes : Text

-- `Value` and `Bytes` are the same.
pub record Datum : Type 0 where
  pub hash : Text
  pub tx_hash : Text
  pub bytes : Text

-- Without data the hash and the bytes are nil.
pub record RedeemerData : Type 0 where
  pub hash : Option Text
  pub tx_hash : Text
  pub bytes : Option Text

-- The fee and the script's hash are never set.
pub record Redeemer : Type 0 where
  pub hash : Text
  pub tx_hash : Text
  pub unit_mem : ℕ
  pub unit_steps : ℕ
  pub purpose : Text
  pub index : ℕ
  pub redeemer_data_hash : Option Text

-- The inserts have no clause for a conflict.
pub record ScriptTables (World : Type 0) : Type 0 where
  pub find_script : Text → World → Found
  pub create_script : Script → World → Option Text × World
  pub find_datum : Text → World → Found
  pub create_datum : Datum → World → Option Text × World
  pub create_redeemer_data : RedeemerData → World → Option Text × World
  pub create_redeemer : Redeemer → World → Option Text × World

-- blake2b with 28 and 32 bytes, SHA-256, and the CBOR encoding of a byte string
pub record Hashes : Type 0 where
  pub blake2b_224 : Text → Text
  pub blake2b_256 : Text → Text
  pub sha256 : Text → Text
  pub encode : Text → Option Text

pub data RedeemerTag : Type 0 where
  spend mint cert reward : RedeemerTag
  -- voting and proposing, and any other
  other_tag : ℕ → RedeemerTag

-- the CBOR of the data, and the execution units
pub record RedeemerValue : Type 0 where
  pub cbor : Option Text
  pub memory : ℕ
  pub steps : ℕ

pub record Redeemers : Type 0 where
  pub indexes : RedeemerTag → List ℕ
  pub value : ℕ → RedeemerTag → RedeemerValue

-- a native script: its item encoded, and the whole script encoded, if they can be
pub record NativeScript : Type 0 where
  pub item : Option Text
  pub whole : Option Text

-- What a witness set has; without the method for one of them there are none. A datum is its CBOR.
pub record WitnessSet : Type 0 where
  pub native_scripts : List NativeScript
  pub plutus_v1_scripts : List Text
  pub plutus_v2_scripts : List Text
  pub plutus_v3_scripts : List Text
  pub redeemers : Option Redeemers
  pub plutus_data : List (Option Text)

abbrev pub Known : Type 0
Known = LruCache Text Bool

-- the database and the two caches
pub record ScriptStore (World : Type 0) : Type 0 where
  pub world : World
  pub script_cache : Known
  pub datum_cache : Known

-- `collected` is what goes to the error collector, `warnings` to the unified error system.
pub record ScriptState (World : Type 0) : Type 0 where
  pub store : ScriptStore World
  pub collected : List Text
  pub warnings : List Text

-- `NewScriptProcessor`
unfoldable pub new_script_processor : {World : Type 0} → World → ScriptState World
unfolding new
new_script_processor w = record {
  store = record { world = w; script_cache = new 100000; datum_cache = new 100000 };
  collected = [];
  warnings = [];
}

-- `ClearCache`
unfoldable clear_scripts : {World : Type 0} → ScriptState World → ScriptState World
unfolding clear
clear_scripts s = record s {
  store = record s.store {
    script_cache = clear s.store.script_cache;
    datum_cache = clear s.store.datum_cache;
  };
}

-- what `GenerateRedeemerHash` hashes
unfoldable pub redeemer_bytes : Text → Text → ℕ → Text
redeemer_bytes tx_hash purpose index = tx_hash ++ (purpose ++ index_bytes index)

unfoldable pub generate_redeemer_hash : Hashes → Text → Text → ℕ → Text
unfolding redeemer_bytes
generate_redeemer_hash h tx_hash purpose index = h.sha256 (redeemer_bytes tx_hash purpose index)
