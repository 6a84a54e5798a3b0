-- ===== src/Cache/Existence.antt =====
-- The maps that processors/governance_processor.go and processors/asset_processor.go keep of the rows
-- that are in the database: `EnsureDRepHash`, `EnsureCommitteeHash` and `GetOrCreateMultiAssetWithTx`
-- are one routine on different tables. The table's query and insert are parameters.
use nectar.Prelude.{
  ◌++◌, Bool, true, false, Option, none, some, List, if◌then◌else◌, Text, text, text_discrete,
}
use nectar.Prelude.Dict.{lookup, insert}

-- `First` on a table: found, no such record, or another error.
pub data Found : Type 0 where
  there missing : Found
  query_failed : Text → Found

-- a key that the map does not have reads as false
abbrev pub is_cached : Option Bool → Bool
is_cached none = false
is_cached (some b) = b

abbrev pub Existing : Type 0
Existing = List (Text × Bool)

unfoldable pub remember : Text → Existing → Existing
unfolding insert text_discrete
remember key cache = insert text_discrete key true cache

-- the query for a row, and its insert with its error (`none` is nil)
pub record RowTable (World : Type 0) : Type 0 where
  pub find : World → Found
  pub create : World → Option Text × World

module _ {World : Type 0} (table : RowTable World) where
  -- The error, or none. `accepts` are the errors of the insert that are passed over, and `message`
  -- stands before the others.
  unfoldable pub ensure :
      (Text → Bool) → Text → Text → Existing → World → Option Text × Existing × World
  unfolding lookup text_discrete remember
  ensure accepts message key cache w =
      if is_cached (lookup text_discrete key cache) then (none, cache, w) else elim (table.find w) [
        | there ↦ (none, remember key cache, w)
        | query_failed e ↦ (some (text "database error: " ++ e), cache, w)
        | missing ↦
            let (err, w1) = table.create w in
            elim err [
              | none ↦ (none, remember key cache, w1)
              | some e ↦
                  if accepts e
                  then (none, remember key cache, w1)
                  else (some (message ++ e), cache, w1)
            ]
      ]
