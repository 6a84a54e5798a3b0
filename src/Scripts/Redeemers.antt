-- ===== src/Scripts/Redeemers.antt =====
-- The redeemers of processors/script_processor.go.
use nectar.Prelude.{ℕ, ◌==◌, if◌then◌else◌, Option, none, some, List, [], ◌∷◌, ◌++◌, Text, text}
use nectar.Era.Slots.{to_uint32}
use nectar.Scripts.Rows.{
  RedeemerData, Redeemer, ScriptTables, Hashes, RedeemerTag, spend, mint, cert, reward, other_tag,
  RedeemerValue, Redeemers, ScriptState, generate_redeemer_hash,
}
use nectar.Scripts.Scripts.{StoreCall, collect_on}

abbrev pub purpose_of : RedeemerTag → Text
purpose_of spend = text "spend"
purpose_of mint = text "mint"
purpose_of cert = text "cert"
purpose_of reward = text "reward"
purpose_of (other_tag n) = text "unknown"

-- What the older `processRedeemer` finds of a redeemer: its data, its purpose or the number of its
-- tag, and its index.
record OldRedeemer : Type 0 where
  pub redeemer_data : Option Text
  pub purpose : Option Text
  pub tag_number : Option ℕ
  pub own_index : Option ℕ

abbrev numbered_purpose : ℕ → Text
numbered_purpose tag =
    if tag == 1
    then text "mint"
    else if tag == 2
    then text "cert"
    else if tag == 3
    then text "reward"
    else text "spend"

abbrev old_purpose : Option Text → Option ℕ → Text
old_purpose (some p) tag = p
old_purpose none (some tag) = numbered_purpose tag
old_purpose none none = text "spend"

abbrev old_index : Option ℕ → ℕ → ℕ
old_index none i = to_uint32 i
old_index (some j) i = j

abbrev data_hash : Hashes → Option Text → Option Text
data_hash h none = none
data_hash h (some bytes) = some (h.blake2b_256 bytes)

module _ {World : Type 0} (tables : ScriptTables World) (h : Hashes) (tx_hash : Text) where
  unfoldable pub redeemer_row : Text → ℕ → RedeemerValue → Redeemer
  unfolding generate_redeemer_hash
  redeemer_row purpose index v = record {
    hash = generate_redeemer_hash h tx_hash purpose index;
    tx_hash = tx_hash;
    unit_mem = v.memory;
    unit_steps = v.steps;
    purpose = purpose;
    index = index;
    redeemer_data_hash = data_hash h v.cbor;
  }

  unfoldable pub redeemer_data_row : RedeemerValue → RedeemerData
  redeemer_data_row v = record { hash = data_hash h v.cbor; tx_hash = tx_hash; bytes = v.cbor }

  -- the record of the data, then the redeemer
  unfoldable pub store_redeemer : Text → ℕ → RedeemerValue → StoreCall World
  unfolding redeemer_row redeemer_data_row
  store_redeemer purpose index v s =
      let (err, w) = tables.create_redeemer_data (redeemer_data_row v) s.world in
      let (failure, w1) = tables.create_redeemer (redeemer_row purpose index v) w in
      elim err [
        | some e ↦ (some (text "failed to create redeemer data: " ++ e), record s { world = w })
        | none ↦ elim failure [
          | none ↦ (none, record s { world = w1 })
          | some e ↦ (some (text "failed to create redeemer: " ++ e), record s { world = w1 })
        ]
      ]

  unfoldable pub process_redeemer_by_tag_and_index : Redeemers → RedeemerTag → ℕ → StoreCall World
  unfolding store_redeemer
  process_redeemer_by_tag_and_index redeemers tag index =
      store_redeemer (purpose_of tag) (to_uint32 index) (redeemers.value index tag)

  -- `processRedeemer`, with its default units
  unfoldable process_redeemer : ℕ → OldRedeemer → StoreCall World
  unfolding store_redeemer
  process_redeemer index r =
      store_redeemer (old_purpose r.purpose r.tag_number) (old_index r.own_index index)
        (record { cbor = r.redeemer_data; memory = 1000000; steps = 500000 })

  unfoldable pub process_indexes :
      Redeemers → RedeemerTag → List ℕ → ScriptState World → ScriptState World
  unfolding process_redeemer_by_tag_and_index collect_on
  process_indexes redeemers tag [] s = s
  process_indexes redeemers tag (i ∷ is) s = process_indexes redeemers tag is (
      collect_on (text "failed to process redeemer: ")
        (process_redeemer_by_tag_and_index redeemers tag i) s)

  unfoldable pub process_redeemers : Option Redeemers → ScriptState World → ScriptState World
  unfolding process_indexes
  process_redeemers none s = s
  process_redeemers (some r) s =
      let s1 = process_indexes r spend (r.indexes spend) s in
      let s2 = process_indexes r mint (r.indexes mint) s1 in
      let s3 = process_indexes r cert (r.indexes cert) s2 in
      process_indexes r reward (r.indexes reward) s3
