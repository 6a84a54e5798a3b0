-- ===== src/Scripts/Held.antt =====
-- The redeemers that processors/script_processor.go stores, and its calls on one script or datum.
use nectar.Prelude.{ℕ, true, Option, none, some, ◌++◌, option-cases, Text, text, text_discrete}
use nectar.Prelude.Hex.{hex}
use nectar.Era.Slots.{to_uint32}
use nectar.Cache.Existence.{Found, there, missing, query_failed, RowTable}
use nectar.Cache.Lru.{get, put}
use nectar.Scripts.Rows.{
  Script, Datum, ScriptTables, Hashes, NativeScript, RedeemerTag, Redeemers, Known, ScriptStore,
  ScriptState,
}
use nectar.Scripts.Scripts.{
  ensure_known, StoreCall, log_on, warn_on, collect_on, ensure_script, ensure_datum, script_row,
  stored_as, process_plutus_script, process_native_script,
}
use nectar.Scripts.Redeemers.{purpose_of, process_redeemer_by_tag_and_index}
use nectar.Prelude.Keys.{Keys}
use nectar.Scripts.Dropped.{RedeemerLaws, moved, Sole, store_redeemer-Sole}

module _ {World : Type 0} (P : World → Type 0) (table : RowTable World)
    (kept : (w : World) → P w → P (table.create w).1) where
  Leaves : Option Text × Known × World → Type 0
  Leaves r = P r.2

  split_found :
      (found : Found) (err : Option Text) (message : Text) (c1 added : Known) (w w1 : World)
      → P w
      → P w1
      → Leaves (elim found [
        | there ↦ (none, added, w)
        | query_failed e ↦ (some (text "database error: " ++ e), c1, w)
        | missing ↦ elim err [ none ↦ (none, added, w1) | some e ↦ (some (message ++ e), c1, w1) ]
      ])
  unfolding Leaves
  split_found there err message c1 added w w1 p q = p
  split_found (query_failed e) err message c1 added w w1 p q = p
  split_found missing err message c1 added w w1 p q = option-cases Leaves err _ _ q (λ e. q)

  ensure_known-keeps :
      (message key : Text) (cache : Known) (w : World)
      → P w
      → P (ensure_known table message key cache w).2
  unfolding ensure_known Leaves
  ensure_known-keeps message key cache w p =
      let (c1, cached) = get text_discrete key cache in
      option-cases Leaves cached _ _
        (split_found (table.find w) (table.create w).0 message c1 (put text_discrete key true c1) w
          (table.create w).1 p (kept w p))
        (λ b. p)

module _ {World : Type 0} (tables : ScriptTables World) (data_keys : World → Keys)
    (stored : World → Keys) (laws : RedeemerLaws tables data_keys stored) (h : Hashes)
    (tx_hash : Text) where
  abbrev pub Good : World → Type 0
  Good w = Sole tables data_keys stored laws w

  -- what holds after a call, what a call keeps, and what holds of a state
  unfoldable pub Ends : Option Text × ScriptStore World → Type 0
  Ends r = Good r.1.world

  unfoldable pub Keeps : StoreCall World → Type 0
  Keeps call = (s : ScriptStore World) → Good s.world → Ends (call s)

  unfoldable pub Fine : ScriptState World → Type 0
  Fine s = Good s.store.world

  ensure_script-Keeps : (row : Script) → Keeps (ensure_script tables h tx_hash row)
  unfolding Keeps Ends ensure_script
  ensure_script-Keeps row s p =
      ensure_known-keeps Good
        (record { find = tables.find_script row.hash; create = tables.create_script row })
        (λ w q. let (keys, same) = laws.script_kept row w in moved _ _ _ _ keys same q)
        (text "failed to create script: ") (hex row.hash) s.script_cache s.world p

  pub ensure_datum-Keeps : (bytes : Text) → Keeps (ensure_datum tables h tx_hash bytes)
  unfolding Keeps Ends ensure_datum
  ensure_datum-Keeps bytes s p =
      let hash = h.blake2b_256 bytes in
      let row : Datum = record { hash = hash; tx_hash = tx_hash; bytes = bytes } in
      ensure_known-keeps Good
        (record { find = tables.find_datum hash; create = tables.create_datum row })
        (λ w q. let (keys, same) = laws.datum_kept row w in moved _ _ _ _ keys same q)
        (text "failed to create datum: ") (hex hash) s.datum_cache s.world p

  stored_as-Ends :
      (r : Option Text × ScriptStore World) → Ends r → Ends (stored_as tables h tx_hash r)
  unfolding Ends
  stored_as-Ends (none, s) p = p
  stored_as-Ends (some e, s) p = p

  pub process_plutus_script-Keeps :
      (script_type bytes : Text) → Keeps (process_plutus_script tables h tx_hash script_type bytes)
  unfolding Keeps process_plutus_script
  process_plutus_script-Keeps script_type bytes s p =
      let row = script_row tables h tx_hash script_type bytes (h.encode bytes) in
      stored_as-Ends (ensure_script tables h tx_hash row s) (ensure_script-Keeps row s p)

  pub process_native_script-Keeps :
      (script : NativeScript) → Keeps (process_native_script tables h tx_hash script)
  unfolding Keeps process_native_script Ends
  process_native_script-Keeps script s p = option-cases Ends script.item _ _ p (λ bytes.
      let row = script_row tables h tx_hash (text "native") bytes script.whole in
      stored_as-Ends (ensure_script tables h tx_hash row s) (ensure_script-Keeps row s p))

  pub redeemer-Keeps :
      (r : Redeemers) (tag : RedeemerTag) (i : ℕ)
      → Keeps (process_redeemer_by_tag_and_index tables h tx_hash r tag i)
  unfolding Keeps Ends process_redeemer_by_tag_and_index
  redeemer-Keeps r tag i s p =
      store_redeemer-Sole tables data_keys stored laws h tx_hash (purpose_of tag) (to_uint32 i)
        (r.value i tag) s p

  pub log_on-Fine :
      (call : StoreCall World) (s : ScriptState World) → Keeps call → Fine s → Fine (log_on call s)
  unfolding log_on Keeps Ends Fine
  log_on-Fine call s kept p = kept s.store p

  pub warn_on-Fine :
      (message : Text) (call : StoreCall World) (s : ScriptState World)
      → Keeps call
      → Fine s
      → Fine (warn_on message call s)
  unfolding warn_on Keeps Ends Fine
  warn_on-Fine message call s kept p =
      option-cases Fine (call s.store).0 _ _ (kept s.store p) (λ e. kept s.store p)

  pub collect_on-Fine :
      (message : Text) (call : StoreCall World) (s : ScriptState World)
      → Keeps call
      → Fine s
      → Fine (collect_on message call s)
  unfolding collect_on Keeps Ends Fine
  collect_on-Fine message call s kept p =
      option-cases Fine (call s.store).0 _ _ (kept s.store p) (λ e. kept s.store p)
