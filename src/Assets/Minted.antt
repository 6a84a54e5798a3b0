-- ===== src/Assets/Minted.antt =====
-- From the mint of a transaction to the rows: `ProcessMint` of processors/asset_processor.go reads
-- back the keys that `getTransactionMint` of processors/block_processor.go has written. Both visit
-- maps, in any order.
use nectar.Prelude.{
  ◌≡◌, refl, ap, ◌∙◌, true, some, List, [], ◌∷◌, ◌++◌, Text, split_at, length, All, subst,
}
use mathlib.Core.List.{Permᴰ}
use nectar.Prelude.Int.{ℤ}
use nectar.Prelude.Hex.{IsBytes, hex, hex_decode, hex_decode-hex}
use nectar.Era.Slots.{BlockType, mary}
use nectar.Block.Ledger.{Assets, LedgerTx}
use nectar.Block.Gates.{since, mint_key, get_transaction_mint}
use nectar.Assets.Rows.{AssetTables, AssetStore, AssetState}
use nectar.Assets.Processor.{
  process_mint_operation, process_decoded, process_mint_parts, process_mint,
}
use nectar.Assets.Keys.{
  is_dot, split_at-mint_key, Entry, flatten, AreBytes, NoTwice, keyed, NoTwice-AllNew,
  nothing_cached, mint_map-keyed,
}

-- the policies have 28 bytes, as the library's type of them says
abbrev pub ArePolicies : List Entry → Type 0
ArePolicies es = All (λ (p, n, a). length p ≡ 28) es

-- A visit of the map in any order is the keys of the entries in some order.
visit-keyed :
    {m visited : List (Text × ℤ)} (es : List Entry)
    → Permᴰ m visited
    → m ≡ keyed es
    → (fs : List Entry) × (visited ≡ keyed fs) × Permᴰ es fs
visit-keyed [] Permᴰ.nil h = ([], refl, Permᴰ.nil)
visit-keyed ((q, n, a) ∷ es) Permᴰ.nil h = absurd (cc)
visit-keyed [] (Permᴰ.cons e p) h = absurd (cc)
visit-keyed ((q, n, a) ∷ es) (Permᴰ.cons e p) h =
    let (fs, same, r) = visit-keyed es p (cc) in ((q, n, a) ∷ fs, cc, Permᴰ.cons refl r)
visit-keyed [] (Permᴰ.swap e f) h = absurd (cc)
visit-keyed ((q, n, a) ∷ []) (Permᴰ.swap e f) h = absurd (cc)
visit-keyed ((q, n, a) ∷ ((r, k, c) ∷ es)) (Permᴰ.swap e f) h =
    ((r, k, c) ∷ ((q, n, a) ∷ es), cc, Permᴰ.swap refl refl)
visit-keyed es (Permᴰ.trans p q) h =
    let (fs, same, r) = visit-keyed es p h in
    let (gs, same', r') = visit-keyed fs q same in (gs, same', Permᴰ.trans r r')

visit-AreBytes : {es fs : List Entry} → Permᴰ es fs → AreBytes es → AreBytes fs
visit-AreBytes Permᴰ.nil h = h
visit-AreBytes (Permᴰ.cons e p) h =
    (subst (λ (q, n, a). IsBytes q × IsBytes n) e h.0, visit-AreBytes p h.1)
visit-AreBytes (Permᴰ.swap e f) h = (
  subst (λ (q, n, a). IsBytes q × IsBytes n) f h.1.0,
  (subst (λ (q, n, a). IsBytes q × IsBytes n) e h.0, h.1.1),
)
visit-AreBytes (Permᴰ.trans p q) h = visit-AreBytes q (visit-AreBytes p h)

module _ {World : Type 0} (tables : AssetTables World) (tx_hash : Text) where
  -- the mint operations of the entries, one after the other
  unfoldable pub mint_stores : List Entry → AssetStore World → AssetStore World
  unfolding process_mint_operation
  mint_stores [] t = t
  mint_stores ((p, n, a) ∷ es) t = mint_stores es (process_mint_operation tables tx_hash p n a t).1

  mint_stores-append :
      (es fs : List Entry) (t : AssetStore World)
      → mint_stores (es ++ fs) t ≡ mint_stores fs (mint_stores es t)
  unfolding mint_stores
  mint_stores-append [] fs t = refl
  mint_stores-append ((p, n, a) ∷ es) fs t =
      mint_stores-append es fs (process_mint_operation tables tx_hash p n a t).1

  process_mint_parts-mint_key :
      (p n : Text) (a : ℤ) (s : AssetState World)
      → IsBytes p
      → IsBytes n
      → process_mint_parts tables tx_hash (mint_key p n) (split_at is_dot (mint_key p n)) a s
        ≡ record s { store = (process_mint_operation tables tx_hash p n a s.store).1 }
  unfolding process_mint_parts process_decoded
  process_mint_parts-mint_key p n a s bp bn =
      ap (λ parts. process_mint_parts tables tx_hash (mint_key p n) parts a s)
        (split_at-mint_key p n bp bn)
      ∙ ap (λ x. process_decoded tables tx_hash (hex p) x (hex_decode (hex n)) a s)
          (hex_decode-hex p bp)
      ∙ ap (λ x. process_decoded tables tx_hash (hex p) (some p) x a s) (hex_decode-hex n bn)

  process_mint-keyed :
      (es : List Entry) (s : AssetState World)
      → AreBytes es
      → (process_mint tables tx_hash (keyed es) s).store ≡ mint_stores es s.store
  unfolding process_mint mint_stores
  process_mint-keyed [] s b = refl
  process_mint-keyed ((p, n, a) ∷ es) s b =
      ap (λ x. (process_mint tables tx_hash (keyed es) x).store)
        (process_mint_parts-mint_key p n a s b.0.0 b.0.1)
      ∙ process_mint-keyed es
          (record s { store = (process_mint_operation tables tx_hash p n a s.store).1 }) b.1

  -- Let a transaction from Mary on name the assets of its mint by bytes, by policies of 28 and none
  -- of the assets twice. In whatever order `ProcessMint` visits the map of `getTransactionMint`, it
  -- leaves the database and the cache that the mint operation leaves on the transaction's own
  -- policies, names and amounts, each once and in some order.
  pub process_mint-get_transaction_mint :
      (t : LedgerTx) (b : BlockType) (mint : Assets) (visited : List (Text × ℤ))
      (s : AssetState World)
      → since mary b ≡ true
      → t.asset_mint ≡ some mint
      → AreBytes (flatten mint)
      → ArePolicies (flatten mint)
      → NoTwice (flatten mint)
      → Permᴰ (get_transaction_mint t b) visited
      → (es : List Entry) × Permᴰ (flatten mint) es
        × ((process_mint tables tx_hash visited s).store ≡ mint_stores es s.store)
  unfolding get_transaction_mint
  process_mint-get_transaction_mint t b mint visited s h e bytes _ distinct p =
      let made : get_transaction_mint t b ≡ keyed (flatten mint) =
        rw (h, e)
          (mint_map-keyed mint []
            (NoTwice-AllNew [] (flatten mint) bytes distinct (nothing_cached (flatten mint)))) in
      let (es, same, q) = visit-keyed (flatten mint) p made in
      (
        es,
        q,
        ap (λ m. (process_mint tables tx_hash m s).store) same
            ∙ process_mint-keyed es s (visit-AreBytes q bytes),
      )
