-- ===== src/Scripts/Hashed.antt =====
-- The bytes that `GenerateRedeemerHash` of models/assets.go hashes.
use nectar.Prelude.{ℕ, ◌<◌, ◌^◌, ◌≡◌, ◌++◌, length, Text}
use nectar.Prelude.Hex.{index_bytes, append-injective, indexed-injective}
use nectar.Scripts.Rows.{redeemer_bytes}

-- The hashed bytes of two redeemers, of transactions whose hashes have one length and with indices
-- below 2^32, are the same only for one transaction, one purpose and one index.
redeemer_bytes-injective :
    (t u p q : Text) (i j : ℕ)
    → length t ≡ length u
    → i < 2 ^ 32
    → j < 2 ^ 32
    → redeemer_bytes t p i ≡ redeemer_bytes u q j
    → (t ≡ u) × (p ≡ q) × (i ≡ j)
unfolding redeemer_bytes
redeemer_bytes-injective t u p q i j l hi hj e =
    let (same, rest) = append-injective t u (p ++ index_bytes i) (q ++ index_bytes j) l e in
    let (purpose, index) = indexed-injective p q i j hi hj rest in (same, purpose, index)
