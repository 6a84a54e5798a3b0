-- ===== src/Block/Bounded.antt =====
-- How long the texts are that processors/block_processor.go stores for addresses.
use nectar.Prelude.{
  ℕ, ◌+◌, ◌*◌, ◌≤◌, ◌≡◌, false, Option, none, some, ◌++◌, ltb, if-cases, length, length-append,
  length-take-le, take, Text, text, arith,
}
use nectar.Prelude.Hex.{hex, length-hex, digits, length-digits}
use nectar.Block.Ledger.{Address}
use nectar.Block.Address.{
  safe_text, after_warning, max_address_length, long_text, address_text,
  max_collateral_address_length, long_collateral_text, collateral_address_text,
}

-- A text of at most that length is stored, if there is no panic.
abbrev pub Fits : ℕ → Option Text → Type 0
Fits n none = Unit
Fits n (some s) = length s ≤ n

not_ltb : (m n : ℕ) → ltb m n ≡ false → n ≤ m
not_ltb m n e = ground (arith, e)

le_within : (m n k : ℕ) → m ≤ n → k ≤ m → k ≤ n
le_within m n k h l = omega (arith, h, l)

append-le : (a b : Text) (m n : ℕ) → length a ≤ m → length b ≤ n → length (a ++ b) ≤ m + n
append-le a b m n h k = omega (arith, h, k, length-append a b)

hex-le : (bs : Text) (n : ℕ) → length bs ≤ n → length (hex bs) ≤ 2 * n
hex-le bs n h = omega (arith, h, length-hex bs)

module _ (sha256 : Text → Text) (sized : (x : Text) → length (sha256 x) ≡ 32) where
  long_text-le :
      (i : ℕ) (o : Option Text) (s : Text) → length (long_text sha256 i o s) ≤ max_address_length
  unfolding long_text
  long_text-le i none s =
      let size = digits (length s) in
      let first =
        append-le (text "byron_toolong_") size 14 20 (omega arith) (length-digits (length s)) in
      let second = append-le (text "byron_toolong_" ++ size) (text "_") 34 1 first (omega arith) in
      le_within 55 2048 (length (text "byron_toolong_" ++ size ++ text "_" ++ digits i))
        (omega arith)
        (append-le ((text "byron_toolong_" ++ size) ++ text "_") (digits i) 35 20 second
          (length-digits i))
  long_text-le i (some bytes) s =
      if-cases (λ (t : Text). length t ≤ max_address_length)
        (ltb max_address_length (length (text "byron_long_" ++ hex bytes))) _ _
        (λ _.
          let whole =
            append-le (text "byron_hash_") _ 11 64 (omega arith)
              (hex-le (sha256 bytes) 32 (omega (arith, sized bytes))) in
          le_within 75 2048 _ (omega arith) whole)
        (λ h. not_ltb _ _ h)

  after_warning-Fits : (n : ℕ) (a : Address) (s : Text) → length s ≤ n → Fits n (after_warning a s)
  after_warning-Fits n a s h = warned a.string_form
    where
      warned : (o : Option Text) → Fits n (elim o [ none ↦ none | some t ↦ some s ])
      warned none = tt
      warned (some t) = h

  -- The text of an output's address is at most 2048 bytes long, if SHA-256 gives 32 bytes.
  pub address_text-Fits : (i : ℕ) (a : Address) → Fits max_address_length (address_text sha256 i a)
  unfolding address_text
  address_text-Fits i a =
      let s = safe_text a (text "invalid_address_" ++ digits i) in
      if-cases (Fits max_address_length) (ltb max_address_length (length s)) _ _
        (λ _. after_warning-Fits max_address_length a _ (long_text-le i a.bytes s))
        (λ h. not_ltb max_address_length (length s) h)

  long_collateral_text-le :
      (o : Option Text) (s : Text)
      → length (long_collateral_text sha256 o s) ≤ max_collateral_address_length
  unfolding long_collateral_text
  long_collateral_text-le none s =
      let whole = append-le (text "byron_long_") _ 11 20 (omega arith) (length-digits (length s)) in
      omega (arith, whole)
  long_collateral_text-le (some bytes) s =
      let whole =
        append-le (text "byron_h_") _ 8 16 (omega arith)
          (hex-le (take 8 (sha256 bytes)) 8 (length-take-le 8 (sha256 bytes))) in
      omega (arith, whole)

  -- The text of a collateral return's address is at most 100 bytes long.
  pub collateral_address_text-Fits :
      (a : Address) → Fits max_collateral_address_length (collateral_address_text sha256 a)
  unfolding collateral_address_text
  collateral_address_text-Fits a =
      let s = safe_text a (text "invalid_collateral_address") in
      if-cases (Fits max_collateral_address_length) (ltb max_collateral_address_length (length s)) _
        _
        (λ _.
          after_warning-Fits max_collateral_address_length a _ (long_collateral_text-le a.bytes s))
        (λ h. not_ltb max_collateral_address_length (length s) h)
