-- ===== src/Prelude/Hex.antt =====
-- Numbers and bytes as text: Go's `%x` and `hex.EncodeToString`, `hex.DecodeString`, and `%d`.
use Prim.Native.Nat.{ℕ, zero, suc, ◌+◌, ◌-◌, ◌*◌, ◌/◌, ◌%◌, ◌^◌, ◌<◌, ◌≤◌}
use mathlib.Core.Path.{◌≡◌, refl, sym, ap, ◌∙◌}
use mathlib.Core.Option.{Option, none, some}
use mathlib.Core.Bool.{◌&&◌}
use mathlib.Core.List.{[], ◌∷◌, ◌++◌}
use native.Mathlib.Omega.{arith}
use nectar.Prelude.Tests.{ltb, leb, if◌then◌else◌, if-cases, some_injective}
use nectar.Prelude.Lists.{All, length, length-append}
use nectar.Prelude.Strings.{Text}

abbrev pub hex_digit : ℕ → ℕ
hex_digit d = if ltb d 10 then d + 48 else d + 87

unfoldable pub hex : Text → Text
hex [] = []
hex (b ∷ bs) = hex_digit (b / 16) ∷ hex_digit (b % 16) ∷ hex bs

abbrev pub hex_value : ℕ → Option ℕ
hex_value c =
    if leb 48 c && leb c 57
    then some (c - 48)
    else if leb 97 c && leb c 102
    then some (c - 87)
    else if leb 65 c && leb c 70
    then some (c - 55)
    else none

-- the byte of two digits, before the others
abbrev pub hex_byte : Option ℕ → Option ℕ → Option Text → Option Text
hex_byte (some a) (some b) (some bs) = some ((a * 16 + b) ∷ bs)
hex_byte _ _ _ = none

-- No text of an odd length, or with another character, is decoded.
unfoldable pub hex_decode : Text → Option Text
hex_decode [] = some []
hex_decode (a ∷ []) = none
hex_decode (a ∷ b ∷ s) = hex_byte (hex_value a) (hex_value b) (hex_decode s)

hex_value-hex_digit : (d : ℕ) → d < 16 → hex_value (hex_digit d) ≡ some d
hex_value-hex_digit d h = ground arith

abbrev pub IsBytes : Text → Type 0
IsBytes bs = All (λ b. b < 256) bs

-- Decoding gives back the bytes that were encoded.
pub hex_decode-hex : (bs : Text) → IsBytes bs → hex_decode (hex bs) ≡ some bs
unfolding hex_decode hex
hex_decode-hex [] h = refl
hex_decode-hex (b ∷ bs) h =
    rw
      (
        hex_value-hex_digit (b / 16) (omega (arith, h.0)),
        hex_value-hex_digit (b % 16) (omega arith),
        hex_decode-hex bs h.1,
      )
      (ap (λ c. some (c ∷ bs)) (omega arith))

-- The decimal digits of a number below 10^20.
unfoldable pub digits_from : ℕ → ℕ → Text
digits_from zero n = []
digits_from (suc fuel) n =
    let high = digits_from fuel (n / 10) in (if ltb n 10 then [] else high) ++ ((48 + n % 10) ∷ [])

unfoldable pub digits : ℕ → Text
unfolding digits_from
digits = digits_from 20

digits_from-length : (fuel n : ℕ) → length (digits_from fuel n) ≤ fuel
unfolding digits_from
digits_from-length zero n = omega arith
digits_from-length (suc fuel) n =
    if-cases (λ xs. length (xs ++ ((48 + n % 10) ∷ [])) ≤ suc fuel) (ltb n 10) _ _
      (λ _. omega arith)
      (λ _. omega (
        arith,
        length-append (digits_from fuel (n / 10)) ((48 + n % 10) ∷ []),
        digits_from-length fuel (n / 10),
      ))

pub length-digits : (n : ℕ) → length (digits n) ≤ 20
unfolding digits
length-digits n = digits_from-length 20 n

pub length-hex : (bs : Text) → length (hex bs) ≡ 2 * length bs
unfolding hex
length-hex [] = refl
length-hex (b ∷ bs) = omega (arith, length-hex bs)

pub hex-injective : (a b : Text) → IsBytes a → IsBytes b → hex a ≡ hex b → a ≡ b
hex-injective a b p q e =
    some_injective (sym (hex_decode-hex a p) ∙ ap hex_decode e ∙ hex_decode-hex b q)

-- the bytes of an `uint32`, the highest first
abbrev pub index_bytes : ℕ → Text
index_bytes i = (i / 2 ^ 24) % 256 ∷ ((i / 2 ^ 16) % 256 ∷ ((i / 2 ^ 8) % 256 ∷ (i % 256 ∷ [])))

head_tail-injective : {x y : ℕ} {a b : Text} → ◌≡◌ {A = Text} (x ∷ a) (y ∷ b) → (x ≡ y) × (a ≡ b)
head_tail-injective e = (cc, cc)

index_bytes-injective : (i j : ℕ) → i < 2 ^ 32 → j < 2 ^ 32 → index_bytes i ≡ index_bytes j → i ≡ j
index_bytes-injective i j p q e =
    let (a, e1) = head_tail-injective e in
    let (b, e2) = head_tail-injective e1 in
    let (c, e3) = head_tail-injective e2 in
    let (d, e4) = head_tail-injective e3 in omega (arith, p, q, a, b, c, d)

-- Two texts of one length before others are the same where the whole is.
pub append-injective : (a b c d : Text) → length a ≡ length b → a ++ c ≡ b ++ d → (a ≡ b) × (c ≡ d)
append-injective [] [] c d l e = (refl, e)
append-injective [] (y ∷ b) c d l e = absurd (omega (arith, l))
append-injective (x ∷ a) [] c d l e = absurd (omega (arith, l))
append-injective (x ∷ a) (y ∷ b) c d l e =
    let (h, t) = head_tail-injective e in
    let (p, q) = append-injective a b c d (omega (arith, l)) t in (cc, q)

-- A text before the bytes of an index, and the index, are read off the whole.
pub indexed-injective :
    (a b : Text) (i j : ℕ)
    → i < 2 ^ 32
    → j < 2 ^ 32
    → a ++ index_bytes i ≡ b ++ index_bytes j
    → (a ≡ b) × (i ≡ j)
indexed-injective a b i j p q e =
    let lengths : length a ≡ length b =
      omega
        (arith, length-append a (index_bytes i), length-append b (index_bytes j), ap length e) in
    let (same, index) = append-injective a b (index_bytes i) (index_bytes j) lengths e in
    (same, index_bytes-injective i j p q index)
