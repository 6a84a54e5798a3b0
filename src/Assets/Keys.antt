-- ===== src/Assets/Keys.antt =====
-- The keys of a transaction's mint: `getTransactionMint` of processors/block_processor.go writes the
-- policy and the name of an asset as one text.
use nectar.Prelude.{
  ℕ, ◌<◌, ◌/◌, ◌%◌, ◌≡◌, ◌≢◌, subst, refl, sym, ap, ◌∙◌, Bool, false, none, List, [], ◌∷◌, ◌++◌,
  ◌==◌, All, Text, text_discrete, split_at, arith,
}
use mathlib.Core.List.{append-nil, append_assoc}
use nectar.Prelude.Int.{ℤ}
use nectar.Prelude.Hex.{IsBytes, hex, hex-injective, hex_digit}
use nectar.Prelude.Dict.{lookup, insert}
use nectar.Block.Ledger.{Assets}
use nectar.Block.Gates.{mint_key, mint_assets, mint_map}

abbrev pub is_dot : ℕ → Bool
is_dot c = c == 46

hex_digit-dot : (d : ℕ) → d < 16 → (hex_digit d == 46) ≡ false
hex_digit-dot d h = ground arith

-- a text in hex before a separator is the first part
split_at-hex :
    (bs rest : Text)
    → IsBytes bs
    → split_at is_dot (hex bs ++ (46 ∷ rest)) ≡ hex bs ∷ split_at is_dot rest
unfolding split_at hex
split_at-hex [] rest h = refl
split_at-hex (b ∷ bs) rest h =
    rw
      (
        hex_digit-dot (b / 16) (omega (arith, h.0)),
        hex_digit-dot (b % 16) (omega arith),
        split_at-hex bs rest h.1,
      )
      refl

split_at-hex_last : (bs : Text) → IsBytes bs → split_at is_dot (hex bs) ≡ hex bs ∷ []
unfolding split_at hex
split_at-hex_last [] h = refl
split_at-hex_last (b ∷ bs) h =
    rw
      (
        hex_digit-dot (b / 16) (omega (arith, h.0)),
        hex_digit-dot (b % 16) (omega arith),
        split_at-hex_last bs h.1,
      )
      refl

pub split_at-mint_key :
    (policy name : Text)
    → IsBytes policy
    → IsBytes name
    → split_at is_dot (mint_key policy name) ≡ hex policy ∷ (hex name ∷ [])
unfolding mint_key
split_at-mint_key policy name p n =
    split_at-hex policy (hex name) p ∙ ap (λ ws. hex policy ∷ ws) (split_at-hex_last name n)

-- An asset's policy and name are what its key decodes to, so different assets have different keys.
mint_key-injective :
    (p n q m : Text)
    → IsBytes p
    → IsBytes n
    → IsBytes q
    → IsBytes m
    → mint_key p n ≡ mint_key q m
    → (p ≡ q) × (n ≡ m)
mint_key-injective p n q m bp bn bq bm e =
    let parts =
      sym (split_at-mint_key p n bp bn) ∙ ap (split_at is_dot) e ∙ split_at-mint_key q m bq bm in
    (hex-injective p q bp bq (cc), hex-injective n m bn bm (cc))

-- policy, name and amount
abbrev pub Entry : Type 0
Entry = Text × Text × ℤ

abbrev pub tagged : Text → List (Text × ℤ) → List Entry
tagged p [] = []
tagged p ((n, a) ∷ ns) = (p, n, a) ∷ tagged p ns

abbrev pub flatten : Assets → List Entry
flatten [] = []
flatten ((p, ns) ∷ assets) = tagged p ns ++ flatten assets

abbrev pub AreBytes : List Entry → Type 0
AreBytes es = All (λ (p, n, a). IsBytes p × IsBytes n) es

-- No asset stands twice.
abbrev pub NoTwice : List Entry → Type 0
NoTwice [] = Unit
NoTwice ((p, n, a) ∷ es) = All (λ (q, m, b). ¬ ((p ≡ q) × (n ≡ m))) es × NoTwice es

abbrev pub keyed : List Entry → List (Text × ℤ)
keyed [] = []
keyed ((p, n, a) ∷ es) = (mint_key p n, a) ∷ keyed es

-- Each entry's key is new when it is stored.
pub AllNew : List (Text × ℤ) → List Entry → Type 0
AllNew m [] = Unit
AllNew m ((p, n, a) ∷ es) =
    (lookup text_discrete (mint_key p n) m ≡ none) × AllNew (m ++ ((mint_key p n, a) ∷ [])) es

lookup-append_last :
    (k j : Text) (a : ℤ) (m : List (Text × ℤ))
    → k ≢ j
    → lookup text_discrete j m ≡ none
    → lookup text_discrete j (m ++ ((k, a) ∷ [])) ≡ none
unfolding lookup
lookup-append_last k j a [] d h = ground arith
lookup-append_last k j a (e ∷ m) d h = ground (arith, lookup-append_last k j a m d)

insert_new :
    (k : Text) (a : ℤ) (m : List (Text × ℤ))
    → lookup text_discrete k m ≡ none
    → insert text_discrete k a m ≡ m ++ ((k, a) ∷ [])
unfolding lookup insert
insert_new k a [] h = refl
insert_new k a (e ∷ m) h = ground (arith, insert_new k a m)

-- The entries have no key of the map.
pub Apart : List (Text × ℤ) → List Entry → Type 0
Apart m es = All (λ (p, n, a). lookup text_discrete (mint_key p n) m ≡ none) es

Apart-append_last :
    (p n : Text) (a : ℤ) (m : List (Text × ℤ)) (es : List Entry)
    → IsBytes p
    → IsBytes n
    → AreBytes es
    → All (λ (q, k, b). ¬ ((p ≡ q) × (n ≡ k))) es
    → Apart m es
    → Apart (m ++ ((mint_key p n, a) ∷ [])) es
unfolding Apart
Apart-append_last p n a m [] bp bn be d h = tt
Apart-append_last p n a m ((q, k, b) ∷ es) bp bn be d h = (
  lookup-append_last (mint_key p n) (mint_key q k) a m
      (λ e. d.0 (mint_key-injective p n q k bp bn be.0.0 be.0.1 e)) h.0,
  Apart-append_last p n a m es bp bn be.1 d.1 h.1,
)

pub NoTwice-AllNew :
    (m : List (Text × ℤ)) (es : List Entry) → AreBytes es → NoTwice es → Apart m es → AllNew m es
unfolding AllNew Apart
NoTwice-AllNew m [] be d h = tt
NoTwice-AllNew m ((p, n, a) ∷ es) be d h = (
  h.0,
  NoTwice-AllNew (m ++ ((mint_key p n, a) ∷ [])) es be.1 d.1
      (Apart-append_last p n a m es be.0.0 be.0.1 be.1 d.0 h.1),
)

pub nothing_cached : (es : List Entry) → Apart [] es
unfolding Apart lookup
nothing_cached [] = tt
nothing_cached (e ∷ es) = (refl, nothing_cached es)

mint_assets-keyed :
    (p : Text) (ns : List (Text × ℤ)) (m : List (Text × ℤ)) (rest : List Entry)
    → AllNew m (tagged p ns ++ rest)
    → (mint_assets p ns m ≡ m ++ keyed (tagged p ns)) × AllNew (m ++ keyed (tagged p ns)) rest
unfolding mint_assets AllNew
mint_assets-keyed p [] m rest h =
    (sym (append-nil m), subst (λ x. AllNew x rest) (sym (append-nil m)) h)
mint_assets-keyed p ((n, a) ∷ ns) m rest h =
    let last = (mint_key p n, a) ∷ [] in
    let (same, new) = mint_assets-keyed p ns (m ++ last) rest h.1 in
    let move = append_assoc m last (keyed (tagged p ns)) in
    (
      ap (mint_assets p ns) (insert_new (mint_key p n) a m h.0) ∙ same ∙ move,
      subst (λ x. AllNew x rest) move new,
    )

keyed-append : (es fs : List Entry) → keyed (es ++ fs) ≡ keyed es ++ keyed fs
keyed-append [] fs = refl
keyed-append (e ∷ es) fs = ap (λ x. (mint_key e.0 e.1, e.2) ∷ x) (keyed-append es fs)

pub mint_map-keyed :
    (assets : Assets) (m : List (Text × ℤ))
    → AllNew m (flatten assets)
    → mint_map assets m ≡ m ++ keyed (flatten assets)
unfolding mint_map
mint_map-keyed [] m h = sym (append-nil m)
mint_map-keyed ((p, ns) ∷ assets) m h =
    let (same, new) = mint_assets-keyed p ns m (flatten assets) h in
    ap (mint_map assets) same
    ∙ mint_map-keyed assets (m ++ keyed (tagged p ns)) new
    ∙ append_assoc m (keyed (tagged p ns)) (keyed (flatten assets))
    ∙ ap (λ x. m ++ x) (sym (keyed-append (tagged p ns) (flatten assets)))
