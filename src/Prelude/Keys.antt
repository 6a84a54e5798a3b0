-- ===== src/Prelude/Keys.antt =====
-- Keys of rows, which may be nil.
use nectar.Prelude.{
  ◌≡◌, refl, ap, Bool, true, false, Option, none, some, List, [], ◌∷◌, any, All, Text, text_eq,
  text_eq_refl, arith,
}

abbrev pub Keys : Type 0
Keys = List (Option Text)

abbrev pub Lacks : Option Text → Keys → Type 0
Lacks h l = All (λ k. ¬ (k ≡ h)) l

abbrev pub same_key : Option Text → Option Text → Bool
same_key none none = true
same_key (some a) (some b) = text_eq a b
same_key _ _ = false

same_key_refl : (k : Option Text) → same_key k k ≡ true
same_key_refl none = refl
same_key_refl (some a) = text_eq_refl a

pub any-Lacks : (h : Option Text) (keys : Keys) → any (same_key h) keys ≡ false → Lacks h keys
any-Lacks h [] e = tt
any-Lacks h (k ∷ keys) e = (
  (λ q. ground (arith, e, same_key_refl h, ap (same_key h) q)),
  any-Lacks h keys (ground (arith, e)),
)
