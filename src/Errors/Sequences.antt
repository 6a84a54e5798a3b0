-- ===== src/Errors/Sequences.antt =====
-- The sequence numbers in a line of the MySQL driver: `extractSequenceNumbers` and
-- `cleanupErrorMessage` of errors/stderr_interceptor.go, `extractSequenceInfo` of
-- errors/mysql_logger.go.
use nectar.Prelude.{
  ℕ, zero, suc, Bool, true, false, List, [], ◌∷◌, ◌++◌, leb, ltb, ◌==◌, ◌&&◌, ◌||◌, if◌then◌else◌,
  any, length, Text, text, text_eq, contains, split_at, ◌≡◌, refl, sym, ◌∙◌, arith,
}
use nectar.Errors.LogLines.{fields, join_words, trim_space, trim_left, trim_prefix}

-- the first loop, at each place with three more words; the empty text stands for no match
unfoldable pub expected_got : List Text → Text
expected_got [] = []
expected_got (a ∷ ws) =
    let rest = expected_got ws in
    elim ws [
      | [] ↦ []
      | b ∷ ws1 ↦ elim ws1 [
        | [] ↦ []
        | c ∷ ws2 ↦ elim ws2 [
          | [] ↦ []
          | d ∷ _ ↦
              if text_eq a (text "got") && text_eq c (text "want")
              then text "got " ++ (b ++ (text ", expected " ++ d))
              else if text_eq a (text "expected") && text_eq c (text "got")
              then text "expected " ++ (b ++ (text ", got " ++ d))
              else rest
        ]
      ]
    ]

-- the second loop
unfoldable pub after_seq : List Text → Text
unfolding contains
after_seq [] = []
after_seq (a ∷ []) = []
after_seq (a ∷ b ∷ ws) =
    let rest = after_seq (b ∷ ws) in if contains (text "seq") a then text "sequence " ++ b else rest

unfoldable pub extract_sequence_numbers : Text → Text
unfolding fields expected_got after_seq
extract_sequence_numbers line =
    let words = fields line in
    let found = expected_got words in elim found [ [] ↦ after_seq words | c ∷ s ↦ c ∷ s ]

-- the loop of `extractSequenceInfo`
unfoldable pub got_want : List Text → Text
got_want [] = []
got_want (a ∷ ws) =
    let rest = got_want ws in
    elim ws [
      | [] ↦ rest
      | b ∷ ws1 ↦ elim ws1 [
        | [] ↦ rest
        | c ∷ ws2 ↦ elim ws2 [
          | [] ↦ rest
          | d ∷ _ ↦
              if text_eq a (text "got") && text_eq c (text "want")
              then text "got " ++ (b ++ (text ", expected " ++ d))
              else rest
        ]
      ]
    ]

unfoldable pub extract_sequence_info : Text → Text
unfolding fields got_want
extract_sequence_info msg = got_want (fields msg)

abbrev pub contains_number : Text → Bool
contains_number s = any (λ c. leb 48 c && leb c 57) s

-- whether the text has a ":" at the place
abbrev pub colon_at : ℕ → Text → Bool
colon_at n [] = false
colon_at zero (c ∷ s) = c == 58
colon_at (suc n) (c ∷ s) = colon_at n s

-- a part that is a place in a file, or a time
abbrev pub is_reference : Text → Bool
is_reference part =
    (contains (text ".go:") part && contains_number part)
    || (ltb 8 (length part) && colon_at 2 part && colon_at 5 part)

unfoldable pub without_references : List Text → List Text
unfolding contains
without_references [] = []
without_references (part ∷ parts) =
    let cleaned = without_references parts in if is_reference part then cleaned else part ∷ cleaned

unfoldable pub cleanup_error_message : Text → Text
unfolding split_at contains without_references join_words trim_left
cleanup_error_message msg =
    let cleaned = without_references (split_at (λ c. c == 32) msg) in
    trim_space (
      trim_prefix (text "[MySQL] ")
        (trim_prefix (text "mysql: ") (trim_prefix (text "[mysql] ") (join_words cleaned))))

same_branches :
    {A : Type 0} (t u v : Bool) (x y : A) {r q : A}
    → u ≡ false
    → r ≡ q
    → (if t then x else r) ≡ (if t then x else if u && v then y else q)
same_branches true u v x y h e = refl
same_branches false true v x y h e = ground arith
same_branches false false v x y h e = e

got_want-expected_got :
    (ws : List Text)
    → any (λ w. text_eq w (text "expected")) ws ≡ false
    → got_want ws ≡ expected_got ws
unfolding got_want expected_got
got_want-expected_got [] h = refl
got_want-expected_got (a ∷ []) h = refl
got_want-expected_got (a ∷ b ∷ []) h = refl
got_want-expected_got (a ∷ b ∷ c ∷ []) h = refl
got_want-expected_got (a ∷ b ∷ c ∷ d ∷ ws) h =
    same_branches (text_eq a (text "got") && text_eq c (text "want")) (text_eq a (text "expected"))
      (text_eq c (text "got")) _ _ (ground (arith, h))
      (got_want-expected_got (b ∷ c ∷ d ∷ ws) (ground (arith, h)))

-- `extractSequenceInfo` and `extractSequenceNumbers` return the same text for each line without the
-- word "expected" in which the former finds numbers.
pub extract_sequence_numbers-info :
    (line : Text) (c : ℕ) (s : Text)
    → any (λ w. text_eq w (text "expected")) (fields line) ≡ false
    → extract_sequence_info line ≡ c ∷ s
    → extract_sequence_numbers line ≡ c ∷ s
unfolding extract_sequence_info extract_sequence_numbers
extract_sequence_numbers-info line c s h i =
    let e = sym (got_want-expected_got (fields line) h) ∙ i in rw (e, extract_sequence_numbers) refl
