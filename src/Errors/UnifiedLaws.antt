-- ===== src/Errors/UnifiedLaws.antt =====
-- The unified error system, errors/unified_error_system.go: its bounds, what it stores, its counters.
use nectar.Prelude.{
  ℕ, zero, suc, ◌+◌, ◌/◌, ◌≤◌, ◌<◌, ◌≡◌, ◌≢◌, refl, Bool, true, false, Option, none, some, List, [],
  ◌∷◌, ◌++◌, ltb, if◌then◌else◌, length, Text, text_eq, text_discrete, length-append, length-drop,
  arith, inl, inr, Option-cases, if-cases, option-cases,
}
use nectar.Prelude.Dict.{lookup, insert, erase, length-erase}
use nectar.Errors.Filter.{ErrorType, should_filter_error, is_duplicate}
use nectar.Errors.Unified.{
  UnifiedError, ErrorSystem, Report, log_error, count_again, new_error, append_error, add_error,
  publish, store, signature, oldest, take_out, remove_oldest, ages_of, last_seen_of,
  cleanup_old_errors, is_type,
}

-- The oldest entry is one of the entries.
oldest_found :
    (b : Text × ℕ) (ages : List (Text × ℕ))
    → lookup text_discrete (oldest b ages).0 (b ∷ ages) ≢ none
unfolding oldest lookup
oldest_found b [] = ground arith
oldest_found b (a ∷ ages) = ground (arith, oldest_found a ages, oldest_found b ages)

ages_lookup :
    (heap : ℕ → Option UnifiedError) (k : Text) (m : List (Text × ℕ))
    → lookup text_discrete k m ≡ none
    → lookup text_discrete k (ages_of heap m) ≡ none
unfolding ages_of lookup
ages_lookup heap k [] h = refl
ages_lookup heap k (e ∷ m) h = ground (arith, ages_lookup heap k m)

length-erase-le : (k : Text) (m : List (Text × ℕ)) → length (erase text_discrete k m) ≤ length m
unfolding erase
length-erase-le k [] = ground arith
length-erase-le k (e ∷ m) = ground (arith, length-erase-le k m)

length-remove_oldest-le :
    (n : ℕ) (ages m : List (Text × ℕ)) → length (remove_oldest n ages m) ≤ length m
unfolding remove_oldest
length-remove_oldest-le zero ages m = omega arith
length-remove_oldest-le (suc n) [] m = omega arith
length-remove_oldest-le (suc n) (a ∷ ages) m =
    let sig = (oldest a ages).0 in
    omega (
      arith,
      length-remove_oldest-le n (take_out sig (a ∷ ages)) (erase text_discrete sig m),
      length-erase-le sig m,
    )

length-insert-le :
    (k : Text) (v : ℕ) (m : List (Text × ℕ)) → length (insert text_discrete k v m) ≤ suc (length m)
unfolding insert
length-insert-le k v [] = ground arith
length-insert-le k v (e ∷ m) = ground (arith, length-insert-le k v m)

length-remove_some :
    (n : ℕ) (heap : ℕ → Option UnifiedError) (m : List (Text × ℕ))
    → 0 < n
    → 0 < length m
    → length (remove_oldest n (ages_of heap m) m) < length m
unfolding remove_oldest ages_of
length-remove_some zero heap m h _ = omega (arith, h)
length-remove_some (suc n) heap [] _ h = omega (arith, h)
length-remove_some (suc n) heap ((k, p) ∷ m) _ _ =
    let a : Text × ℕ = (k, last_seen_of heap p) in
    let ages = ages_of heap m in
    let sig = (oldest a ages).0 in
    elim (Option-cases (lookup text_discrete sig ((k, p) ∷ m))) [
      | inl e ↦ absurd (oldest_found a ages (ages_lookup heap sig ((k, p) ∷ m) e))
      | inr (q, e) ↦ omega (
        arith,
        length-remove_oldest-le n (take_out sig (a ∷ ages)) (erase text_discrete sig ((k, p) ∷ m)),
        length-erase text_discrete sig ((k, p) ∷ m) q e,
      )
    ]

-- A clean-up of a map that is not empty takes an entry out.
length-cleanup_old_errors :
    (s : ErrorSystem) → 0 < length s.errors → length (cleanup_old_errors s).errors < length s.errors
unfolding cleanup_old_errors
length-cleanup_old_errors s h =
    let tenth = length s.errors / 10 in
    let n = if ltb tenth 1 then 1 else tenth in
    length-remove_some n s.heap s.errors (ground arith) h

-- within the sizes
unfoldable pub IsBounded : ErrorSystem → Type 0
IsBounded s = (length s.errors ≤ s.max_errors) × (length s.error_list ≤ s.max_list_size)

append_error-lengths :
    (r : Report) (s : ErrorSystem)
    → IsBounded s
    → (length (append_error r s).errors ≤ suc (append_error r s).max_errors)
      × (length (append_error r s).error_list ≤ (append_error r s).max_list_size)
unfolding IsBounded append_error
append_error-lengths r s h =
    let key = signature r.err_type r.component r.operation r.message in
    ground (
      arith,
      length-insert-le key s.next s.errors,
      length-append s.error_list (s.next ∷ []),
      length-drop 1 (s.error_list ++ (s.next ∷ [])),
    )

add_error-IsBounded : (r : Report) (s : ErrorSystem) → IsBounded s → IsBounded (add_error r s)
unfolding IsBounded add_error cleanup_old_errors
add_error-IsBounded r s h =
    ground (arith, append_error-lengths r s h, length-cleanup_old_errors (append_error r s))

pub log_error-IsBounded : (r : Report) (s : ErrorSystem) → IsBounded s → IsBounded (log_error r s)
unfolding IsBounded log_error count_again publish
log_error-IsBounded r s h = ground (arith, add_error-IsBounded r s h)

-- What holds before a report, after a new error and after a known one holds after the report.
pub log_error-cases :
    (P : ErrorSystem → Type 0) (r : Report) (s : ErrorSystem)
    → P s
    → (should_filter_error r.err_type r.component r.operation r.message ≡ false
        → is_duplicate r.message ≡ false
        → P (publish r true (add_error r s)))
    → ((p : ℕ) → P (publish r false (count_again r p s)))
    → P (log_error r s)
unfolding log_error
log_error-cases P r s h new known =
    let key = signature r.err_type r.component r.operation r.message in
    if-cases P (should_filter_error r.err_type r.component r.operation r.message) s _ (λ _. h)
      (λ f.
        if-cases P (is_duplicate r.message) s _ (λ _. h)
          (λ d. option-cases P (lookup text_discrete key s.errors) _ _ (new f d) known))

-- The error behind each pointer passed the filter when it came.
unfoldable pub IsFiltered : ErrorSystem → Type 0
IsFiltered s =
    (p : ℕ) (e : UnifiedError)
    → s.heap p ≡ some e
    → (is_duplicate e.message ≡ false)
      × (should_filter_error e.error_type e.component e.operation e.message ≡ false)

add_error-heap :
    (r : Report) (s : ErrorSystem) → (add_error r s).heap ≡ store s.heap s.next (new_error r)
unfolding add_error append_error cleanup_old_errors
add_error-heap r s = ground arith

add_error-IsFiltered :
    (r : Report) (s : ErrorSystem)
    → should_filter_error r.err_type r.component r.operation r.message ≡ false
    → is_duplicate r.message ≡ false
    → IsFiltered s
    → IsFiltered (add_error r s)
unfolding IsFiltered
add_error-IsFiltered r s f d h p e = rw (add_error-heap r s) (ground (arith, h p e))

count_again-IsFiltered :
    (r : Report) (q : ℕ) (s : ErrorSystem) → IsFiltered s → IsFiltered (count_again r q s)
unfolding IsFiltered count_again
count_again-IsFiltered r q s h p e = elim (Option-cases (s.heap q)) [
  | inl n ↦ ground (arith, h p e)
  | inr (e', m) ↦ ground (arith, h p e, h q e')
]

pub log_error-IsFiltered :
    (r : Report) (s : ErrorSystem) → IsFiltered s → IsFiltered (log_error r s)
unfolding IsFiltered publish
log_error-IsFiltered r s h =
    log_error-cases IsFiltered r s h (λ f d. add_error-IsFiltered r s f d h)
      (λ p. count_again-IsFiltered r p s h)

-- the sum of the counters
abbrev pub all_types : List ErrorType
all_types =
    ErrorType.database ∷ ErrorType.network ∷ ErrorType.processing ∷ ErrorType.validation
    ∷ ErrorType.constraint ∷ ErrorType.slow ∷ ErrorType.warning ∷ ErrorType.block_fetch
    ∷ ErrorType.transaction ∷ ErrorType.connection ∷ ErrorType.system ∷ []

abbrev pub sum_of : (ErrorType → ℕ) → List ErrorType → ℕ
sum_of f [] = 0
sum_of f (t ∷ ts) = f t + sum_of f ts

unfoldable pub IsCounted : ErrorSystem → Type 0
IsCounted s = s.total_errors ≡ sum_of s.errors_by_type all_types

sum_of_bump :
    (t : ErrorType) (f : ErrorType → ℕ)
    → sum_of (λ u. if is_type u t then suc (f u) else f u) all_types ≡ suc (sum_of f all_types)
unfolding text_eq
sum_of_bump ErrorType.database f = omega arith
sum_of_bump ErrorType.network f = omega arith
sum_of_bump ErrorType.processing f = omega arith
sum_of_bump ErrorType.validation f = omega arith
sum_of_bump ErrorType.constraint f = omega arith
sum_of_bump ErrorType.slow f = omega arith
sum_of_bump ErrorType.warning f = omega arith
sum_of_bump ErrorType.block_fetch f = omega arith
sum_of_bump ErrorType.transaction f = omega arith
sum_of_bump ErrorType.connection f = omega arith
sum_of_bump ErrorType.system f = omega arith

publish-IsCounted :
    (r : Report) (b : Bool) (s : ErrorSystem) → IsCounted s → IsCounted (publish r b s)
unfolding IsCounted publish
publish-IsCounted r b s h = omega (arith, sum_of_bump r.err_type s.errors_by_type, h)

add_error-IsCounted : (r : Report) (s : ErrorSystem) → IsCounted s → IsCounted (add_error r s)
unfolding IsCounted add_error append_error cleanup_old_errors
add_error-IsCounted r s h = ground arith

count_again-IsCounted :
    (r : Report) (p : ℕ) (s : ErrorSystem) → IsCounted s → IsCounted (count_again r p s)
unfolding IsCounted count_again
count_again-IsCounted r p s h = ground arith

pub log_error-IsCounted : (r : Report) (s : ErrorSystem) → IsCounted s → IsCounted (log_error r s)
log_error-IsCounted r s h =
    log_error-cases IsCounted r s h
      (λ f d. publish-IsCounted r true (add_error r s) (add_error-IsCounted r s h))
      (λ p. publish-IsCounted r false (count_again r p s) (count_again-IsCounted r p s h))

pub log_error-limits :
    (r : Report) (s : ErrorSystem)
    → ((log_error r s).max_errors ≡ s.max_errors)
      × ((log_error r s).max_list_size ≡ s.max_list_size)
unfolding count_again add_error append_error cleanup_old_errors publish
log_error-limits r s =
    log_error-cases (λ t. (t.max_errors ≡ s.max_errors) × (t.max_list_size ≡ s.max_list_size)) r s
      (refl, refl) (λ f d. ground arith) (λ p. ground arith)
