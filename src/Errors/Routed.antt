-- ===== src/Errors/Routed.antt =====
-- The interceptor of the standard error and the unified error system together:
-- errors/stderr_interceptor.go before the filter of errors/unified_error_system.go.
use nectar.Prelude.{
  ℕ, suc, ◌+◌, ◌≡◌, refl, ap, arith, Bool, true, false, not, ◌&&◌, if◌then◌else◌, if-cases,
  option-cases, List, [], ◌∷◌, ◌++◌, All, length, Text, text, text_eq, text_discrete, contains,
}
use nectar.Prelude.Dict.{lookup}
use nectar.Errors.Filter.{ErrorType, should_filter_error, is_duplicate}
use nectar.Errors.Unified.{
  Report, ErrorSystem, log_error, add_error, append_error, cleanup_old_errors, count_again, publish,
  signature,
}
use nectar.Errors.LogLines.{Reported, to_lower, is_mysql_error}
use nectar.Errors.Sequences.{cleanup_error_message}
use nectar.Errors.Intercepted.{
  category, packets_category, connection_category, timeout_message, other_category, categorize,
  LogLine, report_of, process_mysql_error, process_line, intercept,
}

-- Its message is a fixed one.
abbrev is_fixed : Reported → Bool
is_fixed r =
    not (text_eq r.operation (text "Unknown")) && not (text_eq r.operation (text "SequenceError"))

abbrev Passes : Reported → Type 0
Passes r =
    let m = cleanup_error_message r.message in
    (should_filter_error r.error_type r.component r.operation m ≡ false) × (is_duplicate m ≡ false)

-- what is shown of each case
unfoldable Fine : Reported → Type 0
Fine r = is_fixed r ≡ true → Passes r

passes : (r : Reported) → Passes r → Fine r
unfolding Fine
passes r p h = p

free : (r : Reported) → is_fixed r ≡ false → Fine r
unfolding Fine
free r e h = absurd (cc (e, h))

fixed : (r : Reported) → Fine r → is_fixed r ≡ true → Passes r
unfolding Fine
fixed r p = p

either-Fine : (b : Bool) (x y : Reported) → Fine x → Fine y → Fine (if b then x else y)
either-Fine true x y p q = p
either-Fine false x y p q = q

timeout-Fine :
    (low : Text)
    → Fine
        (category ErrorType.network (text "MySQL.Network") (text "Timeout") (timeout_message low))
unfolding should_filter_error is_duplicate cleanup_error_message
timeout-Fine low =
    let F : Text → Type 0 =
      λ m. Fine (category ErrorType.network (text "MySQL.Network") (text "Timeout") m) in
    if-cases F (contains (text "i/o timeout") low) _ _ (λ _. passes _ (refl, refl))
      (λ _.
        if-cases F (contains (text "read timeout") low) _ _ (λ _. passes _ (refl, refl))
          (λ _.
            if-cases F (contains (text "write timeout") low) _ _ (λ _. passes _ (refl, refl))
              (λ _. passes _ (refl, refl))))

other_category-Fine : (line low : Text) → Fine (other_category line low)
unfolding other_category should_filter_error is_duplicate cleanup_error_message
other_category-Fine line low =
    either-Fine (contains (text "commands out of sync") low) _ _ (passes _ (refl, refl)) (
      either-Fine (contains (text "broken pipe") low) _ _ (passes _ (refl, refl)) (
        either-Fine (contains (text "connection refused") low) _ _ (passes _ (refl, refl)) (
          either-Fine (contains (text "timeout") low) _ _ (timeout-Fine low) (
            either-Fine (contains (text "too many connections") low) _ _ (passes _ (refl, refl)) (
              either-Fine (contains (text "deadlock") low) _ _ (passes _ (refl, refl))
                (free _ refl))))))

packets_category-Fine : (line low : Text) → Fine (packets_category line low)
unfolding packets_category should_filter_error is_duplicate cleanup_error_message
packets_category-Fine line low =
    either-Fine (contains (text "unexpected seq nr") low) _ _ (free _ refl) (
      either-Fine (contains (text "unexpected eof") low) _ _ (passes _ (refl, refl)) (
        either-Fine (contains (text "packets out of order") low) _ _ (passes _ (refl, refl))
          (free _ refl)))

connection_category-Fine : (line low : Text) → Fine (connection_category line low)
unfolding connection_category should_filter_error is_duplicate cleanup_error_message
connection_category-Fine line low =
    either-Fine (contains (text "busy buffer") low) _ _ (passes _ (refl, refl)) (
      either-Fine (contains (text "bad connection") low) _ _ (passes _ (refl, refl)) (
        either-Fine (contains (text "connection reset") low) _ _ (passes _ (refl, refl))
          (free _ refl)))

categorize-Fine : (line : Text) → Fine (categorize line)
unfolding categorize
categorize-Fine line =
    let low = to_lower line in
    either-Fine (contains (text "packets.go") low) _ _ (packets_category-Fine line low) (
      either-Fine (contains (text "connection.go") low) _ _ (connection_category-Fine line low)
        (other_category-Fine line low))

add_error-total : (r : Report) (s : ErrorSystem) → (add_error r s).total_errors ≡ s.total_errors
unfolding add_error append_error cleanup_old_errors
add_error-total r s = ground arith

count_again-total :
    (r : Report) (p : ℕ) (s : ErrorSystem) → (count_again r p s).total_errors ≡ s.total_errors
unfolding count_again
count_again-total r p s =
    option-cases (λ (s1 : ErrorSystem). s1.total_errors ≡ s.total_errors) (s.heap p) _ _ refl
      (λ e. refl)

-- A report that passes the filter is counted.
log_error-counts :
    (r : Report) (s : ErrorSystem)
    → should_filter_error r.err_type r.component r.operation r.message ≡ false
    → is_duplicate r.message ≡ false
    → (log_error r s).total_errors ≡ suc s.total_errors
unfolding log_error publish
log_error-counts r s f d =
    let C : ErrorSystem → Type 0 = λ s1. s1.total_errors ≡ suc s.total_errors in
    if-cases C (should_filter_error r.err_type r.component r.operation r.message) _ _
      (λ t. absurd (cc (f, t)))
      (λ _.
        if-cases C (is_duplicate r.message) _ _ (λ t. absurd (cc (d, t)))
          (λ _.
            option-cases C
              (lookup text_discrete (signature r.err_type r.component r.operation r.message)
                s.errors)
              _ _ (ap suc (add_error-total r s)) (λ p. ap suc (count_again-total r p s))))

-- a line that the interceptor takes for an error of the database and reports with a message of its own
abbrev pub IsRecognized : Bool × LogLine → Type 0
IsRecognized (stopped, l) =
    (stopped ≡ false) × (is_mysql_error l.line ≡ true) × (is_fixed (categorize l.line) ≡ true)

-- what was written, each line ended
abbrev pub written : List (Bool × LogLine) → Text
written [] = []
written ((stopped, l) ∷ lines) = l.line ++ (10 ∷ written lines)

process_line-counts :
    (l : LogLine) (s : ErrorSystem)
    → is_mysql_error l.line ≡ true
    → is_fixed (categorize l.line) ≡ true
    → (process_line l s).total_errors ≡ suc s.total_errors
unfolding process_line process_mysql_error
process_line-counts l s e h =
    let r = categorize l.line in
    let (f, d) = fixed (categorize l.line) (categorize-Fine l.line) h in
    rw e (log_error-counts (report_of r (cleanup_error_message r.message) l) s f d)

-- Of lines that are errors of the database with a message of the interceptor's own, and no sequence
-- error, every one is counted by the unified error system, whose filter drops none of them, and each
-- line is written to the original standard error as well, in order, while the interceptor runs.
pub intercept-counts :
    (lines : List (Bool × LogLine)) (s : ErrorSystem)
    → All IsRecognized lines
    → ((intercept lines s).0.total_errors ≡ s.total_errors + length lines)
      × ((intercept lines s).1 ≡ written lines)
unfolding intercept
intercept-counts [] s h = (omega arith, refl)
intercept-counts ((stopped, l) ∷ lines) s ((go, e, f), hs) =
    let (n, out) = intercept-counts lines (process_line l s) hs in
    (rw go (omega (arith, n, process_line-counts l s e f)), rw (go, out) refl)
