-- ===== src/Errors/Parsed.antt =====
-- The duplicates among the log lines: errors/migration.go and errors/stderr_interceptor.go against
-- the filter of errors/unified_error_system.go.
use nectar.Prelude.{
  ◌≡◌, ◌⊎◌, inl, inr, refl, Bool, true, false, Option, none, some, ◌||◌, if-cases, Text, text,
  contains, arith,
}
use nectar.Errors.Filter.{constraint, is_duplicate}
use nectar.Errors.LogLines.{Reported, parse_log_message, is_mysql_error, clean_message}

-- the report of a violated foreign key
abbrev pub foreign_key : Text → Option Reported
foreign_key line = some (record {
  error_type = constraint;
  component = text "Database";
  operation = text "ForeignKey";
  message = clean_message line;
})

-- A line that the unified error system takes for a duplicate is no error to the interceptor of the
-- standard error, and `ParseLogMessage` reports it either not at all or as a violated foreign key.
pub parse_log_message-duplicate :
    (line : Text)
    → is_duplicate line ≡ true
    → (is_mysql_error line ≡ false)
      × ((parse_log_message line ≡ none) ⊎ (parse_log_message line ≡ foreign_key line))
unfolding is_duplicate parse_log_message is_mysql_error
parse_log_message-duplicate line h = (
  if-cases (λ (b : Bool). b ≡ false)
      (contains (text "Error 1062") line || contains (text "Duplicate entry") line) _ _ (λ _. refl)
      (λ f. ground (arith, f, h)),
  if-cases (λ (o : Option Reported). (o ≡ none) ⊎ (o ≡ foreign_key line))
      (contains (text "Error 1452") line || contains (text "foreign key constraint") line) _ _
      (λ _. inr refl)
      (λ _.
        if-cases (λ (o : Option Reported). (o ≡ none) ⊎ (o ≡ foreign_key line))
          (contains (text "Error 1062") line || contains (text "Duplicate entry") line) _ _
          (λ _. inl refl) (λ f. ground (arith, f, h))),
)
