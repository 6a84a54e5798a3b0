-- ===== src/Errors/Reports.antt =====
-- What is read of the collector of the processors, how it passes errors on to the unified error system,
-- and what it writes to its log file: processors/error_collector.go. `ConvertProcessorError` of
-- errors/migration.go. The layout of a time is a parameter, and so are the clock and the stacks.
use nectar.Prelude.{
  ℕ, suc, Bool, Option, none, some, List, [], ◌∷◌, ◌++◌, ltb, if◌then◌else◌, is_empty, length, Text,
  text, text_eq, contains,
}
use nectar.Prelude.Hex.{digits}
use nectar.Errors.Filter.{ErrorType}
use nectar.Errors.Unified.{ErrorSystem, log_error}
use nectar.Errors.Collector.{
  ErrorSeverity, ErrorCategory, severity_name, category_name, CollectedError, ErrorCollector,
  collect_error,
}

-- the errors of the map that a test picks
unfoldable pub picked : (CollectedError → Bool) → List (Text × CollectedError) → List CollectedError
picked keep [] = []
picked keep ((key, e) ∷ rest) =
    let errors = picked keep rest in if keep e then e ∷ errors else errors

abbrev pub same_severity : ErrorSeverity → ErrorSeverity → Bool
same_severity a b = text_eq (severity_name a) (severity_name b)

unfoldable pub get_all_errors : List (Text × CollectedError) → List CollectedError
get_all_errors [] = []
get_all_errors ((key, e) ∷ rest) = e ∷ get_all_errors rest

-- `GetErrors`
unfoldable pub get_errors : ErrorCollector → List CollectedError
unfolding get_all_errors
get_errors c = get_all_errors c.errors

-- `GetRecentErrors`, from a time on
unfoldable get_recent_collected : ℕ → ErrorCollector → List CollectedError
unfolding picked
get_recent_collected cutoff c = picked (λ e. ltb cutoff e.last_seen) c.errors

unfoldable get_errors_by_category : ErrorCategory → ErrorCollector → List CollectedError
unfolding picked
get_errors_by_category category c =
    picked (λ e. text_eq (category_name e.category) (category_name category)) c.errors

unfoldable get_errors_by_severity : ErrorSeverity → ErrorCollector → List CollectedError
unfolding picked
get_errors_by_severity severity c = picked (λ e. same_severity e.severity severity) c.errors

-- what a call reports, and the stack that the unified error system captures
pub record Call : Type 0 where
  pub component : Text
  pub operation : Text
  pub message : Text
  pub context : Text
  pub stack_trace : Text
  pub now : ℕ

-- `CollectError` and `LogError`, the details of the latter given
unfoldable forward :
    ErrorSeverity
    → ErrorCategory
    → ErrorType
    → Text
    → Call
    → ErrorCollector × ErrorSystem
    → ErrorCollector × ErrorSystem
unfolding collect_error log_error
forward severity category err_type details call (c, s) = (
  collect_error
      (record {
        severity = severity;
        category = category;
        component = call.component;
        operation = call.operation;
        message = call.message;
        context = call.context;
        now = call.now;
      })
      c,
  log_error
      (record {
        err_type = err_type;
        component = call.component;
        operation = call.operation;
        message = call.message;
        details = details;
        stack_trace = call.stack_trace;
        now = call.now;
      })
      s,
)

unfoldable pub processing_error : Call → ErrorCollector × ErrorSystem → ErrorCollector × ErrorSystem
unfolding forward
processing_error call =
    forward ErrorSeverity.error ErrorCategory.processing ErrorType.processing call.context call

-- The warning goes on without its context.
unfoldable pub processing_warning :
    Call → ErrorCollector × ErrorSystem → ErrorCollector × ErrorSystem
unfolding forward
processing_warning call =
    forward ErrorSeverity.warning ErrorCategory.processing ErrorType.warning [] call

unfoldable database_error : Call → ErrorCollector × ErrorSystem → ErrorCollector × ErrorSystem
unfolding forward
database_error call =
    forward ErrorSeverity.error ErrorCategory.database ErrorType.database call.context call

unfoldable network_error : Call → ErrorCollector × ErrorSystem → ErrorCollector × ErrorSystem
unfolding forward
network_error call =
    forward ErrorSeverity.error ErrorCategory.network ErrorType.network call.context call

-- the errors in the order in which `Flush` writes them
unfoldable pub flush_order : List (Text × CollectedError) → List CollectedError
unfolding picked
flush_order errors =
    picked (λ e. same_severity e.severity ErrorSeverity.critical) errors
    ++ (picked (λ e. same_severity e.severity ErrorSeverity.error) errors
        ++ (picked (λ e. same_severity e.severity ErrorSeverity.warning) errors
            ++ picked (λ e. same_severity e.severity ErrorSeverity.info) errors))

-- with the numbers of the entries
abbrev pub numbered : ℕ → List CollectedError → List (ℕ × CollectedError)
numbered n [] = []
numbered n (e ∷ es) = (n, e) ∷ numbered (suc n) es

module _ (format : ℕ → Text) where
  unfoldable flush_entry : ℕ × CollectedError → Text
  unfolding digits
  flush_entry (n, e) =
      text "["
      ++ (digits n
          ++ (text "] "
              ++ (format e.first_seen
                  ++ (text " - "
                      ++ (severity_name e.severity
                          ++ (text " (Count: "
                              ++ (digits e.count
                                  ++ (text ")\n    [WARNING] "
                                      ++ (e.message
                                          ++ (text "\n"
                                              ++ ((if is_empty e.context
                                                    then []
                                                    else text "    Context: "
                                                      ++ (e.context ++ text "\n"))
                                                  ++ text "\n")))))))))))

  unfoldable pub flush_entries : List (ℕ × CollectedError) → Text
  unfolding flush_entry
  flush_entries [] = []
  flush_entries (e ∷ es) = flush_entry e ++ flush_entries es

  -- `Flush`: what is appended to the log file, if there is one
  unfoldable pub flush : ℕ → ErrorCollector → Option Text → Option Text
  unfolding digits flush_order flush_entries
  flush now c none = none
  flush now c (some log) = some (
      log
      ++ (text "\n=== ERROR LOG UPDATE: "
          ++ (format now
              ++ (text " ===\nActive Errors: "
                  ++ (digits (length c.errors)
                      ++ (text "\n\n"
                          ++ (flush_entries (numbered 1 (flush_order c.errors))
                              ++ text "=== END OF UPDATE ===\n\n")))))))

-- The type that `ConvertProcessorError` gives to an error.
unfoldable converted_type : Text → ErrorType
unfolding contains
converted_type err =
    if contains (text "foreign key") err
    then ErrorType.constraint
    else if contains (text "duplicate") err
    then ErrorType.constraint
    else if contains (text "constraint") err
    then ErrorType.constraint
    else if contains (text "connection") err
    then ErrorType.network
    else if contains (text "timeout") err
    then ErrorType.network
    else if contains (text "validation") err
    then ErrorType.validation
    else ErrorType.processing

unfoldable convert_processor_error :
    Text → Text → Option Text → Text → ℕ → ErrorSystem → ErrorSystem
unfolding converted_type log_error
convert_processor_error component operation none stack now s = s
convert_processor_error component operation (some err) stack now s =
    log_error
      (record {
        err_type = converted_type err;
        component = component;
        operation = operation;
        message = err;
        details = [];
        stack_trace = stack;
        now = now;
      })
      s
