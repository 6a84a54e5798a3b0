-- ===== src/Errors/Collector.antt =====
-- `ErrorCollector`, processors/error_collector.go. Times are numbers, 0 being the zero time; the
-- current time is an argument. The returned pointers are not used by the callers, so the map
-- holds the errors themselves. Its mutex makes each method one step.
use nectar.Prelude.{
  ℕ, suc, ◌+◌, ◌-◌, none, some, List, [], ◌∷◌, ◌++◌, ltb, leb, ◌==◌, ◌||◌, if◌then◌else◌, length,
  Text, text, text_discrete,
}
use nectar.Prelude.Dict.{lookup, insert, erase}

pub data ErrorSeverity : Type 0 where
  info warning error critical : ErrorSeverity

pub data ErrorCategory : Type 0 where
  database network processing validation system : ErrorCategory

abbrev pub severity_name : ErrorSeverity → Text
severity_name info = text "Info"
severity_name warning = text "Warning"
severity_name error = text "Error"
severity_name critical = text "Critical"

abbrev pub category_name : ErrorCategory → Text
category_name database = text "Database"
category_name network = text "Network"
category_name processing = text "Processing"
category_name validation = text "Validation"
category_name system = text "System"

pub record CollectedError : Type 0 where
  pub severity : ErrorSeverity
  pub category : ErrorCategory
  pub component : Text
  pub operation : Text
  pub message : Text
  pub context : Text
  pub count : ℕ
  pub first_seen : ℕ
  pub last_seen : ℕ

pub record ErrorCollector : Type 0 where
  pub errors : List (Text × CollectedError)
  pub max_errors : ℕ

unfoldable pub new_error_collector : ℕ → ErrorCollector
new_error_collector max_errors = record { errors = []; max_errors = max_errors }

-- one call of `CollectError`
pub record Occurrence : Type 0 where
  pub severity : ErrorSeverity
  pub category : ErrorCategory
  pub component : Text
  pub operation : Text
  pub message : Text
  pub context : Text
  pub now : ℕ

abbrev pub signature_of : Occurrence → Text
signature_of o =
    severity_name o.severity
    ++ (text ":"
        ++ (category_name o.category
            ++ (text ":"
                ++ (o.component ++ (text ":" ++ (o.operation ++ (text ":" ++ o.message)))))))

-- The loop for the oldest error: its key and its time so far.
unfoldable pub find_oldest : Text × ℕ → List (Text × CollectedError) → Text
find_oldest best [] = best.0
find_oldest best ((key, e) ∷ rest) =
    find_oldest (if (best.1 == 0) || ltb e.last_seen best.1 then (key, e.last_seen) else best) rest

abbrev pub new_collected : Occurrence → CollectedError
new_collected o = record {
  severity = o.severity;
  category = o.category;
  component = o.component;
  operation = o.operation;
  message = o.message;
  context = o.context;
  count = 1;
  first_seen = o.now;
  last_seen = o.now;
}

unfoldable pub collect_error : Occurrence → ErrorCollector → ErrorCollector
unfolding lookup insert erase find_oldest
collect_error o c = elim (lookup text_discrete (signature_of o) c.errors) [
  | some e ↦ record c {
    errors =
        insert text_discrete (signature_of o) (record e { count = suc e.count; last_seen = o.now })
          c.errors;
  }
  | none ↦
      let kept =
        if leb c.max_errors (length c.errors)
        then erase text_discrete (find_oldest ([], 0) c.errors) c.errors
        else c.errors in
      record c { errors = insert text_discrete (signature_of o) (new_collected o) kept }
]

unfoldable pub get_error_count : ErrorCollector → ℕ
get_error_count c = length c.errors

abbrev pub sum_counts : List (Text × CollectedError) → ℕ
sum_counts [] = 0
sum_counts ((key, e) ∷ rest) = e.count + sum_counts rest

unfoldable pub get_total_error_count : ErrorCollector → ℕ
get_total_error_count c = sum_counts c.errors

unfoldable pub clear_collector : ErrorCollector → ErrorCollector
clear_collector c = record c { errors = [] }

-- The keys to delete of `cleanupOldErrors`, and the deletions.
unfoldable pub keys_to_delete : ℕ → ℕ → List (Text × CollectedError) → List Text
keys_to_delete now max_age [] = []
keys_to_delete now max_age ((key, e) ∷ rest) =
    let keys = keys_to_delete now max_age rest in
    if ltb max_age (now - e.last_seen) then key ∷ keys else keys

unfoldable pub delete_keys : List Text → List (Text × CollectedError) → List (Text × CollectedError)
unfolding erase
delete_keys [] errors = errors
delete_keys (key ∷ keys) errors = delete_keys keys (erase text_discrete key errors)

unfoldable pub cleanup_collector : ℕ → ℕ → ErrorCollector → ErrorCollector
unfolding keys_to_delete delete_keys
cleanup_collector now max_age c = record c {
  errors = delete_keys (keys_to_delete now max_age c.errors) c.errors;
}

pub data CollectorCall : Type 0 where
  collected : Occurrence → CollectorCall
  cleared : CollectorCall
  cleaned : ℕ → ℕ → CollectorCall

unfoldable pub collector_run : List CollectorCall → ErrorCollector → ErrorCollector
unfolding collect_error clear_collector cleanup_collector
collector_run [] c = c
collector_run (collected o ∷ rest) c = collector_run rest (collect_error o c)
collector_run (cleared ∷ rest) c = collector_run rest (clear_collector c)
collector_run (cleaned now max_age ∷ rest) c = collector_run rest (cleanup_collector now max_age c)
