-- ===== src/Retry/Classify.antt =====
-- `IsRetryableError` of database/retry.go, on the text of an error; a nil error is `none`.
use nectar.Prelude.{Text, text, contains, Bool, false, Option, none, some, List, [], ◌∷◌, ◌||◌}

abbrev connection_errors : List Text
connection_errors =
    text "bad connection"
    ∷ text "invalid connection"
    ∷ text "broken pipe"
    ∷ text "connection reset"
    ∷ text "timeout"
    ∷ text "deadlock"
    ∷ text "commands out of sync"
    ∷ text "connection refused"
    ∷ text "connection closed"
    ∷ []

abbrev tidb_errors : List Text
tidb_errors =
    text "Write conflict"
    ∷ text "Information schema is changed"
    ∷ text "Region is unavailable"
    ∷ text "tikv is busy"
    ∷ text "TiKV server timeout"
    ∷ text "txn too large"
    ∷ []

abbrev transaction_errors : List Text
transaction_errors =
    text "Error 1213" ∷ text "Error 1205" ∷ text "Error 2013" ∷ text "Error 2006" ∷ []

-- Whether the text has one of the patterns.
unfoldable pub contains_any : List Text → Text → Bool
unfolding contains
contains_any [] s = false
contains_any (p ∷ ps) s = contains p s || contains_any ps s

unfoldable pub is_retryable_error : Option Text → Bool
unfolding contains_any
is_retryable_error none = false
is_retryable_error (some err) =
    contains_any connection_errors err
    || contains_any tidb_errors err
    || contains_any transaction_errors err
