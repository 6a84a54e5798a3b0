-- ===== src/Errors/LogLines.antt =====
-- What a line of the logs says: `ParseLogMessage` of errors/migration.go, `isMySQLError`
-- of errors/stderr_interceptor.go. Of Go's package `strings`, lower case and
-- white space are those of ASCII.
use nectar.Prelude.{
  ℕ, ◌+◌, Bool, false, Option, none, some, List, [], ◌∷◌, ◌++◌, reverse, leb, ◌==◌, ◌&&◌, ◌||◌,
  if◌then◌else◌, any, length, drop, Text, text, has_prefix, contains, split_at,
}
use nectar.Errors.Filter.{ErrorType, database, network, processing, constraint, slow, warning}

-- `strings.ToLower`, by letter
abbrev pub lower : ℕ → ℕ
lower c = if leb 65 c && leb c 90 then c + 32 else c

abbrev pub to_lower : Text → Text
to_lower [] = []
to_lower (c ∷ s) = lower c ∷ to_lower s

abbrev pub is_space : ℕ → Bool
is_space c = (c == 32) || (leb 9 c && leb c 13)

abbrev pub keep_words : List Text → List Text
keep_words [] = []
keep_words ([] ∷ ws) = keep_words ws
keep_words ((c ∷ w) ∷ ws) = (c ∷ w) ∷ keep_words ws

-- `strings.Fields`
unfoldable pub fields : Text → List Text
unfolding split_at
fields s = keep_words (split_at is_space s)

unfoldable pub trim_left : Text → Text
trim_left [] = []
trim_left (c ∷ s) = if is_space c then trim_left s else c ∷ s

-- `strings.TrimSpace`
abbrev pub trim_space : Text → Text
trim_space s = reverse (trim_left (reverse (trim_left s)))

-- `strings.TrimPrefix(s, p)`, the prefix first.
abbrev pub trim_prefix : Text → Text → Text
trim_prefix p s = if has_prefix p s then drop (length p) s else s

-- `strings.Join(ws, " ")`
unfoldable pub join_words : List Text → Text
join_words [] = []
join_words (w ∷ []) = w
join_words (w ∷ v ∷ ws) = w ++ (32 ∷ join_words (v ∷ ws))

-- The message after the first "] ", or all of it.
unfoldable pub after_bracket : Text → Option Text
after_bracket [] = none
after_bracket (c ∷ s) =
    if has_prefix (text "] ") (c ∷ s) then some (drop 2 (c ∷ s)) else after_bracket s

abbrev pub clean_message : Text → Text
clean_message s = elim (after_bracket s) [ none ↦ s | some t ↦ t ]

-- what a line reports; none stands for a line that is no error
pub record Reported : Type 0 where
  pub error_type : ErrorType
  pub component : Text
  pub operation : Text
  pub message : Text

abbrev reports : ErrorType → Text → Text → Text → Option Reported
reports t c o m = some (record { error_type = t; component = c; operation = o; message = m })

abbrev parse_warning : Text → Option Reported
parse_warning log =
    if contains (text "failed to find existing transaction") log
    then reports warning (text "Transaction") (text "Lookup") (clean_message log)
    else if contains (text "Historical reference") log
    then reports warning (text "Transaction") (text "HistoricalRef") (clean_message log)
    else reports warning (text "General") (text "Warning") (clean_message log)

abbrev parse_failure : Text → Option Reported
parse_failure log =
    if contains (text "BlockFetch") log
    then reports processing (text "BlockFetch") (text "Fetch") (clean_message log)
    else if contains (text "ChainSync") log
    then reports processing (text "ChainSync") (text "Sync") (clean_message log)
    else if contains (text "connection") log
    then reports processing (text "Network") (text "Connection") (clean_message log)
    else if contains (text "transaction") log
    then reports processing (text "Transaction") (text "Process") (clean_message log)
    else if contains (text "block") log
    then reports processing (text "Block") (text "Process") (clean_message log)
    else reports processing (text "General") (text "Error") (clean_message log)

abbrev parse_other : Text → Option Reported
parse_other log =
    if contains (text "constraint") log
    then reports constraint (text "Database") (text "Constraint") (clean_message log)
    else if contains (text "deadlock") log
    then reports database (text "Database") (text "Deadlock") (clean_message log)
    else if contains (text "connection refused") log || contains (text "connection reset") log
    then reports network (text "Network") (text "Connection") (clean_message log)
    else if contains (text "timeout") log
    then reports network (text "Network") (text "Timeout") (clean_message log)
    else none

unfoldable pub parse_log_message : Text → Option Reported
unfolding contains has_prefix after_bracket
parse_log_message log =
    if contains (text "Error 1452") log || contains (text "foreign key constraint") log
    then reports constraint (text "Database") (text "ForeignKey") (clean_message log)
    else if contains (text "Error 1062") log || contains (text "Duplicate entry") log
    then none
    else if contains (text "SLOW SQL") log || contains (text "slow query") log
    then reports slow (text "Database") (text "SlowQuery") (clean_message log)
    else if contains (text "failed to process") log
    then reports processing (text "Processor") (text "ProcessBlock") (clean_message log)
    else if contains (text "Warning:") log || contains (text "[WARNING]") log
    then parse_warning log
    else if contains (text "Error:") log
        || contains (text "[ERROR]") log
        || contains (text "failed") log
    then parse_failure log
    else parse_other log

abbrev mysql_patterns : List Text
mysql_patterns =
    text "packets.go:"
    ∷ text "connection.go:"
    ∷ text "driver.go:"
    ∷ text "connector.go:"
    ∷ text "mysql:"
    ∷ text "[mysql]"
    ∷ text "unexpected EOF"
    ∷ text "busy buffer"
    ∷ text "unexpected seq nr"
    ∷ text "bad connection"
    ∷ text "broken pipe"
    ∷ text "invalid connection"
    ∷ text "commands out of sync"
    ∷ text "Packets out of order"
    ∷ text "connection refused"
    ∷ text "connection reset"
    ∷ text "Error 1452"
    ∷ text "Error 1451"
    ∷ text "Error 1054"
    ∷ text "Error 1146"
    ∷ text "tidb:"
    ∷ text "[tidb]"
    ∷ text "TiDB"
    ∷ []

unfoldable pub is_mysql_error : Text → Bool
unfolding contains has_prefix
is_mysql_error line =
    if contains (text "Error 1062") line || contains (text "Duplicate entry") line
    then false
    else any (λ pattern. contains (to_lower pattern) (to_lower line)) mysql_patterns
