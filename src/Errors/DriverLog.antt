-- ===== src/Errors/DriverLog.antt =====
-- The interceptor of the MySQL driver's log: errors/mysql_logger.go. Nothing installs it.
use nectar.Prelude.{
  ℕ, suc, ◌+◌, Bool, Option, none, some, List, [], ◌∷◌, ◌++◌, leb, ltb, ◌==◌, ◌&&◌, if◌then◌else◌,
  any, length, take, drop, is_empty, Text, text, contains, has_prefix,
}
use nectar.Errors.Filter.{database, network}
use nectar.Errors.Unified.{ErrorSystem, log_error}
use nectar.Errors.LogLines.{Reported, to_lower, trim_space, trim_left, trim_prefix}
use nectar.Errors.Sequences.{extract_sequence_info}
use nectar.Errors.Intercepted.{category, timeout_message, LogLine, report_of}

abbrev driver_patterns : List Text
driver_patterns =
    text "packets.go:"
    ∷ text "connection.go:"
    ∷ text "mysql:"
    ∷ text "MySQL"
    ∷ text "unexpected EOF"
    ∷ text "busy buffer"
    ∷ text "unexpected seq nr"
    ∷ text "bad connection"
    ∷ text "broken pipe"
    ∷ text "invalid connection"
    ∷ []

unfoldable is_mysql_driver_log : Text → Bool
unfolding contains
is_mysql_driver_log msg =
    any (λ pattern. contains (to_lower pattern) (to_lower msg)) driver_patterns

abbrev sequence_error : Text → Text → Text
sequence_error msg found = if is_empty found then msg else text "Packet sequence error: " ++ found

-- the switch of `processMySQLLog`, on a line and its lower case
unfoldable pub driver_packets_category : Text → Text → Reported
unfolding contains extract_sequence_info
driver_packets_category msg low =
    if contains (text "unexpected seq nr") low
    then category network (text "MySQL.Packets") (text "SequenceError")
        (sequence_error msg (extract_sequence_info msg))
    else if contains (text "unexpected eof") low
    then category network (text "MySQL.Packets") (text "EOFError")
        (text "Unexpected EOF while reading packet")
    else category database (text "MySQL.Packets") (text "Connection") msg

unfoldable pub driver_connection_category : Text → Text → Reported
unfolding contains
driver_connection_category msg low =
    if contains (text "busy buffer") low
    then category network (text "MySQL.Connection") (text "BusyBuffer")
        (text "Connection buffer is busy - possible protocol sync issue")
    else if contains (text "bad connection") low
    then category network (text "MySQL.Connection") (text "BadConnection")
        (text "Connection is in bad state")
    else category database (text "MySQL.Connection") (text "Connection") msg

unfoldable pub driver_other_category : Text → Text → Reported
unfolding contains
driver_other_category msg low =
    if contains (text "broken pipe") low
    then category network (text "MySQL.Network") (text "BrokenPipe")
        (text "Connection broken (broken pipe)")
    else if contains (text "invalid connection") low
    then category database (text "MySQL.Connection") (text "InvalidConnection")
        (text "Invalid database connection")
    else if contains (text "timeout") low
    then category network (text "MySQL.Network") (text "Timeout") (timeout_message msg)
    else if contains (text "deadlock") low
    then category database (text "MySQL.Transaction") (text "Deadlock")
        (text "Database deadlock detected")
    else if contains (text "too many connections") low
    then category database (text "MySQL.Connection") (text "ConnectionLimit")
        (text "Too many connections to database")
    else category database (text "MySQL") (text "Connection") msg

unfoldable pub driver_category : Text → Reported
unfolding contains driver_packets_category driver_connection_category driver_other_category
driver_category msg =
    let low = to_lower msg in
    if contains (text "packets.go") low
    then driver_packets_category msg low
    else if contains (text "connection.go") low
    then driver_connection_category msg low
    else driver_other_category msg low

-- `strings.Index(s, p)`, and `strings.LastIndex(s, " ")`
unfoldable index_of : Text → Text → Option ℕ
unfolding has_prefix
index_of p [] = if has_prefix p [] then some 0 else none
index_of p (c ∷ s) =
    let rest = index_of p s in
    if has_prefix p (c ∷ s) then some 0 else elim rest [ none ↦ none | some i ↦ some (suc i) ]

unfoldable last_space : Text → Option ℕ
last_space [] = none
last_space (c ∷ s) = elim (last_space s) [
  | some i ↦ some (suc i)
  | none ↦ if c == 32 then some 0 else none
]

unfoldable skip_digits : Text → Text
skip_digits [] = []
skip_digits (c ∷ s) = let rest = skip_digits s in if leb 48 c && leb c 57 then rest else c ∷ s

-- The message after a "]" among its first 30 characters.
unfoldable after_timestamp : Text → Text
unfolding index_of trim_left
after_timestamp msg = elim (index_of (text "]") msg) [
  | none ↦ msg
  | some i ↦ if ltb i 30 then trim_space (drop (suc i) msg) else msg
]

-- The word that ends in ".go" is cut out, with the digits after it: where they are looked for there is
-- always a colon.
unfoldable without_place : Text → Text
unfolding index_of last_space skip_digits
without_place msg = elim (index_of (text ".go:") msg) [
  | none ↦ msg
  | some i ↦ elim (last_space (take i msg)) [
    | none ↦ msg
    | some j ↦
        let rest = skip_digits (drop (i + 3) msg) in
        if is_empty rest then msg else take j msg ++ rest
  ]
]

unfoldable pub clean_mysql_log_message : Text → Text
unfolding after_timestamp without_place trim_left
clean_mysql_log_message msg = trim_space (
    trim_prefix (text "mysql: ")
      (trim_prefix (text "[mysql] ") (without_place (after_timestamp msg))))

unfoldable process_mysql_log : LogLine → ErrorSystem → ErrorSystem
unfolding driver_category clean_mysql_log_message log_error
process_mysql_log l s =
    let r = driver_category l.line in
    log_error (report_of r (clean_mysql_log_message r.message) l) s

-- `Write`: the number of bytes, and a nil error
unfoldable driver_write : LogLine → ErrorSystem → ℕ × ErrorSystem
unfolding is_mysql_driver_log process_mysql_log
driver_write l s = (length l.line, if is_mysql_driver_log l.line then process_mysql_log l s else s)
