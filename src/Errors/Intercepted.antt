-- ===== src/Errors/Intercepted.antt =====
-- The interceptor of the standard error: errors/stderr_interceptor.go. The pipe is the sequence of the
-- lines that are scanned, and the clock and the stack of a report come with its line. Nothing sets the
-- interceptor up.
use nectar.Prelude.{ℕ, Bool, List, [], ◌∷◌, ◌++◌, if◌then◌else◌, Text, text, contains, is_empty}
use nectar.Errors.Filter.{ErrorType, database, network}
use nectar.Errors.Unified.{Report, ErrorSystem, log_error}
use nectar.Errors.LogLines.{Reported, to_lower, is_mysql_error}
use nectar.Errors.Sequences.{extract_sequence_numbers, cleanup_error_message}

-- what is reported of a line, before its message is cleaned
abbrev pub category : ErrorType → Text → Text → Text → Reported
category t c o m = record { error_type = t; component = c; operation = o; message = m }

abbrev sequence_message : Text → Text
sequence_message found =
    if is_empty found
    then text "Packet sequence number mismatch"
    else text "Packet sequence mismatch: " ++ found

-- a line from packets.go, and its lower case
unfoldable pub packets_category : Text → Text → Reported
unfolding contains extract_sequence_numbers
packets_category line low =
    if contains (text "unexpected seq nr") low
    then category network (text "MySQL.Packets") (text "SequenceError")
        (sequence_message (extract_sequence_numbers line))
    else if contains (text "unexpected eof") low
    then category network (text "MySQL.Packets") (text "EOFError")
        (text "Unexpected EOF while reading packet")
    else if contains (text "packets out of order") low
    then category network (text "MySQL.Packets") (text "PacketOrder")
        (text "Packets received out of order")
    else category database (text "MySQL.Packets") (text "Unknown") line

-- a line from connection.go
unfoldable pub connection_category : Text → Text → Reported
unfolding contains
connection_category line low =
    if contains (text "busy buffer") low
    then category network (text "MySQL.Connection") (text "BusyBuffer")
        (text "Connection buffer busy - possible protocol desync")
    else if contains (text "bad connection") low
    then category network (text "MySQL.Connection") (text "BadConnection")
        (text "Connection in bad state")
    else if contains (text "connection reset") low
    then category network (text "MySQL.Connection") (text "ConnectionReset")
        (text "Connection reset by peer")
    else category database (text "MySQL.Connection") (text "Unknown") line

abbrev pub timeout_message : Text → Text
timeout_message s =
    if contains (text "i/o timeout") s
    then text "Network I/O timeout"
    else if contains (text "read timeout") s
    then text "Read timeout exceeded"
    else if contains (text "write timeout") s
    then text "Write timeout exceeded"
    else text "Connection timeout"

-- the further cases of the switch
unfoldable pub other_category : Text → Text → Reported
unfolding contains
other_category line low =
    if contains (text "commands out of sync") low
    then category database (text "MySQL.Protocol") (text "CommandSync")
        (text "Commands out of sync - protocol error")
    else if contains (text "broken pipe") low
    then category network (text "MySQL.Network") (text "BrokenPipe")
        (text "Connection lost (broken pipe)")
    else if contains (text "connection refused") low
    then category network (text "MySQL.Network") (text "ConnectionRefused")
        (text "Connection refused by MySQL server")
    else if contains (text "timeout") low
    then category network (text "MySQL.Network") (text "Timeout") (timeout_message low)
    else if contains (text "too many connections") low
    then category database (text "MySQL.Connection") (text "ConnectionLimit")
        (text "Maximum connection limit reached")
    else if contains (text "deadlock") low
    then category database (text "MySQL.Transaction") (text "Deadlock")
        (text "Transaction deadlock detected")
    else category database (text "MySQL") (text "Unknown") line

unfoldable pub categorize : Text → Reported
unfolding contains packets_category connection_category other_category
categorize line =
    let low = to_lower line in
    if contains (text "packets.go") low
    then packets_category line low
    else if contains (text "connection.go") low
    then connection_category line low
    else other_category line low

-- a line, and the time and the stack at which it is reported
pub record LogLine : Type 0 where
  pub line : Text
  pub stack_trace : Text
  pub now : ℕ

-- the report of a line, with the message as it is cleaned
abbrev pub report_of : Reported → Text → LogLine → Report
report_of r message l = record {
  err_type = r.error_type;
  component = r.component;
  operation = r.operation;
  message = message;
  details = [];
  stack_trace = l.stack_trace;
  now = l.now;
}

unfoldable pub process_mysql_error : LogLine → ErrorSystem → ErrorSystem
unfolding categorize cleanup_error_message log_error
process_mysql_error l s =
    let r = categorize l.line in log_error (report_of r (cleanup_error_message r.message) l) s

unfoldable pub process_line : LogLine → ErrorSystem → ErrorSystem
unfolding is_mysql_error process_mysql_error
process_line l s = if is_mysql_error l.line then process_mysql_error l s else s

-- The loop over the scanned lines, each with whether `Stop` has closed the channel before it: the error
-- system, and what is written to the original standard error.
unfoldable pub intercept : List (Bool × LogLine) → ErrorSystem → ErrorSystem × Text
unfolding process_line
intercept [] s = (s, [])
intercept ((stopped, l) ∷ lines) s =
    let (s1, out) = intercept lines (process_line l s) in
    if stopped then (s, []) else (s1, l.line ++ (10 ∷ out))
