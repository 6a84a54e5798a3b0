-- ===== src/Errors/Tests.antt =====
-- The error systems on a few reports.
use nectar.Prelude.{
  All, Bool, ◌&&◌, ◌+◌, ◌≤◌, ◌<◌, ◌≡◌, refl, true, false, List, [], ◌∷◌, any, length, Text, text,
  text_eq, contains, arith,
}
use nectar.Errors.Filter.{ErrorType, is_duplicate}
use nectar.Errors.Unified.{Report, Request, report, callback, serve, initialize, get_statistics}
use nectar.Errors.UnifiedLaws.{all_types, sum_of}
use nectar.Errors.Served.{serve-IsBounded, get_statistics-sum}
use nectar.Errors.Collector.{ErrorCollector, new_error_collector}
use nectar.Errors.Intercepted.{LogLine, packets_category, other_category, categorize, intercept}
use nectar.Errors.Routed.{IsRecognized, written, intercept-counts}
use nectar.Errors.DriverLog.{driver_category, clean_mysql_log_message}
use nectar.Errors.Agreement.{Agree, own_patterns, categorize-driver_category}
use nectar.Errors.Reports.{Call, processing_error, processing_warning}
use nectar.Errors.LogLines.{is_mysql_error, to_lower, fields}
use nectar.Errors.Sequences.{extract_sequence_info}

abbrev lost : Report
lost = record {
  err_type = ErrorType.network;
  component = text "MySQL";
  operation = text "Read";
  message = text "bad connection";
  details = [];
  stack_trace = [];
  now = 7;
}

abbrev requests : List Request
requests = report lost ∷ callback true ∷ report lost ∷ []

serve-IsBounded_example :
    (length (serve requests (initialize true false)).errors ≤ 10000)
    × (length (serve requests (initialize true false)).error_list ≤ 1000)
serve-IsBounded_example = serve-IsBounded true false requests

get_statistics-sum_example :
    let stats = get_statistics (serve requests (initialize true false)) in
    stats.total ≡ sum_of stats.by_type all_types
get_statistics-sum_example = get_statistics-sum true false requests

room : 0 < (new_error_collector 2).max_errors
unfolding new_error_collector
room = omega arith

abbrev duplicate_line : Text
duplicate_line = text "Error 1062"

duplicate_line-is_duplicate : is_duplicate duplicate_line ≡ true
unfolding is_duplicate contains
duplicate_line-is_duplicate = refl

abbrev packet_line : Text
packet_line = text "seq nr, got 5 want 6"

packet_words : any (λ w. text_eq w (text "expected")) (fields packet_line) ≡ false
unfolding fields
packet_words = refl

packet_info : extract_sequence_info packet_line ≡ text "got 5, expected 6"
unfolding extract_sequence_info
packet_info = refl

abbrev log_line : Text → Bool × LogLine
log_line t = (false, record { line = t; stack_trace = []; now = 5 })

abbrev recognized : List (Bool × LogLine)
recognized =
    log_line (text "packets.go:37: unexpected EOF")
    ∷ log_line (text "mysql: write: broken pipe")
    ∷ log_line (text "mysql: deadlock")
    ∷ []

recognized-IsRecognized : All IsRecognized recognized
unfolding is_mysql_error categorize packets_category other_category
recognized-IsRecognized = ((refl, refl, refl), ((refl, refl, refl), ((refl, refl, refl), tt)))

intercept-counts_example :
    ((intercept recognized (initialize true false)).0.total_errors
      ≡ (initialize true false).total_errors + 3)
    × ((intercept recognized (initialize true false)).1 ≡ written recognized)
intercept-counts_example =
    intercept-counts recognized (initialize true false) recognized-IsRecognized

abbrev lost_line : Text
lost_line = text "connection.go:173: bad connection"

lost_line-plain : any (λ p. contains p (to_lower lost_line)) own_patterns ≡ false
unfolding contains
lost_line-plain = refl

lost_line-calm :
    (contains (text "deadlock") (to_lower lost_line)
      && contains (text "too many connections") (to_lower lost_line))
    ≡ false
unfolding contains
lost_line-calm = refl

categorize-driver_category_example : Agree (categorize lost_line) (driver_category lost_line)
categorize-driver_category_example =
    categorize-driver_category lost_line lost_line-plain lost_line-calm

-- Of a place in a file, the name goes and the line stays.
place_kept :
    clean_mysql_log_message (text "[mysql] 2025/01/02 packets.go:37: unexpected EOF")
    ≡ text "2025/01/02:37: unexpected EOF"
unfolding clean_mysql_log_message
place_kept = refl

abbrev call : Text → Call
call message = record {
  component = text "Block";
  operation = text "Process";
  message = message;
  context = text "slot 7";
  stack_trace = [];
  now = 9;
}

abbrev collector : ErrorCollector
unfolding processing_warning processing_error
collector =
    (processing_error (call (text "no rows"))
      (processing_warning (call (text "slow")) (new_error_collector 10, initialize true false))).0
