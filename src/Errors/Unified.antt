-- ===== src/Errors/Unified.antt =====
-- `UnifiedErrorSystem`, errors/unified_error_system.go. The map and the list for the dashboard
-- share the errors by pointers, so the model keeps a heap of errors. Times are numbers; the
-- current time and the captured stack are arguments. The mutex makes each method one step.
use nectar.Prelude.{
  ℕ, zero, suc, ◌/◌, Bool, true, false, not, Option, none, some, List, [], ◌∷◌, ◌++◌, ltb, ◌==◌,
  ◌&&◌, if◌then◌else◌, length, drop, is_empty, reverse, Text, text, text_eq, text_discrete,
}
use nectar.Prelude.Dict.{lookup, insert, erase}
use nectar.Errors.Filter.{ErrorType, type_name, should_filter_error, is_duplicate}

pub record UnifiedError : Type 0 where
  pub timestamp : ℕ
  pub error_type : ErrorType
  pub component : Text
  pub operation : Text
  pub message : Text
  pub details : Text
  pub stack_trace : Text
  pub count : ℕ
  pub first_seen : ℕ
  pub last_seen : ℕ

-- The state behind the pointer: `heap` holds the errors, `next` is the next fresh pointer.
-- `shown` collects the calls of the dashboard callback and `logged` the lines of the log file.
pub record ErrorSystem : Type 0 where
  pub errors : List (Text × ℕ)
  pub error_list : List ℕ
  pub heap : ℕ → Option UnifiedError
  pub next : ℕ
  pub total_errors : ℕ
  pub errors_by_type : ErrorType → ℕ
  pub dashboard_enabled : Bool
  pub has_dashboard : Bool
  pub has_log_file : Bool
  pub max_errors : ℕ
  pub max_list_size : ℕ
  pub shown : List (Text × Text)
  pub logged : List Text

-- As `Initialize` makes it; whether the log file could be opened is an argument.
unfoldable pub initialize : Bool → Bool → ErrorSystem
initialize has_dashboard has_log_file = record {
  errors = [];
  error_list = [];
  heap = λ p. none;
  next = 0;
  total_errors = 0;
  errors_by_type = λ t. 0;
  dashboard_enabled = true;
  has_dashboard = has_dashboard;
  has_log_file = has_log_file;
  max_errors = 10000;
  max_list_size = 1000;
  shown = [];
  logged = [];
}

unfoldable pub set_dashboard_callback : Bool → ErrorSystem → ErrorSystem
set_dashboard_callback given s = record s { has_dashboard = given; dashboard_enabled = given }

-- the time that a pointer's error was last seen
abbrev pub last_seen_of : (ℕ → Option UnifiedError) → ℕ → ℕ
last_seen_of heap p = elim (heap p) [ none ↦ 0 | some e ↦ e.last_seen ]

-- `ages`: the signatures with the times
unfoldable pub ages_of : (ℕ → Option UnifiedError) → List (Text × ℕ) → List (Text × ℕ)
ages_of heap [] = []
ages_of heap ((sig, p) ∷ m) = (sig, last_seen_of heap p) ∷ ages_of heap m

-- The inner loop: the first of the oldest entries, `best` being the oldest so far.
unfoldable pub oldest : Text × ℕ → List (Text × ℕ) → Text × ℕ
oldest best [] = best
oldest best (a ∷ rest) = oldest (if ltb a.1 best.1 then a else best) rest

-- `ages[oldestIdx] = ages[len(ages)-1]; ages = ages[:len(ages)-1]`: which entry stands where is
-- of no consequence but among equal times, so the entry is taken out in its place.
unfoldable pub take_out : Text → List (Text × ℕ) → List (Text × ℕ)
take_out sig ages = erase text_discrete sig ages

-- The outer loop, with the rounds that are left.
unfoldable pub remove_oldest : ℕ → List (Text × ℕ) → List (Text × ℕ) → List (Text × ℕ)
unfolding oldest take_out
remove_oldest zero ages errors = errors
remove_oldest (suc n) [] errors = errors
remove_oldest (suc n) (a ∷ ages) errors =
    let sig = (oldest a ages).0 in
    remove_oldest n (take_out sig (a ∷ ages)) (erase text_discrete sig errors)

unfoldable pub cleanup_old_errors : ErrorSystem → ErrorSystem
unfolding ages_of remove_oldest
cleanup_old_errors s =
    let tenth = length s.errors / 10 in
    let to_remove = if ltb tenth 1 then 1 else tenth in
    record s { errors = remove_oldest to_remove (ages_of s.heap s.errors) s.errors }

-- `fmt.Sprintf("%s:%s:%s:%s", …)`
abbrev pub signature : ErrorType → Text → Text → Text → Text
signature err_type component operation message =
    type_name err_type
    ++ (text ":" ++ (component ++ (text ":" ++ (operation ++ (text ":" ++ message)))))

abbrev pub store : (ℕ → Option UnifiedError) → ℕ → UnifiedError → ℕ → Option UnifiedError
store heap p e q = if p == q then some e else heap q

abbrev pub is_type : ErrorType → ErrorType → Bool
is_type a b = text_eq (type_name a) (type_name b)

-- One call of `LogError`, its details already joined.
pub record Report : Type 0 where
  pub err_type : ErrorType
  pub component : Text
  pub operation : Text
  pub message : Text
  pub details : Text
  pub stack_trace : Text
  pub now : ℕ

-- The known error is counted once more.
unfoldable pub count_again : Report → ℕ → ErrorSystem → ErrorSystem
count_again r p s = elim (s.heap p) [
  | none ↦ s
  | some e ↦ record s {
    heap = store s.heap p (record e {
      count = suc e.count;
      last_seen = r.now;
      details = if not (is_empty r.details) then r.details else e.details;
    });
  }
]

abbrev pub new_error : Report → UnifiedError
new_error r = record {
  timestamp = r.now;
  error_type = r.err_type;
  component = r.component;
  operation = r.operation;
  message = r.message;
  details = r.details;
  stack_trace = r.stack_trace;
  count = 1;
  first_seen = r.now;
  last_seen = r.now;
}

-- The new error enters the map and the list, which are cut to their sizes.
unfoldable pub append_error : Report → ErrorSystem → ErrorSystem
append_error r s =
    let list = s.error_list ++ (s.next ∷ []) in
    record s {
      heap = store s.heap s.next (new_error r);
      errors =
          insert text_discrete (signature r.err_type r.component r.operation r.message) s.next
            s.errors;
      error_list = if ltb s.max_list_size (length list) then drop 1 list else list;
      next = suc s.next;
    }

unfoldable pub add_error : Report → ErrorSystem → ErrorSystem
unfolding append_error cleanup_old_errors
add_error r s =
    let s' = append_error r s in
    if ltb s'.max_errors (length s'.errors) then cleanup_old_errors s' else s'

-- The counters, the callback (for a new error only) and the log file.
unfoldable pub publish : Report → Bool → ErrorSystem → ErrorSystem
publish r is_new s =
    let where_from = r.component ++ (text "." ++ (r.operation ++ (text ": " ++ r.message))) in
    let detail = if is_empty r.details then [] else text " (" ++ (r.details ++ text ")") in
    let line =
      type_name r.err_type
      ++ (text " | "
          ++ (r.component ++ (text "." ++ (r.operation ++ (text " | " ++ r.message))))) in
    let extra = if is_empty r.details then [] else text " | " ++ r.details in
    record s {
      total_errors = suc s.total_errors;
      errors_by_type =
          λ t. if is_type t r.err_type then suc (s.errors_by_type t) else s.errors_by_type t;
      shown =
          if s.dashboard_enabled && s.has_dashboard && is_new
          then (type_name r.err_type, where_from ++ detail) ∷ s.shown
          else s.shown;
      logged = if s.has_log_file then (line ++ extra) ∷ s.logged else s.logged;
    }

unfoldable pub log_error : Report → ErrorSystem → ErrorSystem
unfolding should_filter_error is_duplicate count_again add_error publish
log_error r s =
    if should_filter_error r.err_type r.component r.operation r.message
    then s
    else if is_duplicate r.message
    then s
    else elim (lookup text_discrete (signature r.err_type r.component r.operation r.message)
        s.errors) [
          | some p ↦ publish r false (count_again r p s)
          | none ↦ publish r true (add_error r s)
        ]

-- The errors that `keep` accepts, in the order of the pointers.
unfoldable pub collect :
    (UnifiedError → Bool) → (ℕ → Option UnifiedError) → List ℕ → List UnifiedError
collect keep heap [] = []
collect keep heap (p ∷ ps) = elim (heap p) [
  | none ↦ collect keep heap ps
  | some e ↦ if keep e then e ∷ collect keep heap ps else collect keep heap ps
]

-- `GetRecentErrors` from the cutoff time on: the newest first, and the filter once more.
unfoldable pub get_recent_errors : ℕ → ErrorSystem → List UnifiedError
unfolding collect is_duplicate
get_recent_errors cutoff s =
    collect (λ e. ltb cutoff e.last_seen && not (is_duplicate e.message)) s.heap
      (reverse s.error_list)

unfoldable pub get_errors_by_type : ErrorType → ErrorSystem → List UnifiedError
unfolding collect is_duplicate
get_errors_by_type t s =
    collect (λ e. is_type e.error_type t && not (is_duplicate e.message)) s.heap s.error_list

-- The counts of `GetStatistics`.
pub record Statistics : Type 0 where
  pub total : ℕ
  pub unique : ℕ
  pub recent : ℕ
  pub by_type : ErrorType → ℕ

abbrev pub get_statistics : ErrorSystem → Statistics
get_statistics s = record {
  total = s.total_errors;
  unique = length s.errors;
  recent = length s.error_list;
  by_type = s.errors_by_type;
}

unfoldable pub clear_errors : ErrorSystem → ErrorSystem
clear_errors s = record s {
  errors = [];
  error_list = [];
  total_errors = 0;
  errors_by_type = λ t. 0;
}

-- the calls that change the state
pub data Request : Type 0 where
  report : Report → Request
  clear_all : Request
  callback : Bool → Request

unfoldable pub serve : List Request → ErrorSystem → ErrorSystem
unfolding log_error clear_errors set_dashboard_callback
serve [] s = s
serve (report r ∷ rest) s = serve rest (log_error r s)
serve (clear_all ∷ rest) s = serve rest (clear_errors s)
serve (callback given ∷ rest) s = serve rest (set_dashboard_callback given s)
