-- ===== src/Errors/Filter.antt =====
-- The types of errors, and which errors the unified error system drops: `shouldFilterError` and
-- the second test at the start of `LogError`, errors/unified_error_system.go.
use nectar.Prelude.{Text, text, text_eq, contains, Bool, true, false, ◌||◌, ◌&&◌}

pub data ErrorType : Type 0 where
  database network processing validation constraint slow warning block_fetch transaction connection
        system :
      ErrorType

abbrev pub type_name : ErrorType → Text
type_name database = text "Database"
type_name network = text "Network"
type_name processing = text "Processing"
type_name validation = text "Validation"
type_name constraint = text "Constraint"
type_name slow = text "Slow Query"
type_name warning = text "Warning"
type_name block_fetch = text "BlockFetch"
type_name transaction = text "Transaction"
type_name connection = text "Connection"
type_name system = text "System"

abbrev pub is_constraint : ErrorType → Bool
is_constraint constraint = true
is_constraint _ = false

abbrev pub is_database : ErrorType → Bool
is_database database = true
is_database _ = false

abbrev pub is_network : ErrorType → Bool
is_network network = true
is_network _ = false

abbrev pub is_processing : ErrorType → Bool
is_processing processing = true
is_processing _ = false

unfoldable pub should_filter_error : ErrorType → Text → Text → Text → Bool
unfolding contains
should_filter_error err_type component operation message =
    (contains (text "Error 1062") message
      || contains (text "Duplicate entry") message
      || contains (text "duplicate key") message)
    || contains (text "already processed") message
    || (is_constraint err_type && text_eq operation (text "DuplicateKey"))
    || (contains (text "Error 1568") message
        || contains (text "Transaction characteristics can't be changed") message)
    || (contains (text "connection reset by peer") message && is_database err_type)
    || (contains (text "Pool metadata fetch failed") message
        || contains (text "hash mismatch") message
        || (text_eq component (text "MetadataFetcher") && is_network err_type)
        || (is_processing err_type && contains (text "metadata") message))
    || contains (text "Historical sync detected") message
    || (contains (text "Error 9007") message || contains (text "Write conflict") message)
    || (contains (text "Error 1213") message || contains (text "Deadlock found") message)
    || (text_eq component (text "BlockProcessor")
        && text_eq operation (text "CollateralAddressLength")
        && contains (text "Collateral address too long") message)
    || (contains (text "SLOW QUERY") message || contains (text "slow SQL") message)

-- The test that is made again before an error is stored and before it is shown.
unfoldable pub is_duplicate : Text → Bool
unfolding contains
is_duplicate message =
    contains (text "Error 1062") message || contains (text "Duplicate entry") message
