-- ===== src/Errors/Flushed.antt =====
-- The errors that `Flush` of processors/error_collector.go writes.
use nectar.Prelude.{ℕ, ◌≤◌, List, [], ◌∷◌, ◌++◌, length, Text, text}
use nectar.Prelude.Hex.{digits}
use mathlib.Core.List.{Perm}
use mathlib.Core.List.Perm
use nectar.Errors.Collector.{ErrorSeverity, info, warning, error, critical, CollectedError}
use nectar.Errors.Reports.{flush_entries, numbered}

abbrev rank : ErrorSeverity → ℕ
rank info = 0
rank warning = 1
rank error = 2
rank critical = 3

-- No rank is above the bound, nor above the one before it.
abbrev pub Falls : ℕ → List CollectedError → Type 0
Falls n [] = Unit
Falls n (e ∷ es) = (rank e.severity ≤ n) × Falls (rank e.severity) es

-- what a flush appends for the errors of a list
abbrev pub section : (ℕ → Text) → ℕ → List CollectedError → Text
unfolding digits flush_entries
section format now l =
    text "\n=== ERROR LOG UPDATE: "
    ++ (format now
        ++ (text " ===\nActive Errors: "
            ++ (digits (length l)
                ++ (text "\n\n"
                    ++ (flush_entries format (numbered 1 l) ++ text "=== END OF UPDATE ===\n\n")))))
