-- ===== src/Errors/Served.antt =====
-- The unified error system, errors/unified_error_system.go, from `Initialize` on: what holds after
-- any sequence of calls.
use nectar.Prelude.{
  ℕ, ◌≤◌, ◌≡◌, refl, ◌∙◌, inl, inr, Bool, not, List, [], ◌∷◌, ltb, ◌&&◌, length, reverse, arith,
  Option-cases,
}
use nectar.Errors.Filter.{ErrorType, is_duplicate}
use nectar.Errors.Unified.{
  UnifiedError, ErrorSystem, initialize, Report, Request, serve, log_error, clear_errors,
  set_dashboard_callback, collect, get_recent_errors, get_errors_by_type, get_statistics, is_type,
  report, clear_all, callback,
}
use nectar.Errors.UnifiedLaws.{
  IsBounded, IsFiltered, IsCounted, log_error-IsBounded, log_error-IsFiltered, log_error-IsCounted,
  log_error-limits, all_types, sum_of,
}

serve_keeps :
    (P : ErrorSystem → Type 0)
    → ((r : Report) (s : ErrorSystem) → P s → P (log_error r s))
    → ((s : ErrorSystem) → P s → P (clear_errors s))
    → ((b : Bool) (s : ErrorSystem) → P s → P (set_dashboard_callback b s))
    → (rs : List Request) (s : ErrorSystem) → P s
    → P (serve rs s)
unfolding serve
serve_keeps P l c d [] s h = h
serve_keeps P l c d (report r ∷ rs) s h = serve_keeps P l c d rs (log_error r s) (l r s h)
serve_keeps P l c d (clear_all ∷ rs) s h = serve_keeps P l c d rs (clear_errors s) (c s h)
serve_keeps P l c d (callback b ∷ rs) s h =
    serve_keeps P l c d rs (set_dashboard_callback b s) (d b s h)

-- the sizes that `Initialize` sets, and the bounds
IsSized : ErrorSystem → Type 0
IsSized s = IsBounded s × (s.max_errors ≡ 10000) × (s.max_list_size ≡ 1000)

serve-IsSized : (d f : Bool) (rs : List Request) → IsSized (serve rs (initialize d f))
unfolding IsSized IsBounded initialize clear_errors set_dashboard_callback
serve-IsSized d f rs =
    serve_keeps IsSized
      (λ r s h. (
        log_error-IsBounded r s h.0,
        (log_error-limits r s).0 ∙ h.1,
        (log_error-limits r s).1 ∙ h.2,
      ))
      (λ s h. ground arith) (λ b s h. h) rs (initialize d f) (ground arith)

serve-IsFiltered : (d f : Bool) (rs : List Request) → IsFiltered (serve rs (initialize d f))
unfolding IsFiltered initialize clear_errors set_dashboard_callback
serve-IsFiltered d f rs =
    serve_keeps IsFiltered log_error-IsFiltered (λ s h. h) (λ b s h. h) rs (initialize d f)
      (ground arith)

serve-IsCounted : (d f : Bool) (rs : List Request) → IsCounted (serve rs (initialize d f))
unfolding IsCounted initialize clear_errors set_dashboard_callback
serve-IsCounted d f rs =
    serve_keeps IsCounted log_error-IsCounted (λ s h. refl) (λ b s h. h) rs (initialize d f) refl

-- The filter drops no error whose message is no duplicate's.
collect-filtered :
    (keep : UnifiedError → Bool) (s : ErrorSystem) (ps : List ℕ)
    → IsFiltered s
    → collect (λ e. keep e && not (is_duplicate e.message)) s.heap ps ≡ collect keep s.heap ps
unfolding collect IsFiltered
collect-filtered keep s [] h = refl
collect-filtered keep s (p ∷ ps) h = elim (Option-cases (s.heap p)) [
  | inl n ↦ ground (arith, collect-filtered keep s ps h)
  | inr (e, m) ↦ ground (arith, collect-filtered keep s ps h, h p e)
]

-- At any time after `Initialize`, whatever was reported, cleared and attached: the map holds at
-- most 10000 errors and the list for the dashboard at most 1000.
pub serve-IsBounded :
    (d f : Bool) (rs : List Request)
    → (length (serve rs (initialize d f)).errors ≤ 10000)
      × (length (serve rs (initialize d f)).error_list ≤ 1000)
unfolding IsSized IsBounded
serve-IsBounded d f rs = ground (arith, serve-IsSized d f rs)

-- At any time after `Initialize`, the last filters of `GetRecentErrors` and `GetErrorsByType` drop
-- nothing: the getters return all errors of the list that are recent, or of the type.
get_recent_errors-unfiltered :
    (d f : Bool) (rs : List Request) (cutoff : ℕ) (t : ErrorType)
    → let s = serve rs (initialize d f) in
      (get_recent_errors cutoff s
        ≡ collect (λ e. ltb cutoff e.last_seen) s.heap (reverse s.error_list))
      × (get_errors_by_type t s ≡ collect (λ e. is_type e.error_type t) s.heap s.error_list)
unfolding get_recent_errors get_errors_by_type
get_recent_errors-unfiltered d f rs cutoff t =
    let s = serve rs (initialize d f) in
    let h = serve-IsFiltered d f rs in
    (
      collect-filtered (λ e. ltb cutoff e.last_seen) s (reverse s.error_list) h,
      collect-filtered (λ e. is_type e.error_type t) s s.error_list h,
    )

-- At any time after `Initialize`, the total of `GetStatistics` is the sum of its counts by type.
pub get_statistics-sum :
    (d f : Bool) (rs : List Request)
    → let stats = get_statistics (serve rs (initialize d f)) in
      stats.total ≡ sum_of stats.by_type all_types
unfolding IsCounted
get_statistics-sum d f rs = serve-IsCounted d f rs
