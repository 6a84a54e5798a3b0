-- ===== src/Params/Tests.antt =====
-- The epoch parameters on a small table.
use nectar.Prelude.{
  ℕ, ◌≤◌, ◌<◌, ◌≡◌, refl, Bool, true, Option, none, some, ◌==◌, if◌then◌else◌, arith,
}
use nectar.Params.Table.{EpochParam}
use nectar.Params.Provider.{params_for, complete, provide_epoch_params, backfill_epoch_params}
use nectar.Params.Backfill.{provided, backfill_epoch_params-completes}

abbrev Rows : Type 0
Rows = ℕ → Option EpochParam

abbrev store_row : EpochParam → Rows → Rows × Bool
store_row e rows = ((λ n. if n == e.epoch_no then some e else rows n), true)

abbrev find_row : ℕ → Rows → Option EpochParam
find_row n rows = rows n

abbrev no_rows : Rows
no_rows n = none

backfill_epoch_params-completes_example :
    let s' = provided store_row 4 no_rows in
    (backfill_epoch_params store_row 5 (some 3) no_rows ≡ complete s')
    × ((n : ℕ)
        → n ≤ 3
        → find_row n s' ≡ (
            if (provide_epoch_params store_row n (provided store_row n no_rows)).1
            then params_for n
            else find_row n no_rows))
    × ((n : ℕ) → 3 < n → find_row n s' ≡ find_row n no_rows)
backfill_epoch_params-completes_example =
    backfill_epoch_params-completes store_row find_row (λ e s n h. refl)
      (λ e s n h. absurd (ground (arith, h))) 5 3 no_rows (omega arith) (omega arith)
