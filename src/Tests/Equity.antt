-- ===== src/Tests/Equity.antt =====
-- Two days of the equity backfill.
use mochi_position_manager.Prelude.{◌≡◌, refl, ◌*◌, ◌/◌, ◌-◌, suc, List, [], ◌∷◌, map, select}
use mochi_position_manager.Prelude.Int.{pos, ◌+ℤ◌, ◌-ℤ◌}
use mochi_position_manager.Session.{ok}
use mochi_position_manager.EquityBackfill.{
  Event, day_ms, insert_event, by_ts, walk, daily_loop, build_daily_rows, is_live, backfill_equity,
}
use mochi_position_manager.EquityBackfill.Daily.{
  last_of, upto, days_from, row_of_day, build_daily_rows-row_of_day,
}
use mochi_position_manager.EquityBackfill.Snapshots.{backfill_equity_again}

abbrev closes : List Event
closes = (day_ms, pos 5) ∷ (10, pos 3) ∷ (1, pos 100) ∷ []

abbrev totals : List Event
totals = (2, pos 7) ∷ (day_ms, pos 9) ∷ []

-- The close before the start does not count.
test_rows :
    build_daily_rows (λ x. x) 5 closes totals day_ms
    ≡ (0, (pos 3, pos 0)) ∷ (day_ms, (pos 8, pos 2)) ∷ []
unfolding build_daily_rows daily_loop walk by_ts insert_event ◌+ℤ◌ ◌-ℤ◌
test_rows = refl

build_daily_rows-row_of_day_example :
    build_daily_rows (λ x. x) 5 closes totals day_ms
    ≡ map
        (row_of_day
          (λ x. x)
          5
          (last_of (pos 0) (upto 5 (by_ts totals)))
          (by_ts closes)
          (by_ts totals))
        (days_from (5 / day_ms * day_ms) (suc (day_ms / day_ms) - 5 / day_ms))
build_daily_rows-row_of_day_example = build_daily_rows-row_of_day (λ x. x) 5 day_ms closes totals

backfill_equity_again_example :
    let run = backfill_equity (λ x. x) 5 day_ms (ok closes) (ok []) (ok totals) in
    (select is_live (run []) ≡ []) × (run (run []) ≡ run [])
backfill_equity_again_example =
    backfill_equity_again (λ x. x) 5 day_ms (ok closes) (ok []) (ok totals) []
