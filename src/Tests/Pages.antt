-- ===== src/Tests/Pages.antt =====
-- The pages' figures for a strategy that is long two steps of Bitcoin.
use mochi_position_manager.Prelude.{String, ◌≡◌, refl, [], ◌∷◌, ◌*◌}
use mochi_position_manager.Prelude.Int.{pos, ◌+ℤ◌, ◌-ℤ◌, ◌*ℤ◌}
use mochi_position_manager.Prelude.Totals.{total}
use mochi_position_manager.Prelude.Table.{lookup, upsert}
use mochi_position_manager.Reconcile.{Pair, claims_of, venue_claims}
use mochi_position_manager.Dashboard.{venue_flat}
use mochi_position_manager.Dashboard.Performance.{
  row_total, sum_rows, performance, funding_total, insert_row, finalize, totals_of,
}
use mochi_position_manager.Dashboard.Positions.{blend_row, blends, actual_of, actual_list}
use mochi_position_manager.Dashboard.Tally.{
  add_row, leg_amount, book_legs, book_orders, book_funding,
}
use mochi_position_manager.Dashboard.OpenPositions.{leg_mark, open_position_of}
use mochi_position_manager.Dashboard.Performance.Balance.{performance_balances}
use mochi_position_manager.Tests.Data.{env, route, long_db, step}
use mochi_position_manager.Models.{price_unit}

-- The venue says that it holds nothing, so the ledger's leg is marked at the live price.
test_headline :
    (performance env (route ∷ []) long_db).totals.total ≡ pos (2 * step * 10000 * price_unit)
unfolding performance blend_row blends actual_of actual_list add_row leg_mark leg_amount
    open_position_of book_legs book_orders book_funding insert_row finalize totals_of funding_total
    total lookup upsert venue_flat venue_claims claims_of ◌+ℤ◌ ◌-ℤ◌ ◌*ℤ◌
test_headline = refl

performance_balances_example :
    let p = performance env (route ∷ []) long_db in
    (sum_rows row_total p.per_exchange ≡ p.totals.total)
    × (sum_rows row_total p.per_strategy +ℤ p.totals.funding ≡ p.totals.total)
    × (p.totals.realized
        ≡ total (λ (key : String × Pair) sp. sp.realized_pnl) long_db.strategy_positions)
performance_balances_example = performance_balances env (route ∷ []) long_db
