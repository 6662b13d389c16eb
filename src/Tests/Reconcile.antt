-- ===== src/Tests/Reconcile.antt =====
-- The audit, the backfill and the sync of a strategy that bought two steps of Bitcoin.
use mochi_position_manager.Prelude.{
  ◌<◌, String, ◌≡◌, ◌⊎◌, refl, true, none, some, List, [], ◌∷◌, leb, length, ◌*◌,
}
use mochi_position_manager.Prelude.Int.{pos, ◌+ℤ◌, ◌*ℤ◌, ◌-ℤ◌}
use mochi_position_manager.Prelude.Table.{lookup, upsert, string_key, pair_key}
use mochi_position_manager.Models.{buy, market, Order, StrategyPosition, Status, signed_qty}
use mochi_position_manager.Session.{ok, raised}
use mochi_position_manager.Executor.Fills.{fill_math}
use mochi_position_manager.Executor.Ledger.{strategy_fill}
use mochi_position_manager.Executor.Rows.{new_order}
use mochi_position_manager.Reconcile.{
  claims_of, venue_claims, sync_routes, Pair, synced_row, sync_venue, sync_venues,
}
use mochi_position_manager.Reconcile.Audit.{
  flat, replay, audit_row, netted, audit_pair, ExchangeDrift,
}
use mochi_position_manager.Routing.{StrategyRoute}
use mochi_position_manager.Reconcile.Backfill.{backfill_row}
use mochi_position_manager.Reconcile.History.{booked, audit_row-booked}
use mochi_position_manager.Reconcile.Sync.{profit, row_of, sync_routes_keeps}
use mochi_position_manager.Reconcile.Backfill.Entries.{Settles, backfill_row-Settles}
use mochi_position_manager.Tests.Data.{step, price, venue, env, route, long_row, long_db}

abbrev bought : Order
bought = record (new_order 1 venue buy step none market none "" 900) {
  status = Status.success;
  fill_price = some price;
}

abbrev bought_row : StrategyPosition
bought_row = (strategy_fill (signed_qty buy step) step price 900 none).0

audit_row-booked_example : audit_row (λ at. raised "no oracle") bought_row (bought ∷ []) ≡ ok none
unfolding booked new_order
audit_row-booked_example =
    audit_row-booked 900 (λ at. raised "no oracle") (bought ∷ []) bought_row ((refl, tt)) refl

-- A fill without a price takes the oracle's close, and the entry of a row is set to it.
abbrev unpriced : Order
unpriced = record bought { fill_price = none }

test_backfill :
    backfill_row 1000 (λ at. ok price) (record bought_row { avg_entry_price = 7 }) (unpriced ∷ [])
    ≡ ok (record bought_row { updated_at = 1000 })
unfolding backfill_row replay fill_math new_order strategy_fill ◌+ℤ◌ ◌*ℤ◌ ◌-ℤ◌
test_backfill = refl

backfill_row-Settles_example :
    ((sp' : StrategyPosition) × (backfill_row 1000 (λ at. ok price) long_row (unpriced ∷ [])
        ≡ ok sp')
      × Settles (λ at. ok price) long_row (unpriced ∷ []) sp')
    ⊎ ((why : String) × (replay (λ at. ok price) flat (unpriced ∷ []) ≡ raised why)
        × (backfill_row 1000 (λ at. ok price) long_row (unpriced ∷ []) ≡ raised why))
backfill_row-Settles_example = backfill_row-Settles 1000 (λ at. ok price) long_row (unpriced ∷ [])

-- The test venue holds nothing, and the ledger two steps.
test_audit_pair :
    audit_pair env long_db ("bybit", "BTCUSDT")
    ≡ some (ExchangeDrift.drift (pos (2 * step)) (pos 0))
unfolding audit_pair netted ◌+ℤ◌ ◌-ℤ◌
test_audit_pair = refl

abbrev two_routes : List StrategyRoute
two_routes = route ∷ record route { strategy_id = "scalp" } ∷ []

abbrev trend_btc : String × Pair
trend_btc = ("trend", ("bybit", "BTCUSDT"))

are_two : leb 2 (length (venue_claims two_routes trend_btc.1)) ≡ true
unfolding venue_claims claims_of
are_two = refl

sync_routes_keeps_example :
    (profit (row_of trend_btc (sync_routes env two_routes two_routes long_db))
      ≡ profit (row_of trend_btc long_db))
    × ((length (venue_claims two_routes ("bybit", "BTCUSDT")) < 2)
        ⊎ (row_of trend_btc (sync_routes env two_routes two_routes long_db)
            ≡ row_of trend_btc long_db))
sync_routes_keeps_example = sync_routes_keeps env two_routes long_db trend_btc

-- A strategy that trades the pair alone takes the venue's answer, and keeps its profit.
test_sync :
    (sync_routes env (route ∷ []) (route ∷ []) long_db).strategy_positions
    ≡ (trend_btc, synced_row 1000 (pos 0) 0 (some long_row)) ∷ []
unfolding sync_routes sync_venues sync_venue venue_claims claims_of upsert lookup
test_sync = refl
