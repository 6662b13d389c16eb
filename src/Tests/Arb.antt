-- ===== src/Tests/Arb.antt =====
-- The funding-arb arithmetic on concrete input: a hedged pair of 0.019 BTC.
use mochi_position_manager.Prelude.{ℕ, ◌*◌, ◌+◌, ◌≤◌, ◌<◌, ◌≡◌, ◌⊎◌, refl, arith}
use mochi_position_manager.Prelude.Int.{pos}
use mochi_position_manager.Models.{buy, sell, price_unit}
use mochi_position_manager.ArbModels.{spot, perp}
use mochi_position_manager.ArbPnl.{LegPnlInput}
use mochi_position_manager.ArbExecutor.{dust_inverse, snap_down, snap_nearest, hedge_qty}
use mochi_position_manager.ArbExecutor.Hedge.{hedge_qty_nearest}

abbrev spot_leg : LegPnlInput
spot_leg = record {
  exchange = "bybit";
  account = "arb";
  product = spot;
  symbol = "BTCUSDT";
  side = buy;
  filled = 19000000000;
  avg_fill = 50000 * price_unit;
  mark = 51000 * price_unit;
  funding = pos 0;
  commission = pos 7;
}

abbrev perp_leg : LegPnlInput
perp_leg = record spot_leg {
  product = perp;
  side = sell;
  avg_fill = 50010 * price_unit;
  funding = pos 90;
}

-- A fill of 0.00018987 on a step of 0.00001 is hedged by 0.00019.
test_hedge : hedge_qty 189870000 10000000 ≡ 190000000
unfolding hedge_qty snap_nearest
test_hedge = refl

-- A quantity a hair below 0.34 is 0.34 on a step of 0.01; 0.335 is 0.33.
test_snap_down :
    snap_down 339999999999 10000000000 + snap_down 335000000000 10000000000 ≡ 670000000000
unfolding snap_down
test_snap_down = refl

hedge_qty_nearest_example :
    (hedge_qty 189870000 10000000 ≡ 0)
      × (189870000 * dust_inverse + 10000000 < 10000000 * dust_inverse)
    ⊎ ((k : ℕ) × (hedge_qty 189870000 10000000 ≡ k * 10000000))
      × (10000000 ≤ hedge_qty 189870000 10000000)
      × (2 * hedge_qty 189870000 10000000 ≤ 2 * 189870000 + 10000000)
      × (2 * 189870000 < 2 * hedge_qty 189870000 10000000 + 10000000)
hedge_qty_nearest_example = hedge_qty_nearest 189870000 10000000 (omega arith)
