-- ===== src/Tests/Report.antt =====
-- The report of a cash-and-carry: spot bought and a perp sold, marked at the venue's price.
use mochi_position_manager.Prelude.{
  ℕ, ◌*◌, ◌≡◌, ◌≢◌, refl, inl, inr, Bool-cases, none, some, [], ◌∷◌, ◌==◌,
}
use mochi_position_manager.Prelude.Int.{pos, ◌+ℤ◌, ◌-ℤ◌, ◌*ℤ◌}
use mochi_position_manager.Prelude.Table.{lookup, upsert, pair_key, string_key, same_pair_iff}
use mochi_position_manager.Prelude.Totals.{total}
use mochi_position_manager.Models.{buy, sell, price_unit}
use mochi_position_manager.ArbModels.{
  spot, perp, ArbStatus, LegStatus, ArbMessage, ArbPosition, ArbLeg,
}
use mochi_position_manager.Session.{Db}
use mochi_position_manager.ArbExecutor.Legs.{legs_of}
use mochi_position_manager.FundingArb.View.{
  LegKey, key_of, by_key, mark_of, spot_mark, perp_mark, newest_first, insert_newest,
}
use mochi_position_manager.ArbPnl.{compute_arb_pnl, add_legs, add_leg, directional_unrealized}
use mochi_position_manager.ArbFunding.{leg_funding, sum_counted}
use mochi_position_manager.FundingArb.Report.{
  arb_performance, arb_by_venue, arb_row, add_arbs, add_rows, sum_by,
}
use mochi_position_manager.FundingArb.Report.Venues.{Distinct, sum_venues, arb_by_venue-sum}
use mochi_position_manager.Tests.Data.{env, empty_db, step}

abbrev pair : ArbPosition
pair = record {
  id = 1;
  idempotency_key = "a1";
  asset = "BTC";
  strategy_tag = none;
  notional_target = none;
  status = ArbStatus.opened;
  realized_pnl = pos 0;
  error_message = ArbMessage.empty;
  opened_at = some 100;
  closed_at = none;
  created_at = 100;
  updated_at = 100;
}

abbrev spot_leg : ArbLeg
spot_leg = record {
  id = 1;
  arb_id = 1;
  exchange = "hyperliquid";
  account = "arb";
  product = spot;
  symbol = "UBTC/USDC";
  side = buy;
  target_qty = step;
  filled_qty = step;
  avg_fill = 49000 * price_unit;
  ref_price = 0;
  grid_step = step;
  commission = pos 0;
  commission_asset = "USDC";
  funding = pos 0;
  realized_pnl = pos 0;
  status = LegStatus.success;
  error_message = ArbMessage.empty;
  created_at = 100;
  updated_at = 100;
}

abbrev perp_leg : ArbLeg
perp_leg = record spot_leg {
  id = 2;
  product = perp;
  symbol = "BTC";
  side = sell;
  avg_fill = 49100 * price_unit;
}

abbrev db : Db
db = record empty_db { arb_positions = pair ∷ []; arb_legs = spot_leg ∷ perp_leg ∷ [] }

keys_differ : ◌≢◌ {A = LegKey} (key_of spot_leg) (key_of perp_leg)
keys_differ e = cc ((same_pair_iff (key_of spot_leg) (key_of perp_leg)).1 e)

legs-Distinct : (arb_id : ℕ) → Distinct (legs_of arb_id db)
legs-Distinct arb_id = elim (Bool-cases (1 == arb_id)) [
  | inl b ↦ rw b ((keys_differ, tt), (tt, tt))
  | inr b ↦ rw b tt
]

arb_by_venue-sum_example :
    sum_venues (arb_by_venue (arb_performance env db)) ≡ (arb_performance env db).totals.net
arb_by_venue-sum_example = arb_by_venue-sum env db legs-Distinct

-- The same pair at Bybit, where both legs have one symbol: each row shows the perp's loss, so that the venue's
-- net is twice the loss and not the headline.
abbrev bybit_db : Db
bybit_db = record db {
  arb_legs =
      record spot_leg { exchange = "bybit"; symbol = "BTCUSDT" }
      ∷ record perp_leg { exchange = "bybit"; symbol = "BTCUSDT" }
      ∷ [];
}

test_headline : (arb_performance env bybit_db).totals.net ≡ pos (100 * step * price_unit)
unfolding arb_performance newest_first insert_newest arb_row compute_arb_pnl add_legs add_leg
    directional_unrealized mark_of spot_mark perp_mark sum_by leg_funding sum_counted ◌+ℤ◌ ◌-ℤ◌ ◌*ℤ◌
test_headline = refl

test_venues :
    sum_venues (arb_by_venue (arb_performance env bybit_db))
    ≡ pos 0 -ℤ pos (1800 * step * price_unit)
unfolding arb_performance arb_by_venue newest_first insert_newest arb_row add_arbs add_rows by_key
    total lookup upsert directional_unrealized mark_of spot_mark perp_mark leg_funding sum_counted
    ◌+ℤ◌ ◌-ℤ◌ ◌*ℤ◌
test_venues = refl
