-- ===== src/Tests/Funding.antt =====
-- The funding of two arbs that used one symbol after each other.
use mochi_position_manager.Prelude.{ℕ, ◌*◌, ◌^◌, ◌≡◌, refl, some, none, List, [], ◌∷◌}
use mochi_position_manager.Prelude.Int.{pos, ◌+ℤ◌}
use mochi_position_manager.Models.{buy, sell, price_unit}
use mochi_position_manager.ArbModels.{
  spot, perp, ArbStatus, LegStatus, ArbMessage, ArbPosition, ArbLeg, ArbFundingEvent,
}
use mochi_position_manager.ArbFunding.{counts, sum_counted, leg_funding}

abbrev earlier : ArbPosition
earlier = record {
  id = 1;
  idempotency_key = "a1";
  asset = "BTC";
  strategy_tag = none;
  notional_target = none;
  status = ArbStatus.closed;
  realized_pnl = pos 0;
  error_message = ArbMessage.empty;
  opened_at = some 100;
  closed_at = some 200;
  created_at = 90;
  updated_at = 200;
}

abbrev later : ArbPosition
later = record earlier { id = 2; opened_at = some 300; closed_at = none }

abbrev short_leg : ArbLeg
short_leg = record {
  id = 2;
  arb_id = 1;
  exchange = "bybit";
  account = "arb";
  product = perp;
  symbol = "BTCUSDT";
  side = sell;
  target_qty = 19000000000;
  filled_qty = 19000000000;
  avg_fill = 50000 * price_unit;
  ref_price = 50000 * price_unit;
  grid_step = 10 ^ 9;
  commission = pos 7;
  commission_asset = "USDT";
  funding = pos 0;
  realized_pnl = pos 0;
  status = LegStatus.success;
  error_message = ArbMessage.empty;
  created_at = 90;
  updated_at = 100;
}

abbrev long_leg : ArbLeg
long_leg = record short_leg { id = 1; product = spot; side = buy }

abbrev settlement : ℕ → ArbFundingEvent
settlement t = record {
  id = 1;
  arb_id = none;
  exchange = "bybit";
  account = "arb";
  symbol = "BTCUSDT";
  funding_time = t;
  amount = pos 10;
  created_at = t;
}

abbrev settlements : List ArbFundingEvent
settlements = settlement 150 ∷ settlement 200 ∷ settlement 350 ∷ []

test_leg_funding : leg_funding 400 settlements earlier short_leg ≡ pos 20
unfolding leg_funding sum_counted counts ◌+ℤ◌
test_leg_funding = refl
