-- ===== src/Tests/Bybit.antt =====
-- Bybit with a step of 0.001 BTC, whose executions surface at the second poll.
use mochi_position_manager.Prelude.{
  ◌+◌, ◌-◌, ◌*◌, ◌/◌, ◌≡◌, refl, none, some, List, [], ◌∷◌, false, arith, if◌then◌else◌, ◌==◌,
}
use mochi_position_manager.Prelude.Int.{pos, ◌+ℤ◌}
use mochi_position_manager.Models.{buy, base_unit, FeeSource}
use mochi_position_manager.Session.{ok, raised}
use mochi_position_manager.Bybit.{
  Category, Instrument, Execution, Client, BybitExchange, or_else, instrument, mark_price,
  round_qty,
}
use mochi_position_manager.Bybit.Rounding.{OnGrid, round_qty-OnGrid}
use mochi_position_manager.Bybit.Fills.{
  total_qty, total_notional, total_fee, first_currency, fill_loop,
}
use mochi_position_manager.Bybit.Orders.{market_order}
use mochi_position_manager.Bybit.Answers.{ensure_leverage, filled_result}
use mochi_position_manager.Bybit.History.{
  window_ms, Window, windows, history, timed_rows, get_closed_pnl,
}
use mochi_position_manager.Bybit.History.Windows.{Tiles, get_closed_pnl_ends}
use mochi_position_manager.Tests.Data.{step, price}

abbrev btc : Instrument
btc = record {
  qty_step = some step;
  min_order_qty = some step;
  min_notional_value = none;
  tick_size = none;
  base_precision = none;
  min_order_amt = none;
}

abbrev execution : Execution
execution = record { exec_qty = 2 * step; exec_price = price; exec_fee = pos 7; fee_currency = "" }

abbrev client : Client
client = record {
  instruments = λ category symbol. ok (btc ∷ []);
  tickers = λ category symbol. ok (price ∷ []);
  executions = λ poll category symbol order_id. if poll == 0 then ok [] else ok (execution ∷ []);
  set_leverage = λ symbol leverage. ok tt;
  place_order = λ p. ok (record { ret_code = 0; ret_msg = "OK"; order_id = "b1" });
  cancel_order = λ symbol order_id. raised "timeout";
  open_orders = λ symbol order_id. ok [];
  order_history = λ symbol order_id. ok [];
  positions = λ symbol. ok [];
  settlements = λ symbol start_ms end_ms. ok [];
  closed_pnl = λ start_ms end_ms cursor.
      ok (record { rows = record { time_ms = start_ms; amount = pos 1 } ∷ []; next_cursor = "" });
  account_settlements = λ start_ms end_ms cursor. raised "timeout";
  klines = λ symbol start_ms end_ms. ok [];
  balances = λ base_asset. ok [];
}

abbrev bybit : BybitExchange
bybit = record { client = client; dry_run = false; lower = λ t. t; upper = λ t. t }

-- A hair below two steps is two steps.
near_two : round_qty bybit "BTCUSDT" (2 * step - 1) ≡ ok (2 * step)
unfolding round_qty instrument
near_two = refl

round_qty-OnGrid_example :
    (i : Instrument) × (instrument bybit Category.linear "BTCUSDT" ≡ ok i)
    × OnGrid
        (or_else i.qty_step (base_unit / 1000))
        (or_else i.min_order_qty 0)
        (2 * step - 1)
        (2 * step)
round_qty-OnGrid_example = round_qty-OnGrid bybit "BTCUSDT" (2 * step - 1) (2 * step) near_two

test_fill : (market_order bybit "BTCUSDT" buy (2 * step) 1).0.fee_source ≡ FeeSource.exchange
unfolding market_order round_qty instrument ensure_leverage filled_result fill_loop mark_price
    total_qty total_notional total_fee first_currency ◌+ℤ◌
test_fill = refl

-- Two windows cover eight days.
test_windows :
    windows 3 0 (window_ms + 5) ≡ some ((0, window_ms - 1) ∷ (window_ms, window_ms + 5) ∷ [])
unfolding windows
test_windows = refl

get_closed_pnl_ends_example :
    (all : List Window) × (get_closed_pnl bybit 3 0 (window_ms + 5)
      ≡ some (history timed_rows bybit.client.closed_pnl all))
    × Tiles 0 (window_ms + 5) all
get_closed_pnl_ends_example = get_closed_pnl_ends bybit 3 0 (window_ms + 5) (omega arith)
