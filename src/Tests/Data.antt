-- ===== src/Tests/Data.antt =====
-- Test data: one venue that trades BTC at $50,000 on a step of 0.001, a strategy on it, and a few
-- rows.
use mochi_position_manager.Prelude.{ℕ, ◌*◌, ◌^◌, none, some, List, [], ◌∷◌, true, false}
use mochi_position_manager.Prelude.Int.{pos}
use mochi_position_manager.Models.{
  buy, sell, market, limit, Status, OrderState, FeeSource, OrderResult, OrderSnapshot, Alert, Order,
  StrategyPosition, Position, RiskSettings, price_unit, money_unit, default_risk,
}
use mochi_position_manager.Session.{Db, Session, ok, raised}
use mochi_position_manager.Exchange.{Payment, Adapter, Registry}
use mochi_position_manager.Config.{Env, default_settings}
use mochi_position_manager.Routing.{VenueRoute, StrategyRoute}
use mochi_position_manager.Executor.Rows.{new_order}

abbrev pub venue : VenueRoute
venue = record { exchange = "bybit"; symbol = "BTCUSDT"; enabled = true }

abbrev pub price : ℕ
price = 50000 * price_unit

-- 0.001 BTC.
abbrev pub step : ℕ
step = 10 ^ 9

abbrev pub min_notional : ℕ
min_notional = 5 * money_unit

abbrev pub fill : OrderResult
fill = record {
  success = true;
  exchange_order_id = "x1";
  filled_qty_base = 2 * step;
  avg_price = price;
  commission = pos 0;
  commission_asset = "USDT";
  fee_source = FeeSource.exchange;
  error_message = "";
}

abbrev pub refusal : OrderResult
refusal = record fill { success = false; error_message = "rate limit" }

-- One of two steps is filled.
abbrev pub half_filled : OrderSnapshot
half_filled = record {
  state = OrderState.partially_filled;
  filled_qty_base = step;
  avg_price = price;
  commission = pos 0;
  commission_asset = "USDT";
}

abbrev pub payments : List Payment
payments = record { time = 900; amount = pos 7 } ∷ []

abbrev pub adapter : Adapter
adapter = record {
  market_order = λ symbol side quantity leverage. ok fill;
  limit_order = λ symbol side quantity limit_at client_id leverage. ok fill;
  cancel_order = λ symbol order_id. raised "timeout";
  order_status = λ symbol order_id. ok half_filled;
  close_position = λ symbol. ok fill;
  get_position = λ symbol. ok (pos 0, 0);
  get_price = λ symbol. ok price;
  get_step_size = λ symbol. ok step;
  get_min_notional = λ symbol. ok min_notional;
  spot_market_order = λ symbol side qty. ok fill;
  get_spot_balance = λ base_asset. ok 0;
  get_spot_step_size = λ symbol. ok step;
  get_spot_min_notional = λ symbol. ok min_notional;
  get_position_detail =
      λ symbol. ok (record { qty = pos 0; mark = price; entry = 0; unrealized = none });
  get_funding = λ symbol start_ms end_ms. ok payments;
}

abbrev pub registry : Registry
registry name account = ok adapter

abbrev pub env : Env
env = record {
  registry = registry;
  settings = default_settings;
  now = 1000;
  client_order_id = λ alert_id exchange symbol. "client";
  upper = λ t. t;
  lower = λ t. t;
}

abbrev pub route : StrategyRoute
route = record {
  strategy_id = "trend";
  base_asset = "BTC";
  venues = venue ∷ [];
  sar = false;
  position_size = some (100 * money_unit);
  entry = market;
}

abbrev pub paper_route : StrategyRoute
paper_route = record route { position_size = none }

abbrev pub sar_route : StrategyRoute
sar_route = record route { sar = true }

abbrev pub buy_alert : Alert
buy_alert = record {
  id = 1;
  idempotency_key = "k1";
  strategy_id = "trend";
  action = buy;
  raw_payload = "";
  signal_price = none;
  received_at = 900;
  source_ip = "";
}

abbrev pub sell_alert : Alert
sell_alert = record buy_alert { id = 2; idempotency_key = "k2"; action = sell }

-- A limit entry of two steps that rests at the venue.
abbrev pub resting : Order
resting = record (new_order 1 venue buy (2 * step) none limit (some price) "client" 900) {
  id = 1;
  attempts = 1;
  status = Status.working;
}

abbrev pub failing : Order
failing = record (new_order 1 venue buy (2 * step) none market none "" 900) { id = 1; attempts = 4 }

abbrev pub empty_db : Db
empty_db = record {
  alerts = buy_alert ∷ [];
  orders = [];
  positions = [];
  strategy_positions = [];
  risk_settings = some default_risk;
  funding_events = [];
  arb_positions = [];
  arb_legs = [];
  arb_orders = [];
  arb_funding_events = [];
}

abbrev pub empty_session : Session
empty_session = record { current = empty_db; commits = []; sent = []; notices = [] }

abbrev pub in_db : Db → Session
in_db d = record empty_session { current = d }

abbrev pub resting_db : Db
resting_db = record empty_db { orders = resting ∷ [] }

abbrev pub halted_risk : RiskSettings
halted_risk = record default_risk { kill_switch = true }

abbrev pub halted_db : Db
halted_db = record resting_db { risk_settings = some halted_risk }

-- Long two steps from $40,000.
abbrev pub long_row : StrategyPosition
long_row = record {
  net_qty_base = pos (2 * step);
  net_qty_usd = pos 0;
  last_price = price;
  avg_entry_price = 40000 * price_unit;
  realized_pnl = pos 0;
  updated_at = 900;
}

abbrev pub long_position : Position
long_position = record {
  net_qty_base = pos (2 * step);
  net_qty_usd = pos 0;
  last_price = price;
  updated_at = 900;
}

abbrev pub long_db : Db
long_db = record empty_db {
  positions = (("bybit", "BTCUSDT"), long_position) ∷ [];
  strategy_positions = (("trend", ("bybit", "BTCUSDT")), long_row) ∷ [];
}
