-- ===== src/Models.antt =====
-- The rows of the directional database (app/models.py) and the values that the exchange adapters
-- return (app/schemas.py), with the number conventions of the whole library.
--
-- Floats are integers on a fixed grid: a base quantity counts units of 1e-12, a price counts units
-- of 1e-8, and an amount of money (notional, fee, profit, funding) counts units of 1e-20, so that
-- quantity times price is an amount with no rounding. Instants and durations count seconds.
use mochi_position_manager.Prelude.{ℕ, ◌*◌, ◌^◌, String, Bool, true, false, Option, ◌==◌}
use mochi_position_manager.Prelude.Int.{ℤ, pos, sub_ℕ}

-- `Side` of app/exchanges/base.py and `Action` of app/schemas.py.
pub data Side : Type 0 where
  buy sell : Side

abbrev pub same_side : Side → Side → Bool
same_side buy buy = true
same_side buy sell = false
same_side sell buy = false
same_side sell sell = true

abbrev pub opposite : Side → Side
opposite buy = sell
opposite sell = buy

-- A quantity with the sign of its side: long positive, short negative.
abbrev pub signed_qty : Side → ℕ → ℤ
signed_qty buy q = pos q
signed_qty sell q = sub_ℕ 0 q

-- `Order.order_type`, and the entry mode of a strategy.
pub data OrderType : Type 0 where
  market limit : OrderType

abbrev pub is_limit : OrderType → Bool
is_limit market = false
is_limit limit = true

-- `Order.status`.
pub data Status : Type 0 where
  pending working success retrying dead rejected cancelled : Status

abbrev pub is_working : Status → Bool
is_working Status.working = true
is_working _ = false

abbrev pub is_retrying : Status → Bool
is_retrying Status.retrying = true
is_retrying _ = false

abbrev pub is_success : Status → Bool
is_success Status.success = true
is_success _ = false

-- `ORDER_STATE_*`: the state of a resting order as a venue reports it.
pub data OrderState : Type 0 where
  working partially_filled filled cancelled rejected unknown : OrderState

abbrev pub is_unknown : OrderState → Bool
is_unknown OrderState.unknown = true
is_unknown _ = false

-- `Order.fee_source`; `undeclared` is the empty text.
pub data FeeSource : Type 0 where
  exchange unavailable dry_run undeclared : FeeSource

-- Why the portfolio manager refuses an order, or trades on paper: `Sizing.reason`.
pub data Reason : Type 0 where
  no_reason kill_switch_on step_unavailable paper_mode price_unavailable : Reason
  cap_exceeded : (notional max_notional : ℕ) → Reason
  double_down : (net : ℤ) (action : Side) → Reason
  below_one_step : (position_size step price : ℕ) → Reason
  below_minimum : (position_size min_notional qty price : ℕ) → Reason

-- `Order.error_message`: empty, a venue's text, or a reason of the portfolio manager.
pub data Message : Type 0 where
  empty : Message
  text : String → Message
  reason : Reason → Message

pub record OrderResult : Type 0 where
  pub success : Bool
  pub exchange_order_id : String
  pub filled_qty_base : ℕ
  pub avg_price : ℕ
  pub commission : ℤ
  pub commission_asset : String
  pub fee_source : FeeSource
  pub error_message : String

-- Cumulative values of a resting order so far.
pub record OrderSnapshot : Type 0 where
  pub state : OrderState
  pub filled_qty_base : ℕ
  pub avg_price : ℕ
  pub commission : ℤ
  pub commission_asset : String

pub record Alert : Type 0 where
  pub id : ℕ
  pub idempotency_key : String
  pub strategy_id : String
  pub action : Side
  pub raw_payload : String
  pub signal_price : Option ℕ
  pub received_at : ℕ
  pub source_ip : String

pub record Order : Type 0 where
  pub id : ℕ
  pub alert_id : ℕ
  pub exchange : String
  pub symbol : String
  pub side : Side
  pub qty_usd : ℕ
  pub qty_base : ℕ
  pub reduce_only : Bool
  pub leverage : ℕ
  pub order_type : OrderType
  pub limit_price : Option ℕ
  pub qty_base_filled : ℕ
  pub client_order_id : String
  pub last_stale_alert_at : Option ℕ
  pub signal_price : Option ℕ
  pub fill_price : Option ℕ
  pub commission : ℤ
  pub commission_asset : String
  pub fee_source : FeeSource
  pub realized_pnl : ℤ
  pub status : Status
  pub attempts : ℕ
  pub exchange_order_id : String
  pub error_message : Message
  pub next_retry_at : Option ℕ
  pub created_at : ℕ
  pub updated_at : ℕ

-- Net position of one (exchange, symbol).
pub record Position : Type 0 where
  pub net_qty_base : ℤ
  pub net_qty_usd : ℤ
  pub last_price : ℕ
  pub updated_at : ℕ

-- Net position of one (strategy, exchange, symbol), with its average entry and booked profit.
pub record StrategyPosition : Type 0 where
  pub net_qty_base : ℤ
  pub net_qty_usd : ℤ
  pub last_price : ℕ
  pub avg_entry_price : ℕ
  pub realized_pnl : ℤ
  pub updated_at : ℕ

pub record RiskSettings : Type 0 where
  pub per_order_max_notional : ℕ
  pub kill_switch : Bool

-- One unit of base quantity, of price and of money on the grids.
abbrev pub base_unit : ℕ
base_unit = 10 ^ 12

abbrev pub price_unit : ℕ
price_unit = 10 ^ 8

abbrev pub money_unit : ℕ
money_unit = 10 ^ 20

-- `_FLAT_EPS` and `_POSITION_EPS`: 1e-9.
abbrev pub flat_eps : ℕ
flat_eps = 1000

-- The row's column defaults: cap $500, kill switch off.
abbrev pub default_risk : RiskSettings
default_risk = record { per_order_max_notional = 500 * money_unit; kill_switch = false }

-- Python's `x or y` on an optional number, where zero is false too.
abbrev pub or_number : Option ℕ → ℕ → ℕ
or_number Option.none d = d
or_number (Option.some n) d = elim (n == 0) [ true ↦ d | false ↦ n ]

-- Python's `x or None`.
abbrev pub or_none : ℕ → Option ℕ
or_none n = elim (n == 0) [ true ↦ Option.none | false ↦ Option.some n ]
