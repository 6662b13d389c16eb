-- ===== src/Bybit.antt =====
-- The adapter of Bybit (app/exchanges/bybit.py). The SDK's client is a parameter: its answers are
-- rows whose numbers are read on the library's grids, `none` where a field is missing or empty.
-- This file has the instruments with their grids and the prices; the children have the rest.
pub mod Rounding
pub mod Fills
pub mod Answers
pub mod Status
pub mod Orders
pub mod Positions
pub mod History
pub mod Venue
use mochi_position_manager.Prelude.{
  ℕ, ◌+◌, ◌*◌, ◌/◌, ◌^◌, String, Bool, Option, none, some, List, [], ◌∷◌, ltb, ◌==◌, if◌then◌else◌,
}
use mochi_position_manager.Prelude.Int.{ℤ}
use mochi_position_manager.Models.{Side, base_unit, money_unit, price_unit, or_number}
use mochi_position_manager.Session.{Result, ok, raised, value_or}
use mochi_position_manager.Symbols.{canonical_step_size, base_asset_of}
use mochi_position_manager.ArbExecutor.Sizing.{asked}

-- `CATEGORY` and `SPOT_CATEGORY`.
pub data Category : Type 0 where
  linear spot : Category

pub record Instrument : Type 0 where
  pub qty_step : Option ℕ
  pub min_order_qty : Option ℕ
  pub min_notional_value : Option ℕ
  pub tick_size : Option ℕ
  pub base_precision : Option ℕ
  pub min_order_amt : Option ℕ

pub record Execution : Type 0 where
  pub exec_qty : ℕ
  pub exec_price : ℕ
  pub exec_fee : ℤ
  pub fee_currency : String

-- What `place_order` is called with.
pub record Placement : Type 0 where
  pub category : Category
  pub symbol : String
  pub side : Side
  pub qty : ℕ
  pub price : Option ℕ
  pub order_link_id : String
  pub reduce_only : Bool

pub record Answer : Type 0 where
  pub ret_code : ℕ
  pub ret_msg : String
  pub order_id : String

pub record OrderRow : Type 0 where
  pub order_status : String
  pub cum_exec_qty : ℕ
  pub avg_price : ℕ
  pub cum_exec_fee : ℤ

pub record PositionRow : Type 0 where
  pub size : ℕ
  pub side : Side
  pub mark_price : ℕ
  pub avg_price : ℕ
  pub unrealised_pnl : Option ℤ

-- A row of the history: a time, zero if there is none, and an amount.
pub record HistoryRow : Type 0 where
  pub time_ms : ℕ
  pub amount : ℤ

pub record Page : Type 0 where
  pub rows : List HistoryRow
  pub next_cursor : String

-- The SDK's client. Executions may differ from one poll to the next, so they are asked by the
-- number of the poll; `balances` are the coins with their free balances.
pub record Client : Type 0 where
  pub instruments : Category → (symbol : String) → Result (List Instrument)
  pub tickers : Category → (symbol : String) → Result (List ℕ)
  pub executions : (poll : ℕ) → Category → (symbol order_id : String) → Result (List Execution)
  pub set_leverage : (symbol : String) (leverage : ℕ) → Result (Unit {0})
  pub place_order : Placement → Result Answer
  pub cancel_order : (symbol order_id : String) → Result Answer
  pub open_orders : (symbol order_id : String) → Result (List OrderRow)
  pub order_history : (symbol order_id : String) → Result (List OrderRow)
  pub positions : (symbol : String) → Result (List PositionRow)
  pub settlements : (symbol : String) (start_ms end_ms : ℕ) → Result (List HistoryRow)
  pub closed_pnl : (start_ms end_ms : ℕ) (cursor : String) → Result Page
  pub account_settlements : (start_ms end_ms : ℕ) (cursor : String) → Result Page
  -- The closes of the candles, the newest first.
  pub klines : (symbol : String) (start_ms end_ms : ℕ) → Result (List ℕ)
  pub balances : (base_asset : String) → Result (List (String × ℕ))

pub record BybitExchange : Type 0 where
  pub client : Client
  pub dry_run : Bool
  pub lower : String → String
  pub upper : String → String

abbrev pub first_or : {A : Type 0} → (missing : String) → List A → Result A
first_or missing [] = raised missing
first_or missing (x ∷ xs) = ok x

-- `_instrument`. An instrument is the same whenever it is asked, so the cache is not seen.
unfoldable pub instrument : BybitExchange → Category → (symbol : String) → Result Instrument
instrument ex category symbol =
    asked (ex.client.instruments category symbol) λ items. first_or "instrument not found" items

-- `_mark_price` and `_spot_mark_price`.
unfoldable pub mark_price : BybitExchange → Category → (symbol : String) → Result ℕ
mark_price ex category symbol =
    asked (ex.client.tickers category symbol) λ items. first_or "ticker not found" items

-- A quantity of 1e-9 on the grid of quantities.
abbrev pub dust : ℕ
dust = 1000

abbrev pub or_else : Option ℕ → ℕ → ℕ
or_else none d = d
or_else (some n) d = n

-- Decimal division by a step: the whole steps, with 1e-9 of a step against dust.
abbrev pub units_of : (qty step : ℕ) → ℕ
units_of qty step = (qty * 10 ^ 9 + step) / (step * 10 ^ 9)

abbrev pub checked : (q min_qty : ℕ) → Result ℕ
checked q min_qty = if ltb q min_qty then raised "quantity below minOrderQty" else ok q

-- A step of zero is a division by zero.
abbrev pub snapped : (units : ℕ → ℕ) (step min_qty : ℕ) → Result ℕ
snapped units step min_qty =
    if step == 0 then raised "DivisionByZero" else checked (units step * step) min_qty

-- `_round_qty`: down to the grid, with the dust.
unfoldable pub round_qty : BybitExchange → (symbol : String) (qty : ℕ) → Result ℕ
round_qty ex symbol qty =
    asked (instrument ex linear symbol) λ i.
      snapped (units_of qty) (or_else i.qty_step (base_unit / 1000)) (or_else i.min_order_qty 0)

-- `_spot_round_qty`: down to the spot grid.
unfoldable pub spot_round_qty : BybitExchange → (symbol : String) (qty : ℕ) → Result ℕ
spot_round_qty ex symbol qty = asked (instrument ex spot symbol) λ i.
    snapped (λ step. qty / step) (or_else i.base_precision (base_unit / 1000000))
      (or_else i.min_order_qty 0)

-- `_round_price`: to the nearest tick, halves up.
abbrev pub nearest : (price tick : ℕ) → Result ℕ
nearest price tick =
    if tick == 0 then raised "DivisionByZero" else ok ((2 * price + tick) / (2 * tick) * tick)

unfoldable pub round_price : BybitExchange → (symbol : String) (price : ℕ) → Result ℕ
round_price ex symbol price =
    asked (instrument ex linear symbol) λ i. nearest price (or_else i.tick_size (price_unit / 100))

-- `get_price`: zero if the venue does not answer.
abbrev pub get_price : BybitExchange → (symbol : String) → ℕ
get_price ex symbol = value_or (mark_price ex linear symbol) 0

abbrev pub canonical : BybitExchange → (symbol : String) → ℕ
canonical ex symbol =
    canonical_step_size ex.lower ex.upper (base_asset_of ex.lower ex.upper "bybit" symbol)

-- A field of the instrument, or a fallback if it is missing or the venue does not answer.
abbrev pub field_or : (Instrument → Option ℕ) → (fallback : ℕ) → Result Instrument → ℕ
field_or field fallback (ok i) = or_number (field i) fallback
field_or field fallback (raised e) = fallback

unfoldable pub get_step_size : BybitExchange → (symbol : String) → ℕ
get_step_size ex symbol =
    field_or (λ i. i.qty_step) (canonical ex symbol) (instrument ex linear symbol)

unfoldable pub get_min_notional : BybitExchange → (symbol : String) → ℕ
get_min_notional ex symbol =
    field_or (λ i. i.min_notional_value) (5 * money_unit) (instrument ex linear symbol)

unfoldable pub get_spot_step_size : BybitExchange → (symbol : String) → ℕ
get_spot_step_size ex symbol =
    field_or (λ i. i.base_precision) (canonical ex symbol) (instrument ex spot symbol)

unfoldable pub get_spot_min_notional : BybitExchange → (symbol : String) → ℕ
get_spot_min_notional ex symbol =
    field_or (λ i. i.min_order_amt) (5 * money_unit) (instrument ex spot symbol)
