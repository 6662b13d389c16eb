-- ===== src/Bybit/Fills.antt =====
-- The real fill of an order from its executions (app/exchanges/bybit.py, _fill_details).
use mochi_position_manager.Prelude.{
  ℕ, zero, suc, ◌+◌, ◌*◌, ◌/◌, String, Bool, ◌&&◌, Option, none, some, List, [], ◌∷◌, ltb, leb,
  ◌==◌, if◌then◌else◌,
}
use mochi_position_manager.Prelude.Int.{ℤ, pos, ◌+ℤ◌}
use mochi_position_manager.Prelude.Table.{or_text}
use mochi_position_manager.Session.{value_or}
use mochi_position_manager.Bybit.{Category, Execution, BybitExchange, dust}

-- A fill: the average price, cut to the price grid, the fee with its currency, and the quantity.
pub record Fill : Type 0 where
  pub price : ℕ
  pub fee : ℤ
  pub currency : String
  pub qty : ℕ

unfoldable pub total_qty : List Execution → ℕ
total_qty [] = 0
total_qty (r ∷ rows) = r.exec_qty + total_qty rows

unfoldable pub total_notional : List Execution → ℕ
total_notional [] = 0
total_notional (r ∷ rows) = r.exec_price * r.exec_qty + total_notional rows

unfoldable pub total_fee : List Execution → ℤ
total_fee [] = pos 0
total_fee (r ∷ rows) = r.exec_fee +ℤ total_fee rows

-- The first fee currency that is named.
unfoldable pub first_currency : List Execution → String
first_currency [] = ""
first_currency (r ∷ rows) = or_text r.fee_currency (first_currency rows)

abbrev pub fill_of : List Execution → Fill
fill_of rows = record {
  price = total_notional rows / total_qty rows;
  fee = total_fee rows;
  currency = or_text (first_currency rows) "USDT";
  qty = total_qty rows;
}

-- The best fill after a poll.
abbrev pub better : List Execution → Option Fill → Option Fill
better rows best = if total_qty rows == 0 then best else some (fill_of rows)

abbrev pub is_full : (want_qty tot : ℕ) → Bool
is_full want_qty tot = ltb 0 tot && leb want_qty (tot + dust)

-- `FILL_POLL_ATTEMPTS`.
abbrev pub fill_poll_attempts : ℕ
fill_poll_attempts = 10

-- A number of polls from a given one; it stops early at the full fill.
unfoldable pub fill_loop :
    BybitExchange
    → Category
    → (symbol order_id : String) (want_qty polls poll : ℕ) → Option Fill
    → Option Fill
fill_loop ex category symbol order_id want_qty zero poll best = best
fill_loop ex category symbol order_id want_qty (suc polls) poll best =
    let rows = value_or (ex.client.executions poll category symbol order_id) [] in
    let rest = fill_loop ex category symbol order_id want_qty polls (suc poll) (better rows best) in
    if is_full want_qty (total_qty rows) then some (fill_of rows) else rest

-- `_fill_details`.
abbrev pub fill_details :
    BybitExchange → Category → (symbol order_id : String) (want_qty : ℕ) → Option Fill
fill_details ex category symbol order_id want_qty =
    fill_loop ex category symbol order_id want_qty fill_poll_attempts 0 none
