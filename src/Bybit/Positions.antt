-- ===== src/Bybit/Positions.antt =====
-- What Bybit holds for the account (app/exchanges/bybit.py): positions, spot balances and settlements.
use text.Mathlib.Text.{◌==◌ as str_eq}
use mochi_position_manager.Prelude.{
  ℕ, ◌+◌, ◌*◌, ◌/◌, String, some, List, [], ◌∷◌, ◌||◌, ◌==◌, if◌then◌else◌,
}
use mochi_position_manager.Prelude.Int.{ℤ, pos}
use mochi_position_manager.Models.{signed_qty, or_number}
use mochi_position_manager.Session.{Result, ok, value_or}
use mochi_position_manager.Exchange.{Payment, PositionDetail}
use mochi_position_manager.ArbExecutor.Sizing.{asked}
use mochi_position_manager.Bybit.{PositionRow, HistoryRow, BybitExchange}
use mochi_position_manager.Bybit.Orders.{is_zero}

abbrev pub no_detail : PositionDetail
no_detail = record { qty = pos 0; mark = 0; entry = 0; unrealized = some (pos 0) }

-- The first row that is not empty.
unfoldable pub detail_of : List PositionRow → PositionDetail
detail_of [] = no_detail
detail_of (p ∷ ps) = if p.size == 0 then detail_of ps else record {
  qty = signed_qty p.side p.size;
  mark = or_number (some p.mark_price) p.avg_price;
  entry = p.avg_price;
  unrealized = p.unrealised_pnl;
}

unfoldable pub get_position_detail : BybitExchange → (symbol : String) → Result PositionDetail
get_position_detail ex symbol = asked (ex.client.positions symbol) λ rows. ok (detail_of rows)

abbrev pub get_position : BybitExchange → (symbol : String) → Result (ℤ × ℕ)
get_position ex symbol = asked (get_position_detail ex symbol) λ p. ok (p.qty, p.mark)

-- `_settlement_row` over the rows: a row without a time or an amount is left out.
unfoldable pub settlement_rows : List HistoryRow → List (ℕ × ℤ)
settlement_rows [] = []
settlement_rows (r ∷ rows) =
    if r.time_ms == 0 || is_zero r.amount
    then settlement_rows rows
    else (r.time_ms, r.amount) ∷ settlement_rows rows

unfoldable pub payments_of : List (ℕ × ℤ) → List Payment
payments_of [] = []
payments_of ((time, amount) ∷ rows) = record { time = time; amount = amount } ∷ payments_of rows

-- `get_funding`: nothing if the venue does not answer.
unfoldable pub get_funding : BybitExchange → (symbol : String) (start_ms end_ms : ℕ) → List Payment
get_funding ex symbol start_ms end_ms =
    payments_of (settlement_rows (value_or (ex.client.settlements symbol start_ms end_ms) []))

-- The free balance of a coin.
unfoldable pub balance_of : (upper : String → String) (base_asset : String) → List (String × ℕ) → ℕ
balance_of upper base_asset [] = 0
balance_of upper base_asset ((coin, free) ∷ rows) =
    if str_eq (upper coin) (upper base_asset) then free else balance_of upper base_asset rows

unfoldable pub get_spot_balance : BybitExchange → (base_asset : String) → ℕ
get_spot_balance ex base_asset =
    balance_of ex.upper base_asset (value_or (ex.client.balances base_asset) [])

abbrev pub first_close : List ℕ → ℕ
first_close [] = 0
first_close (close ∷ rows) = close

-- The close of the minute that holds a time, zero if there is none.
unfoldable pub get_kline_close : BybitExchange → (symbol : String) (ts_ms : ℕ) → ℕ
get_kline_close ex symbol ts_ms =
    let start = ts_ms / 60000 * 60000 in
    first_close (value_or (ex.client.klines symbol start (start + 59999)) [])
