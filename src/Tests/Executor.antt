-- ===== src/Tests/Executor.antt =====
-- The fill arithmetic, the ledgers and the life of an order on concrete input.
use mochi_position_manager.Prelude.{ℕ, ◌*◌, ◌≡◌, ◌≢◌, refl, inr, [], ◌∷◌, arith, String}
use mochi_position_manager.Prelude.Int.{pos, negsuc, ◌+ℤ◌, ◌*ℤ◌}
use mochi_position_manager.Prelude.Table.{lookup, string_key, pair_key}
use mochi_position_manager.Prelude.Totals.{total}
use mochi_position_manager.Models.{buy, sell, market, signed_qty, price_unit, Order}
use mochi_position_manager.Session.{Db, Session, ok}
use mochi_position_manager.Exchange.{Adapter}
use mochi_position_manager.Config.{Env, default_settings}
use mochi_position_manager.Executor.Orders.Exhaustion.{Stands, retries, retries-Stands}
use mochi_position_manager.Executor.Fills.{fill_math, closing_profit}
use mochi_position_manager.Executor.Fills.Equity.{Conserves, fill_math-Conserves}
use mochi_position_manager.Executor.Ledger.Agreement.{Agrees}
use mochi_position_manager.Executor.Orders.{settle}
use mochi_position_manager.Executor.Rows.{new_order, next_retry_delay, replaced}
use mochi_position_manager.Executor.Partial.{book_limit_fill_delta, booked_columns}
use mochi_position_manager.Executor.Orders.Ladder.{Ends, settle-Ends}
use mochi_position_manager.Executor.Partial.Booking.{
  Books, book_limit_fill_delta-Books, book_limit_fill_delta_crash_loses_fill,
}
use mochi_position_manager.Tests.Data.{
  adapter, venue, price, step, half_filled, refusal, env, buy_alert, resting, failing, resting_db,
  in_db, empty_db,
}

-- Long 20000, sold 30000: the position turns, at the price of the fill, and 20000 realize the gain.
test_reversal : fill_math (pos 20000) 10 (negsuc 29999) 30000 15 ≡ (negsuc 9999, 15, pos 100000)
unfolding fill_math closing_profit ◌+ℤ◌ ◌*ℤ◌
test_reversal = refl

-- 2, 6, 18, 54, then the maximum.
test_delays :
    next_retry_delay default_settings 3 ∷ next_retry_delay default_settings 5 ∷ [] ≡ 18 ∷ 60 ∷ []
unfolding next_retry_delay
test_delays = refl

fill_math-Conserves_example :
    Conserves
      (pos (2 * step))
      (40000 * price_unit)
      (signed_qty sell (3 * step))
      (3 * step)
      price
      price
unfolding ◌+ℤ◌
fill_math-Conserves_example =
    fill_math-Conserves (pos (2 * step)) (40000 * price_unit) sell (3 * step) price price
      (inr (omega arith)) (omega arith) (inr (omega arith))

empty_db-Agrees : Agrees empty_db
unfolding total lookup
empty_db-Agrees place = refl

abbrev bybit_btc : String × String
bybit_btc = ("bybit", "BTCUSDT")

abbrev hyperliquid_btc : String × String
hyperliquid_btc = ("hyperliquid", "BTC")

abbrev trend_btc : String × (String × String)
trend_btc = ("trend", bybit_btc)

abbrev scalp_btc : String × (String × String)
scalp_btc = ("scalp", bybit_btc)

other_venue : bybit_btc ≢ hyperliquid_btc
other_venue e = cc ((pair_key.same_iff bybit_btc hyperliquid_btc).1 e)

other_key : trend_btc ≢ scalp_btc
other_key e = cc ((pair_key.same_iff trend_btc scalp_btc).1 e)

settle-Ends_example :
    (o : Order) × ((settle env failing buy_alert venue buy refusal (in_db resting_db)).0 ≡ ok o)
    × ((settle env failing buy_alert venue buy refusal (in_db resting_db)).1.current.orders
        ≡ replaced o resting_db.orders)
    × Ends env failing refusal o
settle-Ends_example = settle-Ends env failing buy_alert venue buy refusal (in_db resting_db)

book_limit_fill_delta-Books_example :
    (order' : Order) × (newly : ℕ) × (s' : Session) × (book_limit_fill_delta 1000 resting "trend"
        half_filled
        (in_db resting_db)
      ≡ (ok (order', newly), s'))
    × Books "trend" resting half_filled (in_db resting_db) order' newly s'
book_limit_fill_delta-Books_example =
    book_limit_fill_delta-Books 1000 resting "trend" half_filled (in_db resting_db)

book_limit_fill_delta_crash_loses_fill_example :
    (d₁ d₂ : Db) × ((book_limit_fill_delta 1000 resting "trend" half_filled
        (in_db resting_db)).1.commits
      ≡ d₂ ∷ d₁ ∷ [])
    × (d₁.positions ≡ [])
    × (d₁.strategy_positions ≡ [])
    × (d₁.orders ≡ replaced (booked_columns resting half_filled) resting_db.orders)
    × (book_limit_fill_delta 1000
          (booked_columns resting half_filled)
          "trend"
          half_filled
          (record (in_db resting_db) { current = d₁; commits = d₁ ∷ [] })
        ≡ (
          ok (booked_columns resting half_filled, 0),
          record (in_db resting_db) { current = d₁; commits = d₁ ∷ [] },
        ))
unfolding new_order
book_limit_fill_delta_crash_loses_fill_example =
    book_limit_fill_delta_crash_loses_fill 1000 resting "trend" half_filled (in_db resting_db)
      (omega arith)

-- A venue that refuses every order.
abbrev refusing : Adapter
refusing = record adapter { market_order = λ symbol side quantity leverage. ok refusal }

abbrev refusing_env : Env
refusing_env = record env { registry = λ name account. ok refusing }

abbrev first_try : Order
first_try = record failing { attempts = 0 }

first_kind : first_try.order_type ≡ market
unfolding new_order
first_kind = refl

retries-Stands_example :
    Stands refusing_env 4 (retries refusing_env buy_alert venue 4 first_try (in_db empty_db)).0
retries-Stands_example =
    retries-Stands refusing_env buy_alert venue refusing refusal refl refl 3 first_try
      (in_db empty_db) first_kind refl (omega arith)
