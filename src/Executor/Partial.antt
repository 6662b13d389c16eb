-- ===== src/Executor/Partial.antt =====
-- Booking the cumulative fill of a resting order (`book_limit_fill_delta` of app/executor.py).
pub mod Booking
use mochi_position_manager.Prelude.{ℕ, ◌+◌, ◌-◌, String, some, leb, ◌==◌, if◌then◌else◌}
use mochi_position_manager.Prelude.Int.{ℤ, ◌+ℤ◌}
use mochi_position_manager.Prelude.Table.{or_text}
use mochi_position_manager.Models.{OrderSnapshot, Order, flat_eps, or_number}
use mochi_position_manager.Session.{Action, ◌>>=◌, ◌>>◌, pure}
use mochi_position_manager.Executor.Ledger.{apply_fill_to_position}
use mochi_position_manager.Executor.Rows.{save_order}

-- The order's columns after a new portion of its cumulative fill.
abbrev pub booked_columns : Order → OrderSnapshot → Order
booked_columns order st = record order {
  qty_base_filled = st.filled_qty_base;
  fill_price = (if st.avg_price == 0 then order.fill_price else some st.avg_price);
  commission = st.commission;
  commission_asset = or_text st.commission_asset order.commission_asset;
}

-- The price at which a new portion is booked: the snapshot's average, else the limit price.
abbrev pub book_price : Order → OrderSnapshot → ℕ
book_price order st = if st.avg_price == 0 then or_number order.limit_price 0 else st.avg_price

-- `book_limit_fill_delta`: the changed order, and the quantity that was booked.
unfoldable pub book_limit_fill_delta :
    (now : ℕ) → Order → (strategy_id : String) → OrderSnapshot → Action (Order × ℕ)
book_limit_fill_delta now order strategy_id st =
    let newly = st.filled_qty_base - order.qty_base_filled in
    if leb newly flat_eps then pure (order, 0) else (do
      let booked = booked_columns order st
      save_order booked
      realized ←
          apply_fill_to_position strategy_id order.exchange order.symbol order.side newly
            (book_price order st) now
      let final = record booked { realized_pnl = order.realized_pnl +ℤ realized }
      save_order final
      pure (final, newly))
