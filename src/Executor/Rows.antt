-- ===== src/Executor/Rows.antt =====
-- The rows of orders (app/executor.py): a new one, a changed one, and a signal that is rejected.
use mochi_position_manager.Prelude.{
  ℕ, ◌+◌, ◌-◌, ◌*◌, ◌^◌, min, String, false, Option, none, List, [], ◌∷◌, ◌++◌, length, ◌==◌,
  if◌then◌else◌,
}
use mochi_position_manager.Prelude.Int.{pos}
use mochi_position_manager.Models.{
  Side, OrderType, market, Status, FeeSource, Message, Reason, Alert, Order,
}
use mochi_position_manager.Session.{Action, ◌>>◌, pure, modify}
use mochi_position_manager.Config.{Settings, Env}
use mochi_position_manager.Routing.{VenueRoute}

-- `DEFAULT_LEVERAGE`.
abbrev pub default_leverage : ℕ
default_leverage = 2

-- `_next_retry_delay`. Subtraction stops at zero, as the source's `max` does.
unfoldable pub next_retry_delay : Settings → (attempts : ℕ) → ℕ
next_retry_delay s attempts =
    min (s.retry_base_delay_sec * 3 ^ (attempts - 1)) s.retry_max_delay_sec

-- `_new_order`; the id is given when the row is added.
unfoldable pub new_order :
    (alert_id : ℕ) (venue : VenueRoute) (side : Side) (quantity : ℕ) (signal_price : Option ℕ)
    (order_type : OrderType) (limit_price : Option ℕ) (client_order_id : String) (now : ℕ)
    → Order
new_order alert_id venue side quantity signal_price order_type limit_price client_order_id now =
    record {
      id = 0;
      alert_id = alert_id;
      exchange = venue.exchange;
      symbol = venue.symbol;
      side = side;
      qty_usd = 0;
      qty_base = quantity;
      reduce_only = false;
      leverage = default_leverage;
      order_type = order_type;
      limit_price = limit_price;
      qty_base_filled = 0;
      client_order_id = client_order_id;
      last_stale_alert_at = none;
      signal_price = signal_price;
      fill_price = none;
      commission = pos 0;
      commission_asset = "";
      fee_source = FeeSource.undeclared;
      realized_pnl = pos 0;
      status = Status.pending;
      attempts = 0;
      exchange_order_id = "";
      error_message = Message.empty;
      next_retry_at = none;
      created_at = now;
      updated_at = now;
    }

-- `db.add` of an order: the row gets the next id.
abbrev pub add_order : Order → Action Order
add_order o s =
    let row = record o { id = length s.current.orders + 1 } in
    (modify (λ d. record d { orders = d.orders ++ row ∷ [] }) >> pure row) s

-- The rows after a change to an order that is in the table.
unfoldable pub replaced : Order → List Order → List Order
replaced o [] = []
replaced o (x ∷ xs) = if x.id == o.id then o ∷ replaced o xs else x ∷ replaced o xs

abbrev pub save_order : Order → Action (Unit {0})
save_order o = modify (λ d. record d { orders = replaced o d.orders })

-- `record_rejected_order`.
unfoldable pub record_rejected_order : Env → Alert → VenueRoute → Side → Reason → Action Order
record_rejected_order env alert venue side why =
    let o = new_order alert.id venue side 0 alert.signal_price market none "" env.now in
    add_order (record o { status = Status.rejected; error_message = Message.reason why })
