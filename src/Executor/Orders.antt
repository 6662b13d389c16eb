-- ===== src/Executor/Orders.antt =====
-- The life of an order (app/executor.py): placing it, booking its market fill, and the retry ladder.
pub mod Ladder
pub mod Exhaustion
use mochi_position_manager.Prelude.{
  ℕ, ◌+◌, ◌*◌, String, true, false, ◌&&◌, Option, none, some, ltb, leb, ◌==◌, if◌then◌else◌,
}
use mochi_position_manager.Models.{
  Side, OrderType, is_limit, Status, FeeSource, Message, OrderResult, Alert, Order, or_number,
  or_none,
}
use mochi_position_manager.Session.{Sent, Notice, Action, ◌>>=◌, ◌>>◌, pure, lift, notify, send}
use mochi_position_manager.Config.{Env}
use mochi_position_manager.Routing.{VenueRoute}
use mochi_position_manager.Executor.Ledger.{apply_fill_to_position}
use mochi_position_manager.Executor.Rows.{
  default_leverage, next_retry_delay, new_order, add_order, save_order,
}

-- `_call_exchange`.
unfoldable pub call_exchange : Env → VenueRoute → Side → (quantity : ℕ) → Action OrderResult
call_exchange env venue side quantity = do
  ex ← lift (env.registry venue.exchange "default")
  send (Sent.market_order venue.exchange venue.symbol side quantity)
  lift (ex.market_order venue.symbol side quantity default_leverage)

-- `_call_exchange_limit`.
unfoldable pub call_exchange_limit :
    Env → VenueRoute → Side → (quantity price : ℕ) (client_order_id : String) → Action OrderResult
call_exchange_limit env venue side quantity price client_order_id = do
  ex ← lift (env.registry venue.exchange "default")
  send (Sent.limit_order venue.exchange venue.symbol side quantity price client_order_id)
  lift (ex.limit_order venue.symbol side quantity price client_order_id default_leverage)

abbrev pub rested : Order → OrderResult → Order
rested order result = record order {
  status = Status.working;
  exchange_order_id = result.exchange_order_id;
  qty_usd = order.qty_base * or_number order.limit_price 0;
  error_message = Message.empty;
  next_retry_at = none;
}

-- `_on_limit_placed`: the order rests, and the ledger is not touched.
unfoldable pub on_limit_placed : Order → Alert → OrderResult → Action Order
on_limit_placed order alert result =
    let placed = rested order result in
    (do
      save_order placed
      notify (
          Notice.limit_order_placed alert.strategy_id order.exchange order.symbol order.side
            order.qty_base (or_number order.limit_price 0))
      pure placed)

-- A venue that declared no fee source has not confirmed the fee.
abbrev pub confirmed_source : FeeSource → FeeSource
confirmed_source FeeSource.undeclared = FeeSource.unavailable
confirmed_source source = source

-- `result.filled_qty_base or order.qty_base`.
abbrev pub filled_or : (filled ordered : ℕ) → ℕ
filled_or filled ordered = elim (filled == 0) [ true ↦ ordered | false ↦ filled ]

abbrev pub succeeded : Order → OrderResult → Order
succeeded order result =
    let filled_qty = filled_or result.filled_qty_base order.qty_base in
    record order {
      status = Status.success;
      exchange_order_id = result.exchange_order_id;
      qty_base = filled_qty;
      qty_usd = filled_qty * result.avg_price;
      fill_price = or_none result.avg_price;
      commission = result.commission;
      commission_asset = result.commission_asset;
      fee_source = confirmed_source result.fee_source;
      error_message = Message.empty;
      next_retry_at = none;
    }

-- `_on_success`: the order first, then the ledgers, then the profit that the fill booked.
unfoldable pub on_success : Env → Order → Alert → VenueRoute → Side → OrderResult → Action Order
on_success env order alert venue side result =
    let done = succeeded order result in
    (do
      save_order done
      booked ←
          (if ltb 0 result.avg_price && ltb 0 done.qty_base
            then (do
              realized ←
                  apply_fill_to_position alert.strategy_id venue.exchange venue.symbol side
                    done.qty_base result.avg_price env.now
              let final = record done { realized_pnl = realized }
              save_order final
              pure final)
            else pure done)
      notify (
          Notice.order_succeeded alert.strategy_id venue.exchange venue.symbol side done.qty_base
            result.avg_price booked.realized_pnl)
      pure booked)

abbrev pub dead_after : Order → OrderResult → Order
dead_after order result = record order {
  error_message = Message.text result.error_message;
  status = Status.dead;
  next_retry_at = none;
}

abbrev pub failed_after : Env → Order → OrderResult → Order
failed_after env order result = record order {
  error_message = Message.text result.error_message;
  status = Status.retrying;
  next_retry_at = some (env.now + next_retry_delay env.settings order.attempts);
}

-- `_on_failure`: dead at the last attempt, else retrying after the delay.
unfoldable pub on_failure : Env → Order → Alert → VenueRoute → Side → OrderResult → Action Order
on_failure env order alert venue side result =
    if leb env.settings.retry_max_attempts order.attempts
    then (do
      let dead = dead_after order result
      save_order dead
      notify (
          Notice.order_dead alert.strategy_id venue.exchange venue.symbol side order.qty_base
            order.attempts result.error_message)
      pure dead)
    else (do
      let failed = failed_after env order result
      save_order failed
      notify (
          Notice.order_failed alert.strategy_id venue.exchange venue.symbol side order.qty_base
            order.attempts result.error_message)
      pure failed)

-- The handling of a venue's answer, at the end of `execute_order`.
unfoldable pub settle : Env → Order → Alert → VenueRoute → Side → OrderResult → Action Order
settle env order alert venue side result =
    if result.success
    then (if is_limit order.order_type
        then on_limit_placed order alert result
        else on_success env order alert venue side result)
    else on_failure env order alert venue side result

-- The call of the venue: a retried order is placed as it was frozen.
unfoldable pub place : Env → VenueRoute → Side → (quantity : ℕ) → Order → Action OrderResult
place env venue side quantity order =
    if is_limit order.order_type
    then call_exchange_limit env venue side quantity (or_number order.limit_price 0)
        order.client_order_id
    else call_exchange env venue side quantity

abbrev pub attempted : Env → Order → Order
attempted env order = record order { attempts = order.attempts + 1; updated_at = env.now }

-- `execute_order` with an existing order: a retry.
unfoldable pub retry_order : Env → Alert → VenueRoute → (quantity : ℕ) → Order → Action Order
retry_order env alert venue quantity existing =
    let order = attempted env existing in
    (do
      save_order order
      result ← place env venue alert.action quantity order
      settle env order alert venue alert.action result)

-- `execute_order` with no existing order: the row is added after the call of the venue.
unfoldable pub execute_order :
    Env
    → Alert
    → VenueRoute
    → (quantity : ℕ) → OrderType
    → (limit_price : Option ℕ) → (client_order_id : String) → Action Order
execute_order env alert venue quantity order_type limit_price client_order_id =
    let fresh = attempted env (
      new_order alert.id venue alert.action quantity alert.signal_price order_type limit_price
        client_order_id env.now) in
    (do
      result ← place env venue alert.action quantity fresh
      order ← add_order fresh
      settle env order alert venue alert.action result)
