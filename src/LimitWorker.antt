-- ===== src/LimitWorker.antt =====
-- The fill poller of resting limit orders (app/limit_worker.py).
use mochi_position_manager.Prelude.{
  ℕ, ◌-◌, ◌*◌, ◌/◌, ◌||◌, Option, none, some, List, [], ◌∷◌, select, take, ltb, ◌==◌, if◌then◌else◌,
}
use mochi_position_manager.Models.{
  Status, is_working, is_unknown, OrderState, FeeSource, Alert, Order, OrderSnapshot, or_number,
}
use mochi_position_manager.Session.{
  Notice, Action, ◌>>=◌, ◌>>◌, pure, lift, attempt, notify, session_scope,
}
use mochi_position_manager.Config.{Env}
use mochi_position_manager.Executor.Rows.{save_order}
use mochi_position_manager.Executor.Partial.{book_limit_fill_delta}
use mochi_position_manager.Webhook.{alert_of, handle}

abbrev pub or_else : Option ℕ → ℕ → ℕ
or_else none d = d
or_else (some t) d = t

-- `_maybe_stale_alert`: the order after a reminder, or as it was. A subtraction below zero is a
-- negative age, which is under every window.
unfoldable pub maybe_stale_alert : Env → Alert → Order → Action Order
maybe_stale_alert env alert order =
    let hours = env.settings.limit_stale_alert_hours in
    let since = or_else order.last_stale_alert_at order.created_at in
    if (hours == 0) || ltb (env.now - since) (hours * 3600) then pure order else (do
      notify (
          Notice.limit_order_stale alert.strategy_id order.exchange order.symbol order.side
            (or_number order.limit_price 0) order.qty_base order.qty_base_filled
            ((env.now - order.created_at) / 3600))
      pure (record order { last_stale_alert_at = some env.now }))

-- The order at the end of its fill.
abbrev pub filled_order : Order → Order
filled_order order = record order {
  status = Status.success;
  qty_base = order.qty_base_filled;
  qty_usd = order.qty_base_filled * or_number order.fill_price (or_number order.limit_price 0);
  fee_source = FeeSource.exchange;
}

-- The transition of `_poll_one` by the venue's state of the order, after the booking.
unfoldable pub transition : Env → Alert → Order → OrderState → Action Order
transition env alert order OrderState.filled = do
  notify (
      Notice.limit_order_filled alert.strategy_id order.exchange order.symbol order.side
        order.qty_base_filled (or_number order.fill_price 0))
  pure (filled_order order)
transition env alert order OrderState.cancelled = pure (record order { status = Status.cancelled })
transition env alert order OrderState.rejected = pure (record order { status = Status.cancelled })
transition env alert order OrderState.working = maybe_stale_alert env alert order
transition env alert order OrderState.partially_filled = maybe_stale_alert env alert order
transition env alert order OrderState.unknown = maybe_stale_alert env alert order

unfoldable pub observe : Env → Alert → Order → OrderSnapshot → Action (Unit {0})
observe env alert order st = do
  (booked, newly) ← book_limit_fill_delta env.now order alert.strategy_id st
  moved ← transition env alert booked st.state
  save_order (record moved { updated_at = env.now })

unfoldable pub poll_with : Env → Order → Alert → Action (Unit {0})
poll_with env order alert = do
  ex ← lift (env.registry order.exchange "default")
  st ← lift (ex.order_status order.symbol (handle order))
  if is_unknown st.state then pure tt else observe env alert order st

-- `_poll_one`.
unfoldable pub poll_one : Env → Order → Action (Unit {0})
poll_one env order s = elim (alert_of order.alert_id s.current) [
  | none ↦ save_order (record order { status = Status.dead }) s
  | some alert ↦ poll_with env order alert s
]

unfoldable pub poll_all : Env → List Order → Action (Unit {0})
poll_all env [] = pure tt
poll_all env (o ∷ os) = attempt (poll_one env o) >> poll_all env os

abbrev pub scan_limit : ℕ
scan_limit = 50

-- `_poll_working_orders`; the rows are in the order of their ids.
unfoldable pub poll_working_orders : Env → Action (Unit {0})
poll_working_orders env =
    session_scope
      λ s. poll_all env (take scan_limit (select (λ o. is_working o.status) s.current.orders)) s
