-- ===== src/Webhook.antt =====
-- The webhook (app/routes/webhook.py): the dedup gate, the fan-out over the venues, and what one
-- signal does at one venue. Parsing and schema checks of the request body are done before.
pub mod Cancel
pub mod Dispatch
pub mod Endpoint
use text.Mathlib.Text.{◌==◌ as str_eq}
use mochi_position_manager.Prelude.{
  ℕ, String, Bool, true, false, ◌&&◌, Option, none, some, List, [], ◌∷◌, find_first, find_last, ltb,
  leb, ◌==◌, if◌then◌else◌,
}
use mochi_position_manager.Prelude.Int.{abs}
use mochi_position_manager.Prelude.Table.{or_text}
use mochi_position_manager.Models.{
  same_side, market, limit, is_limit, Status, is_working, is_unknown, Alert, Order, OrderSnapshot,
  flat_eps, or_number,
}
use mochi_position_manager.Session.{
  Db, Sent, Notice, Session, Result, ok, raised, Action, ◌>>=◌, ◌>>◌, pure, lift, reads, attempt,
  notify, send, session_scope,
}
use mochi_position_manager.Exchange.{Adapter}
use mochi_position_manager.Config.{Env}
use mochi_position_manager.Routing.{VenueRoute, StrategyRoute, enabled_venues}
use mochi_position_manager.Portfolio.{Decision, open_position, reject, Sizing, net_qty, decide}
use mochi_position_manager.Executor.Orders.{execute_order}
use mochi_position_manager.Executor.Rows.{record_rejected_order, save_order}
use mochi_position_manager.Executor.Partial.{book_limit_fill_delta}

-- `db.get(Alert, id)`.
abbrev pub alert_of : ℕ → Db → Option Alert
alert_of i d = find_first (λ a. a.id == i) d.alerts

-- Whether the order's alert belongs to the strategy: the join of `_find_working_entry`.
unfoldable pub is_of_strategy : String → Db → Order → Bool
is_of_strategy strategy_id d o = elim (alert_of o.alert_id d) [
  | none ↦ false
  | some a ↦ str_eq a.strategy_id strategy_id
]

unfoldable pub is_working_entry : (strategy_id exchange symbol : String) → Db → Order → Bool
is_working_entry strategy_id exchange symbol d o =
    is_working o.status
    && (is_limit o.order_type
        && (str_eq o.exchange exchange
            && (str_eq o.symbol symbol && is_of_strategy strategy_id d o)))

-- `_find_working_entry`: the rows are in the order of their ids, so the newest is the last.
unfoldable pub find_working_entry : (strategy_id exchange symbol : String) → Db → Option Order
find_working_entry strategy_id exchange symbol d =
    find_last (is_working_entry strategy_id exchange symbol d) d.orders

-- The venue's handle of a resting order.
abbrev pub handle : Order → String
handle o = or_text o.exchange_order_id o.client_order_id

-- The second `try` of `_cancel_working_entry`: book what was filled, if the venue says so.
unfoldable pub book_reported :
    Env → Order → (strategy_id : String) → Result OrderSnapshot → Action Order
book_reported env order strategy_id (raised e) = pure order
book_reported env order strategy_id (ok st) =
    if is_unknown st.state
    then pure order
    else (do (booked, newly) ← book_limit_fill_delta env.now order strategy_id st; pure booked)

unfoldable pub book_raced_fill : Env → Adapter → Order → (strategy_id : String) → Action Order
book_raced_fill env ex order strategy_id =
    book_reported env order strategy_id (ex.order_status order.symbol (handle order))

-- `_cancel_working_entry`.
unfoldable pub cancel_working_entry : Env → Order → (strategy_id : String) → Action (Unit {0})
cancel_working_entry env order strategy_id = do
  ex ← lift (env.registry order.exchange "default")
  attempt (do
    send (Sent.cancel_order order.exchange order.symbol (handle order))
    lift (ex.cancel_order order.symbol (handle order)))
  booked ← book_raced_fill env ex order strategy_id
  save_order (record booked { status = Status.cancelled; updated_at = env.now })
  notify (
      Notice.limit_order_cancelled strategy_id order.exchange order.symbol order.side
        booked.qty_base_filled booked.qty_base)

abbrev pub is_reject : Decision → Bool
is_reject Decision.reject = true
is_reject _ = false

abbrev pub is_open : Decision → Bool
is_open Decision.open_position = true
is_open _ = false

abbrev pub number_of : Option ℕ → ℕ
number_of none = 0
number_of (some n) = n

-- What `_dispatch_venue` does with the portfolio manager's answer.
unfoldable pub act_on : Env → Alert → StrategyRoute → VenueRoute → Sizing → Action (Unit {0})
act_on env alert route venue sizing =
    if is_reject sizing.decision
    then (do
      record_rejected_order env alert venue alert.action sizing.reason
      notify (
          Notice.order_rejected route.strategy_id venue.exchange venue.symbol alert.action
            sizing.reason))
    else (do
      (if sizing.paper
          then notify (
              Notice.paper_trade route.strategy_id venue.exchange venue.symbol alert.action
                (number_of sizing.qty))
          else pure tt)
      (if is_limit route.entry
            && (is_open sizing.decision && ltb 0 (or_number alert.signal_price 0))
          then execute_order env alert venue (number_of sizing.qty) limit alert.signal_price
              (env.client_order_id alert.id venue.exchange venue.symbol)
          else execute_order env alert venue (number_of sizing.qty) market none "")
      pure tt)

unfoldable pub decide_and_act :
    Env → Alert → StrategyRoute → VenueRoute → (alert_quantity : ℕ) → Action (Unit {0})
decide_and_act env alert route venue alert_quantity = do
  sizing ← decide env.registry route venue alert.action alert_quantity
  act_on env alert route venue sizing

-- An opposite signal on a resting entry: cancel it, and close what it had filled, if anything.
unfoldable pub cancel_on_close :
    Env → Alert → StrategyRoute → VenueRoute → (alert_quantity : ℕ) → Order → Action (Unit {0})
cancel_on_close env alert route venue alert_quantity working = do
  cancel_working_entry env working route.strategy_id
  net ← reads (λ d. net_qty d route.strategy_id venue.exchange venue.symbol)
  if leb (abs net) flat_eps then pure tt else decide_and_act env alert route venue alert_quantity

-- `_dispatch_venue`.
unfoldable pub dispatch_venue :
    Env → Alert → StrategyRoute → VenueRoute → (alert_quantity : ℕ) → Action (Unit {0})
dispatch_venue env alert route venue alert_quantity s =
    elim (find_working_entry route.strategy_id venue.exchange venue.symbol s.current) [
      | none ↦ decide_and_act env alert route venue alert_quantity s
      | some working ↦
          if same_side alert.action working.side
          then (ok tt, s)
          else cancel_on_close env alert route venue alert_quantity working s
    ]

-- `_run_fan_out`: one session for each venue, so that a failure at one leaves the others alone.
unfoldable pub fan_out :
    Env → (alert_id : ℕ) → StrategyRoute → (quantity : ℕ) → List VenueRoute → Session → Session
fan_out env alert_id route quantity [] s = s
fan_out env alert_id route quantity (venue ∷ venues) s =
    let rest = λ (t : Session). fan_out env alert_id route quantity venues t in
    elim (alert_of alert_id s.current) [
      | none ↦ (session_scope (pure tt) s).1
      | some alert ↦ rest (session_scope (dispatch_venue env alert route venue quantity) s).1
    ]

unfoldable pub run_fan_out :
    Env → (alert_id : ℕ) → StrategyRoute → (quantity : ℕ) → Session → Session
unfolding fan_out
run_fan_out env alert_id route quantity = fan_out env alert_id route quantity (enabled_venues route)
