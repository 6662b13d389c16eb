-- ===== src/RetryWorker.antt =====
-- The two scans of the retry worker (app/retry_worker.py): the directional orders, and the orders of
-- the arb book.
use mochi_position_manager.Prelude.{
  ℕ, Bool, true, false, ◌&&◌, Option, none, some, List, [], ◌∷◌, select, take, leb,
}
use mochi_position_manager.Models.{Status, is_retrying, Alert, Order}
use mochi_position_manager.ArbModels.{LegStatus, is_retried, ArbLeg, ArbOrder}
use mochi_position_manager.Session.{Action, ◌>>◌, pure, session_scope}
use mochi_position_manager.Config.{Env}
use mochi_position_manager.Routing.{VenueRoute}
use mochi_position_manager.Executor.Orders.{retry_order}
use mochi_position_manager.Executor.Rows.{save_order}
use mochi_position_manager.Webhook.{alert_of}
use mochi_position_manager.ArbExecutor.Legs.{leg_of, save_arb_order, execute_leg}

-- SQL's `next_retry_at <= now` is false for a null.
abbrev pub has_come : (now : ℕ) → Option ℕ → Bool
has_come now none = false
has_come now (some at) = leb at now

abbrev pub is_due : (now : ℕ) → Order → Bool
is_due now o = is_retrying o.status && has_come now o.next_retry_at

-- `limit(50)`.
abbrev pub scan_limit : ℕ
scan_limit = 50

-- The venue is made from the order's own frozen fields.
abbrev pub frozen_venue : Order → VenueRoute
frozen_venue o = record { exchange = o.exchange; symbol = o.symbol; enabled = true }

unfoldable pub retry_with : Env → Order → Alert → Action (Unit {0})
retry_with env order alert = do
  retry_order env alert (frozen_venue order) order.qty_base order
  pure tt

unfoldable pub retry_one : Env → Order → Action (Unit {0})
retry_one env order s = elim (alert_of order.alert_id s.current) [
  | none ↦ save_order (record order { status = Status.dead }) s
  | some alert ↦ retry_with env order alert s
]

unfoldable pub retry_all : Env → List Order → Action (Unit {0})
retry_all env [] = pure tt
retry_all env (o ∷ os) = retry_one env o >> retry_all env os

-- `_run_due_order_retries`.
unfoldable pub run_due_order_retries : Env → Action (Unit {0})
run_due_order_retries env =
    session_scope λ s. retry_all env (take scan_limit (select (is_due env.now) s.current.orders)) s

abbrev pub is_arb_due : (now : ℕ) → ArbOrder → Bool
is_arb_due now o = is_retried o.status && has_come now o.next_retry_at

unfoldable pub retry_leg : Env → ArbOrder → ArbLeg → Action (Unit {0})
retry_leg env order leg = execute_leg env leg (some order) >> pure tt

-- An order whose leg is gone is dead.
unfoldable pub retry_arb_order : Env → ArbOrder → Action (Unit {0})
retry_arb_order env order s = elim (leg_of order.arb_leg_id s.current) [
  | none ↦ save_arb_order (record order { status = LegStatus.dead }) s
  | some leg ↦ retry_leg env order leg s
]

unfoldable pub retry_arb_orders : Env → List ArbOrder → Action (Unit {0})
retry_arb_orders env [] = pure tt
retry_arb_orders env (o ∷ os) = retry_arb_order env o >> retry_arb_orders env os

-- `_run_due_arb_retries`.
unfoldable pub run_due_arb_retries : Env → Action (Unit {0})
run_due_arb_retries env =
    session_scope λ s.
      retry_arb_orders env (take scan_limit (select (is_arb_due env.now) s.current.arb_orders)) s
