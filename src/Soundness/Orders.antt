-- ===== src/Soundness/Orders.antt =====
-- The order handlers of app/executor.py and the stable properties of the database.
use mochi_position_manager.Prelude.{Option, ℕ, String}
use mochi_position_manager.Models.{
  Side, Reason, OrderType, Alert, Order, OrderResult, OrderSnapshot,
}
use mochi_position_manager.Session.{Db}
use mochi_position_manager.Config.{Env}
use mochi_position_manager.Routing.{VenueRoute}
use mochi_position_manager.Executor.Ledger.{apply_fill_to_position}
use mochi_position_manager.Executor.Orders.{
  call_exchange, call_exchange_limit, on_limit_placed, on_success, on_failure, settle, place,
  retry_order, execute_order,
}
use mochi_position_manager.Executor.Rows.{add_order, save_order, record_rejected_order}
use mochi_position_manager.Executor.Partial.{book_limit_fill_delta}
use mochi_position_manager.Soundness.{Stable, Keeps, keeps_laws, Keeps-modify}

module _ {P : Db → Type 0} (stable : Stable P) where
  pub save_order-Keeps : (o : Order) → Keeps P (save_order o)
  save_order-Keeps o = Keeps-modify _ (λ d h. stable.orders d _ h)

  add_order-Keeps : (o : Order) → Keeps P (add_order o)
  add_order-Keeps o = record { run = λ s h. (stable.orders s.current _ h.0, h.1) }

  pub record_rejected_order-Keeps :
      (env : Env) (alert : Alert) (venue : VenueRoute) (side : Side) (why : Reason)
      → Keeps P (record_rejected_order env alert venue side why)
  unfolding record_rejected_order
  record_rejected_order-Keeps env alert venue side why = record {
    run = λ s h. (stable.orders s.current _ h.0, h.1);
  }

  apply_fill_to_position-Keeps :
      (strategy_id exchange symbol : String) (side : Side) (qty price now : ℕ)
      → Keeps P (apply_fill_to_position strategy_id exchange symbol side qty price now)
  unfolding apply_fill_to_position
  apply_fill_to_position-Keeps strategy_id exchange symbol side qty price now = record {
    run = λ s h.
        let after = stable.fill strategy_id exchange symbol side qty price now s.current h.0 in
        (after, (after, (h.0, h.1)));
  }

  pub book_limit_fill_delta-Keeps :
      (now : ℕ) (order : Order) (strategy_id : String) (st : OrderSnapshot)
      → Keeps P (book_limit_fill_delta now order strategy_id st)
  unfolding book_limit_fill_delta
  book_limit_fill_delta-Keeps now order strategy_id st =
      search (keeps_laws, save_order-Keeps, apply_fill_to_position-Keeps)

  place-Keeps :
      (env : Env) (venue : VenueRoute) (side : Side) (qty : ℕ) (order : Order)
      → Keeps P (place env venue side qty order)
  unfolding place call_exchange call_exchange_limit
  place-Keeps env venue side qty order = search keeps_laws

  on_limit_placed-Keeps :
      (order : Order) (alert : Alert) (result : OrderResult)
      → Keeps P (on_limit_placed order alert result)
  unfolding on_limit_placed
  on_limit_placed-Keeps order alert result = search (keeps_laws, save_order-Keeps)

  module _ (env : Env) (order : Order) (alert : Alert) (venue : VenueRoute) (side : Side)
      (result : OrderResult) where
    on_success-Keeps : Keeps P (on_success env order alert venue side result)
    unfolding on_success
    on_success-Keeps = search (keeps_laws, save_order-Keeps, apply_fill_to_position-Keeps) depth 8

    on_failure-Keeps : Keeps P (on_failure env order alert venue side result)
    unfolding on_failure
    on_failure-Keeps = search (keeps_laws, save_order-Keeps)

    settle-Keeps : Keeps P (settle env order alert venue side result)
    unfolding settle
    settle-Keeps = search (keeps_laws, on_success-Keeps, on_failure-Keeps, on_limit_placed-Keeps)

  pub retry_order-Keeps :
      (env : Env) (alert : Alert) (venue : VenueRoute) (qty : ℕ) (order : Order)
      → Keeps P (retry_order env alert venue qty order)
  unfolding retry_order
  retry_order-Keeps env alert venue qty order =
      search (keeps_laws, save_order-Keeps, place-Keeps, settle-Keeps)

  pub execute_order-Keeps :
      (env : Env) (alert : Alert) (venue : VenueRoute) (qty : ℕ) (order_type : OrderType)
      (limit_price : Option ℕ) (client_order_id : String)
      → Keeps P (execute_order env alert venue qty order_type limit_price client_order_id)
  unfolding execute_order
  execute_order-Keeps env alert venue qty order_type limit_price client_order_id =
      search (keeps_laws, add_order-Keeps, place-Keeps, settle-Keeps)
