-- ===== src/Soundness/Workers.antt =====
-- The background scans and the agreement of the two ledgers.
use mochi_position_manager.Prelude.{List, [], ◌∷◌, select, take}
use mochi_position_manager.Models.{Order, Alert, OrderState, OrderSnapshot, is_working}
use mochi_position_manager.Session.{Db, Session}
use mochi_position_manager.Config.{Env}
use mochi_position_manager.Executor.Ledger.Agreement.{Agrees}
use mochi_position_manager.Webhook.{alert_of}
use mochi_position_manager.RetryWorker.{
  retry_with, retry_one, retry_all, run_due_order_retries, scan_limit, is_due,
}
use mochi_position_manager.LimitWorker.{
  maybe_stale_alert, transition, observe, poll_with, poll_one, poll_all, poll_working_orders,
  scan_limit as poll_limit,
}
use mochi_position_manager.Soundness.{
  Stable, ledgers_stable, Sound, Keeps, keeps_laws, Keeps-pure, Keeps-bind, Keeps-attempt,
  Keeps-look, Keeps-session_scope,
}
use mochi_position_manager.Soundness.Orders.{
  save_order-Keeps, retry_order-Keeps, book_limit_fill_delta-Keeps,
}

module _ {P : Db → Type 0} (stable : Stable P) where
  retry_with-Keeps : (env : Env) (o : Order) (alert : Alert) → Keeps P (retry_with env o alert)
  unfolding retry_with
  retry_with-Keeps env o alert = search (keeps_laws, retry_order-Keeps stable)

  retry_one-Keeps : (env : Env) (o : Order) → Keeps P (retry_one env o)
  unfolding retry_one
  retry_one-Keeps env o =
      Keeps-look (λ s. alert_of o.alert_id s.current) _ _ (save_order-Keeps stable _)
        (retry_with-Keeps env o)

  retry_all-Keeps : (env : Env) (os : List Order) → Keeps P (retry_all env os)
  unfolding retry_all
  retry_all-Keeps env [] = Keeps-pure tt
  retry_all-Keeps env (o ∷ os) = search (keeps_laws, retry_one-Keeps env o, retry_all-Keeps env os)

  pub run_due_order_retries-Sound :
      (env : Env) (s : Session) → Sound P s → Sound P (run_due_order_retries env s).1
  unfolding run_due_order_retries
  run_due_order_retries-Sound env s h =
      (Keeps-session_scope (record {
        run = λ t k.
            (retry_all-Keeps env (take scan_limit (select (is_due env.now) t.current.orders))).run t
              k;
      })).run
        s h

  transition-Keeps :
      (env : Env) (alert : Alert) (order : Order) (state : OrderState)
      → Keeps P (transition env alert order state)
  unfolding transition maybe_stale_alert
  transition-Keeps env alert order OrderState.filled = search keeps_laws
  transition-Keeps env alert order OrderState.cancelled = search keeps_laws
  transition-Keeps env alert order OrderState.rejected = search keeps_laws
  transition-Keeps env alert order OrderState.working = search keeps_laws
  transition-Keeps env alert order OrderState.partially_filled = search keeps_laws
  transition-Keeps env alert order OrderState.unknown = search keeps_laws

  observe-Keeps :
      (env : Env) (alert : Alert) (order : Order) (st : OrderSnapshot)
      → Keeps P (observe env alert order st)
  unfolding observe
  observe-Keeps env alert order st =
      search
        (keeps_laws, book_limit_fill_delta-Keeps stable, transition-Keeps, save_order-Keeps stable)

  poll_with-Keeps : (env : Env) (o : Order) (alert : Alert) → Keeps P (poll_with env o alert)
  unfolding poll_with
  poll_with-Keeps env o alert = search (keeps_laws, observe-Keeps)

  poll_one-Keeps : (env : Env) (o : Order) → Keeps P (poll_one env o)
  unfolding poll_one
  poll_one-Keeps env o =
      Keeps-look (λ s. alert_of o.alert_id s.current) _ _ (save_order-Keeps stable _)
        (poll_with-Keeps env o)

  poll_all-Keeps : (env : Env) (os : List Order) → Keeps P (poll_all env os)
  unfolding poll_all
  poll_all-Keeps env [] = Keeps-pure tt
  poll_all-Keeps env (o ∷ os) =
      Keeps-bind (Keeps-attempt (poll_one-Keeps env o)) λ _. poll_all-Keeps env os

  pub poll_working_orders-Sound :
      (env : Env) (s : Session) → Sound P s → Sound P (poll_working_orders env s).1
  unfolding poll_working_orders
  poll_working_orders-Sound env s h =
      (Keeps-session_scope (record {
        run = λ t k.
            (poll_all-Keeps env
                (take poll_limit (select (λ o. is_working o.status) t.current.orders))).run
              t k;
      })).run
        s h

-- The retry scan keeps the two ledgers in agreement, whatever the venues answer and wherever it
-- raises, in the state that it leaves and in every state that it commits.
pub run_due_order_retries-Agrees :
    (env : Env) (s : Session) → Sound Agrees s → Sound Agrees (run_due_order_retries env s).1
run_due_order_retries-Agrees env s h = run_due_order_retries-Sound ledgers_stable env s h

-- The poll of the resting orders keeps the two ledgers in agreement, whatever the venues report, in
-- the state that it leaves and in every state that it commits.
pub poll_working_orders-Agrees :
    (env : Env) (s : Session) → Sound Agrees s → Sound Agrees (poll_working_orders env s).1
poll_working_orders-Agrees env s h = poll_working_orders-Sound ledgers_stable env s h
