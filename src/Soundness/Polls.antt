-- ===== src/Soundness/Polls.antt =====
-- What the polls of resting orders and of funding send.
use mochi_position_manager.Prelude.{
  ℕ, ◌+◌, ◌==◌, String, refl, Bool, true, false, if◌then◌else◌, List, [], ◌∷◌,
}
use mochi_position_manager.Models.{Alert, Order, OrderSnapshot, OrderState}
use mochi_position_manager.Session.{Sent, Session, Result, ok, raised, Action, attempt}
use mochi_position_manager.Exchange.{Payment}
use mochi_position_manager.Config.{Env}
use mochi_position_manager.Routing.{StrategyRoute}
use mochi_position_manager.Executor.Rows.{save_order}
use mochi_position_manager.Executor.Partial.{book_limit_fill_delta}
use mochi_position_manager.Webhook.{alert_of}
use mochi_position_manager.LimitWorker.{
  maybe_stale_alert, transition, observe, poll_with, poll_one, poll_all, poll_working_orders,
}
use mochi_position_manager.FundingWorker.{
  Place, summed, insert_event, insert_arb_event, insert_payment, insert_arb_payment, fetch,
  store_payments, poll_place, poll_places, poll_once, poll_arb_once, venue_pairs,
}
use mochi_position_manager.Admin.Fire.Sends.{apply_fill_to_position-Only}
use mochi_position_manager.Soundness.Only.{
  Allowed, Only, only_laws, Only-pure, Only-reads, Only-modify, Only-bind, Only-if, Only-look,
  Only-session_scope,
}

module _ {Q : Sent → Type 0} where
  book_limit_fill_delta-Only :
      (now : ℕ) (order : Order) (strategy_id : String) (st : OrderSnapshot)
      → Only Q (book_limit_fill_delta now order strategy_id st)
  unfolding book_limit_fill_delta
  book_limit_fill_delta-Only now order strategy_id st =
      search (only_laws, Only-if, apply_fill_to_position-Only) depth 8

  maybe_stale_alert-Only :
      (env : Env) (alert : Alert) (order : Order) → Only Q (maybe_stale_alert env alert order)
  unfolding maybe_stale_alert
  maybe_stale_alert-Only env alert order = search (only_laws, Only-if)

  transition-Only :
      (env : Env) (alert : Alert) (order : Order) (state : OrderState)
      → Only Q (transition env alert order state)
  unfolding transition
  transition-Only env alert order OrderState.filled = search only_laws
  transition-Only env alert order OrderState.cancelled = Only-pure _
  transition-Only env alert order OrderState.rejected = Only-pure _
  transition-Only env alert order OrderState.working = maybe_stale_alert-Only env alert order
  transition-Only env alert order OrderState.partially_filled =
      maybe_stale_alert-Only env alert order
  transition-Only env alert order OrderState.unknown = maybe_stale_alert-Only env alert order

  poll_with-Only : (env : Env) (order : Order) (alert : Alert) → Only Q (poll_with env order alert)
  unfolding poll_with observe
  poll_with-Only env order alert =
      search (only_laws, Only-if, book_limit_fill_delta-Only, transition-Only) depth 10

  save_order-Only : (o : Order) → Only Q (save_order o)
  save_order-Only o = Only-modify _

  poll_one-Only : (env : Env) (order : Order) → Only Q (poll_one env order)
  unfolding poll_one
  poll_one-Only env order =
      Only-look (λ s. alert_of order.alert_id s.current) _ _ (save_order-Only _)
        (poll_with-Only env order)

  Only-attempt : {A : Type 0} {m : Action A} → Only Q m → Only Q (attempt m)
  Only-attempt h = record { run = h.run }

  poll_all-Only : (env : Env) (os : List Order) → Only Q (poll_all env os)
  unfolding poll_all
  poll_all-Only env [] = Only-pure _
  poll_all-Only env (o ∷ os) =
      Only-bind (Only-attempt (poll_one-Only env o)) (λ u. poll_all-Only env os)

  pub poll_working_orders-Only : (env : Env) → Only Q (poll_working_orders env)
  unfolding poll_working_orders
  poll_working_orders-Only env =
      Only-session_scope (record { run = λ s. (poll_all-Only env _).run s })

  module _ (insert : Place → Payment → Action ℕ)
      (insert-Only : (place : Place) (p : Payment) → Only Q (insert place p)) where
    summed-Only : (m rest : Action ℕ) → Only Q m → Only Q rest → Only Q (summed m rest)
    summed-Only m rest h k = Only-bind h λ a. Only-bind k λ b. Only-pure (a + b)

    store_payments-Only :
        (place : Place) (ps : List Payment) → Only Q (store_payments insert place ps)
    unfolding store_payments
    store_payments-Only place [] = Only-pure 0
    store_payments-Only place (p ∷ ps) =
        Only-if (p.time == 0) (store_payments-Only place ps) (
          summed-Only _ _ (Only-session_scope (insert-Only place p)) (store_payments-Only place ps))

    poll_place-Only :
        (place : Place) (r : Result (List Payment)) → Only Q (poll_place insert place r)
    poll_place-Only place (raised e) = Only-pure 0
    poll_place-Only place (ok ps) = store_payments-Only place ps

    poll_places-Only : (env : Env) (places : List Place) → Only Q (poll_places insert env places)
    unfolding poll_places
    poll_places-Only env [] = Only-pure 0
    poll_places-Only env (place ∷ places) =
        summed-Only _ _ (poll_place-Only place (fetch env place)) (poll_places-Only env places)

  stored :
      {start : List Sent} (b : Bool) (p q : Result ℕ × Session)
      → Allowed Q start p.1.sent
      → Allowed Q start q.1.sent
      → Allowed Q start (if b then p else q).1.sent
  stored true p q h k = h
  stored false p q h k = k

  pub poll_once-Only : (env : Env) (routes : List StrategyRoute) → Only Q (poll_once env routes)
  unfolding poll_once insert_event
  poll_once-Only env routes =
      poll_places-Only (insert_payment env.now)
        (λ place p. record {
          run = λ s. stored _ (ok 0, s) (ok 1, _) ([], tt, refl) ([], tt, refl);
        })
        env (venue_pairs routes)

  pub poll_arb_once-Only : (env : Env) → Only Q (poll_arb_once env)
  unfolding poll_arb_once insert_arb_event
  poll_arb_once-Only env = Only-bind (Only-session_scope (Only-reads _)) λ places.
      poll_places-Only (insert_arb_payment env.now)
        (λ place p. record {
          run = λ s. stored _ (ok 0, s) (ok 1, _) ([], tt, refl) ([], tt, refl);
        })
        env places
