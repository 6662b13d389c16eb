-- ===== src/Executor/Orders/Exhaustion.antt =====
-- The end of the retry ladder.
use mochi_position_manager.Prelude.{
  ℕ, zero, suc, ◌+◌, ◌≤◌, ◌≡◌, refl, sym, ap, subst, ◌∙◌, inl, inr, Bool-cases, false, arith, leb,
  if◌then◌else◌,
}
use mochi_position_manager.Models.{market, Status, OrderResult, Alert, Order}
use mochi_position_manager.Session.{Session, Result, ok, Action, ◌>>=◌, pure, bind-ok}
use mochi_position_manager.Exchange.{Adapter}
use mochi_position_manager.Config.{Env}
use mochi_position_manager.Routing.{VenueRoute}
use mochi_position_manager.Executor.Orders.{
  attempted, dead_after, failed_after, call_exchange, place, on_failure, settle, retry_order,
}
use mochi_position_manager.Executor.Rows.{default_leverage}

-- The order after some attempts in a row.
unfoldable pub retries : Env → Alert → VenueRoute → ℕ → Order → Action Order
retries env alert venue zero order = pure order
retries env alert venue (suc n) order =
    retry_order env alert venue order.qty_base order >>= retries env alert venue n

-- How an order stands after some refusals in a row.
abbrev pub Stands : Env → (attempts : ℕ) → Result Order → Type 0
Stands env attempts r =
    (o : Order) × (r ≡ ok o)
    × (o.attempts ≡ attempts)
    × (o.status
        ≡ (if leb env.settings.retry_max_attempts attempts then Status.dead else Status.retrying))

module _ (env : Env) (alert : Alert) (venue : VenueRoute) (ex : Adapter) (refusal : OrderResult)
    (known : env.registry venue.exchange "default" ≡ ok ex)
    (refused : refusal.success ≡ false) where
  abbrev after : Order → Order
  after order =
      if leb env.settings.retry_max_attempts (order.attempts + 1)
      then dead_after (attempted env order) refusal
      else failed_after env (attempted env order) refusal

  retry_order-refused :
      (order : Order) (s : Session)
      → order.order_type ≡ market
      → ex.market_order venue.symbol alert.action order.qty_base default_leverage ≡ ok refusal
      → (retry_order env alert venue order.qty_base order s).0 ≡ ok (after order)
  unfolding retry_order place call_exchange settle on_failure
  retry_order-refused order s m a =
      elim (Bool-cases (leb env.settings.retry_max_attempts (order.attempts + 1))) [
        | inl e ↦ rw (m, known, a, refused, e) refl
        | inr e ↦ rw (m, known, a, refused, e) refl
      ]

  after_same :
      (order : Order)
      → ((after order).attempts ≡ order.attempts + 1)
        × ((after order).status ≡ (
            if leb env.settings.retry_max_attempts (order.attempts + 1)
            then Status.dead
            else Status.retrying))
        × ((after order).qty_base ≡ order.qty_base)
        × ((after order).order_type ≡ order.order_type)
  after_same order = elim (Bool-cases (leb env.settings.retry_max_attempts (order.attempts + 1))) [
    | inl e ↦ rw e (refl, refl, refl, refl)
    | inr e ↦ rw e (refl, refl, refl, refl)
  ]

  retries-one :
      (order : Order) (s : Session)
      → order.order_type ≡ market
      → ex.market_order venue.symbol alert.action order.qty_base default_leverage ≡ ok refusal
      → Stands env (order.attempts + 1) (retries env alert venue 1 order s).0
  unfolding retries
  retries-one order s m a =
      let first = retry_order-refused order s m a in
      (
        after order,
        ap (λ z. z.0)
            (bind-ok (retry_order env alert venue order.qty_base order) (retries env alert venue 0)
              s (after order) first),
        (after_same order).0,
        (after_same order).1,
      )

  -- An order that the venue refuses at every attempt counts each of them, is retrying as long as
  -- attempts are left, and is dead after the last one.
  pub retries-Stands :
      (n : ℕ) (order : Order) (s : Session)
      → order.order_type ≡ market
      → ex.market_order venue.symbol alert.action order.qty_base default_leverage ≡ ok refusal
      → order.attempts + suc n ≤ env.settings.retry_max_attempts
      → Stands env (order.attempts + suc n) (retries env alert venue (suc n) order s).0
  unfolding retries
  retries-Stands zero order s m a h = retries-one order s m a
  retries-Stands (suc n) order s m a h =
      let o' = after order in
      let s' : Session = (retry_order env alert venue order.qty_base order s).1 in
      let (attempts, status, qty, kind) = after_same order in
      let first =
        bind-ok (retry_order env alert venue order.qty_base order) (retries env alert venue (suc n))
          s o' (retry_order-refused order s m a) in
      let rest =
        retries-Stands n o' s' (kind ∙ m)
          (ap (λ q. ex.market_order venue.symbol alert.action q default_leverage) qty ∙ a)
          (omega (arith, attempts, h)) in
      let count : o'.attempts + suc n ≡ order.attempts + suc (suc n) = omega (arith, attempts) in
      subst (λ r. Stands env (order.attempts + suc (suc n)) r) (sym (ap (λ z. z.0) first))
        (subst (λ k. Stands env k (retries env alert venue (suc n) o' s').0) count rest)
