-- ===== src/Admin/Fire/Sends.antt =====
-- What a form may send, and what the loop over the venues of its strategy sends.
use mochi_position_manager.Prelude.{
  Occurs, head, tail, ℕ, ◌*◌, ◌≤◌, ◌<◌, ◌≡◌, refl, String, Bool, true, false, Option, none, some,
  List, [], ◌∷◌, ◌==◌, arith,
}
use mochi_position_manager.Models.{Side, limit, Alert, Order, OrderResult, RiskSettings, or_number}
use mochi_position_manager.Session.{Sent, Session, Result, ok, raised, Action}
use mochi_position_manager.Config.{Env}
use mochi_position_manager.Routing.{VenueRoute, StrategyRoute, enabled_venues}
use mochi_position_manager.Executor.Ledger.{apply_fill_to_position}
use mochi_position_manager.Executor.Orders.{
  attempted, call_exchange_limit, on_limit_placed, on_success, on_failure, settle, place,
  execute_order,
}
use mochi_position_manager.Executor.Rows.{default_leverage, new_order, add_order}
use mochi_position_manager.Soundness.Only.{
  Allowed, Only, only_laws, Only-send, Only-if, Only-test, Only-asked, Only-pure, Only-lift,
  Only-reads, Only-bind, Only-session_scope,
}
use mochi_position_manager.Admin.Fire.{
  FireNotice, exceeds, guarded, execute_fired, fire_order, fire_sized, fire_at, fire_venues,
  fire_qty,
}

-- A limit order at the form's price, of a quantity above zero at an enabled venue of the strategy, that is
-- worth no more than the cap, if there is one; only while the kill switch is off, and for the right secret.
pub data Fires (route : StrategyRoute) (limit_price : ℕ) (risk : RiskSettings) (authorized : Bool)
    : Sent → Type 0 where
  fires :
      (venue : VenueRoute) (side : Side) (qty : ℕ) (client_order_id : String)
      → authorized ≡ true
      → risk.kill_switch ≡ false
      → Occurs venue (enabled_venues route)
      → 0 < qty
      → (0 < risk.per_order_max_notional → qty * limit_price ≤ risk.per_order_max_notional)
      → Fires route limit_price risk authorized
          (Sent.limit_order venue.exchange venue.symbol side qty limit_price client_order_id)

module _ {Q : Sent → Type 0} where
  pub on_limit_placed-Only :
      (order : Order) (alert : Alert) (result : OrderResult)
      → Only Q (on_limit_placed order alert result)
  unfolding on_limit_placed
  on_limit_placed-Only order alert result = search only_laws

  pub on_failure-Only :
      (env : Env) (order : Order) (alert : Alert) (venue : VenueRoute) (side : Side)
      (result : OrderResult)
      → Only Q (on_failure env order alert venue side result)
  unfolding on_failure
  on_failure-Only env order alert venue side result = search (only_laws, Only-if)

  pub apply_fill_to_position-Only :
      (strategy_id exchange symbol : String) (side : Side) (qty price now : ℕ)
      → Only Q (apply_fill_to_position strategy_id exchange symbol side qty price now)
  unfolding apply_fill_to_position
  apply_fill_to_position-Only strategy_id exchange symbol side qty price now = record {
    run = λ s. ([], tt, refl);
  }

  module _ (env : Env) (order : Order) (alert : Alert) (venue : VenueRoute) (side : Side)
      (result : OrderResult) where
    pub on_success-Only : Only Q (on_success env order alert venue side result)
    unfolding on_success
    on_success-Only = search (only_laws, Only-if, apply_fill_to_position-Only) depth 8

    pub settle-Only : Only Q (settle env order alert venue side result)
    unfolding settle
    settle-Only =
        search (only_laws, Only-if, on_success-Only, on_failure-Only, on_limit_placed-Only)

  add_order-Only : (o : Order) → Only Q (add_order o)
  add_order-Only o = record { run = λ s. ([], tt, refl) }

  guarded-Only :
      (exchange : String) (m : Action FireNotice) → Only Q m → Only Q (guarded exchange m)
  guarded-Only exchange m h = record { run = λ s. kept (m s) (h.run s) }
    where
      kept :
          {start : List Sent} (p : Result FireNotice × Session)
          → Allowed Q start p.1.sent
          → Allowed Q start
              (elim p.0 as (λ _. Result FireNotice × Session) [
                | ok n ↦ (ok n, p.1)
                | raised e ↦ (ok (FireNotice.failed exchange e), p.1)
              ]).1.sent
      kept (ok n, s) a = a
      kept (raised e, s) a = a

pub or_zero : (n : ℕ) → or_number (some n) 0 ≡ n
or_zero n = ground arith

module _ (env : Env) (route : StrategyRoute) (limit_price : ℕ) (risk : RiskSettings)
    (authorized : Bool) (secret_fits : authorized ≡ true) (is_on : risk.kill_switch ≡ false) where
  abbrev pub Sends : {A : Type 0} → Action A → Type 0
  Sends m = Only (Fires route limit_price risk authorized) m

  module _ (venue : VenueRoute) (enabled : Occurs venue (enabled_venues route)) (qty : ℕ)
      (some_qty : 0 < qty)
      (within : 0 < risk.per_order_max_notional
        → qty * limit_price ≤ risk.per_order_max_notional) where
    pub call-Fires :
        (side : Side) (price : ℕ) (client_order_id : String)
        → price ≡ limit_price
        → Only
            (Fires route limit_price risk authorized)
            (call_exchange_limit env venue side qty price client_order_id)
    unfolding call_exchange_limit
    call-Fires side price client_order_id e = rw e (
        Only-bind (Only-lift (env.registry venue.exchange "default")) λ ex.
          Only-bind
            (Only-send _
              (fires venue side qty client_order_id secret_fits is_on enabled some_qty within))
            λ u.
              Only-lift
                (ex.limit_order venue.symbol side qty limit_price client_order_id default_leverage))

    pub execute-Fires :
        (alert : Alert) (client_order_id : String)
        → Only
            (Fires route limit_price risk authorized)
            (execute_order env alert venue qty limit (some limit_price) client_order_id)
    unfolding execute_order place new_order
    execute-Fires alert client_order_id =
        Only-bind
          {m = call_exchange_limit env venue alert.action qty (or_number (some limit_price) 0)
            client_order_id}
          (call-Fires alert.action (or_number (some limit_price) 0) client_order_id
            (or_zero limit_price))
          λ result.
            Only-bind
              (add_order-Only (
                attempted env (
                  new_order alert.id venue alert.action qty alert.signal_price limit
                    (some limit_price) client_order_id env.now)))
              λ order. settle-Only env order alert venue alert.action result

    pub fire_order-Fires : (alert_id : ℕ) → Sends (fire_order env alert_id venue qty limit_price)
    fire_order-Fires alert_id = Only-session_scope (Only-bind (Only-reads _) found)
      where
        found : (o : Option Alert) → Sends (execute_fired env venue qty limit_price o)
        found none = Only-lift _
        found (some alert) = Only-bind (execute-Fires alert _) (λ o. Only-pure _)

  module _ (alert_id : ℕ) (explicit : Option ℕ) where
    pub sized-Fires :
        (venue : VenueRoute)
        → Occurs venue (enabled_venues route)
        → (o : Option ℕ)
        → Sends
            (fire_sized env route alert_id limit_price risk.per_order_max_notional explicit venue o)
    unfolding fire_sized
    sized-Fires venue i none = Only-pure _
    sized-Fires venue i (some q) =
        Only-test (q == 0) (λ z. Only-pure _)
          λ z.
            Only-test (exceeds risk.per_order_max_notional (q * limit_price)) (λ e. Only-pure _)
              λ e.
                fire_order-Fires venue i q (ground (arith, z)) (λ c. ground (arith, e, c)) alert_id

    pub fire_at-Fires :
        (venue : VenueRoute)
        → Occurs venue (enabled_venues route)
        → Sends (fire_at env route alert_id limit_price risk.per_order_max_notional explicit venue)
    unfolding fire_at
    fire_at-Fires venue i =
        guarded-Only venue.exchange _ (
          Only-asked (fire_qty env route venue limit_price explicit) (λ o e. sized-Fires venue i o))

    pub venues-Fires :
        (venues : List VenueRoute)
        → ((v : VenueRoute) → Occurs v venues → Occurs v (enabled_venues route))
        → Sends
            (fire_venues env route alert_id limit_price risk.per_order_max_notional explicit venues)
    unfolding fire_venues
    venues-Fires [] h = Only-pure _
    venues-Fires (v ∷ vs) h =
        Only-bind (fire_at-Fires v (h v (head refl)))
          λ n. Only-bind (venues-Fires vs (λ w i. h w (tail i))) (λ ns. Only-pure _)
