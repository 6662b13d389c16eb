-- ===== src/Soundness/Form.antt =====
-- The forms of the admin page (app/routes/admin.py) that write to the database, and the stable
-- properties of the database.
use mochi_position_manager.Prelude.{
  ℕ, String, inl, inr, Bool-cases, Option, none, some, List, [], ◌∷◌, length, ◌==◌,
}
use mochi_position_manager.Prelude.Int.{ℤ, pos, negsuc}
use mochi_position_manager.Models.{Side, limit, Alert, RiskSettings}
use mochi_position_manager.Session.{Db, Session, Result, ok, raised, Action}
use mochi_position_manager.Config.{Env}
use mochi_position_manager.Routing.{VenueRoute, StrategyRoute, enabled_venues}
use mochi_position_manager.Webhook.Endpoint.{has_key}
use mochi_position_manager.Admin.{has_secret}
use mochi_position_manager.Admin.Fire.{
  FireRequest, FireNotice, Quantity, exceeds, guarded, execute_fired, fire_order, fire_sized,
  fire_at, fire_venues, fire_qty, add_manual_alert, fire_checked, fire_with, fire_quantity,
  fire_price, fire_route, fire_side, fire_limit,
}
use mochi_position_manager.Admin.Risk.{RiskForm, save_cap, save_risk}
use mochi_position_manager.Routing.Build.{Texts}
use mochi_position_manager.Portfolio.{store_risk, update_risk_settings}
use mochi_position_manager.Soundness.{
  Stable, Sound, settings-Keeps, Keeps, Keeps-pure, Keeps-lift, Keeps-reads, Keeps-bind, Keeps-if,
  Keeps-session_scope,
}
use mochi_position_manager.Soundness.Orders.{execute_order-Keeps}
use mochi_position_manager.Soundness.Webhook.{get_risk_settings-Keeps}

module _ {P : Db → Type 0} where
  guarded-Keeps :
      (exchange : String) (m : Action FireNotice) → Keeps P m → Keeps P (guarded exchange m)
  guarded-Keeps exchange m h = record { run = λ s i. kept (m s) (h.run s i) }
    where
      kept :
          (p : Result FireNotice × Session)
          → Sound P p.1
          → Sound P
              (elim p.0 as (λ _. Result FireNotice × Session) [
                | ok n ↦ (ok n, p.1)
                | raised e ↦ (ok (FireNotice.failed exchange e), p.1)
              ]).1
      kept (ok n, s) a = a
      kept (raised e, s) a = a

module _ {P : Db → Type 0} (stable : Stable P)
    (alerts : (d : Db) (rows : List Alert) → P d → P (record d { alerts = rows })) (env : Env) where
  fire_order-Keeps :
      (alert_id : ℕ) (venue : VenueRoute) (qty price : ℕ)
      → Keeps P (fire_order env alert_id venue qty price)
  fire_order-Keeps alert_id venue qty price = Keeps-session_scope (Keeps-bind (Keeps-reads _) found)
    where
      found : (o : Option Alert) → Keeps P (execute_fired env venue qty price o)
      found none = Keeps-lift _
      found (some alert) =
          Keeps-bind (execute_order-Keeps stable env alert venue qty limit (some price) _)
            (λ o. Keeps-pure _)

  module _ (route : StrategyRoute) (alert_id price cap : ℕ) (explicit : Option ℕ) where
    fire_sized-Keeps :
        (venue : VenueRoute) (o : Option ℕ)
        → Keeps P (fire_sized env route alert_id price cap explicit venue o)
    unfolding fire_sized
    fire_sized-Keeps venue none = Keeps-pure _
    fire_sized-Keeps venue (some q) =
        Keeps-if (q == 0) (Keeps-pure _)
          (Keeps-if (exceeds cap _) (Keeps-pure _) (fire_order-Keeps alert_id venue q price))

    fire_venues-Keeps :
        (venues : List VenueRoute)
        → Keeps P (fire_venues env route alert_id price cap explicit venues)
    unfolding fire_venues fire_at
    fire_venues-Keeps [] = Keeps-pure _
    fire_venues-Keeps (v ∷ vs) =
        Keeps-bind
          (guarded-Keeps v.exchange _
            (Keeps-bind (Keeps-lift (fire_qty env route v price explicit)) (fire_sized-Keeps v)))
          λ n. Keeps-bind (fire_venues-Keeps vs) (λ ns. Keeps-pure _)

  add_manual_alert-Keeps :
      (now price : ℕ) (side : Side) (f : FireRequest) → Keeps P (add_manual_alert now price side f)
  unfolding add_manual_alert
  add_manual_alert-Keeps now price side f = record {
    run = λ s i. elim (Bool-cases (has_key f.key s.current.alerts)) [
      | inl b ↦ rw b i
      | inr b ↦ rw b (alerts s.current _ i.0, i.1)
    ];
  }

  fire_checked-Keeps :
      (route : StrategyRoute) (f : FireRequest) (side : Side) (price : ℕ) (explicit : Option ℕ)
      (risk : RiskSettings)
      → Keeps P (fire_checked env route f side price explicit risk)
  unfolding fire_checked
  fire_checked-Keeps route f side price explicit risk = Keeps-if risk.kill_switch (Keeps-pure _) (
      Keeps-bind (Keeps-session_scope (add_manual_alert-Keeps env.now price side f)) λ id.
        Keeps-bind
          (fire_venues-Keeps route id price risk.per_order_max_notional explicit
            (enabled_venues route))
          λ ns. Keeps-pure _)

  fire_with-Keeps :
      (route : StrategyRoute) (f : FireRequest) (side : Side) (price : ℕ) (explicit : Option ℕ)
      → Keeps P (fire_with env route f side price explicit)
  fire_with-Keeps route f side price explicit =
      Keeps-bind (Keeps-session_scope (get_risk_settings-Keeps stable))
        (fire_checked-Keeps route f side price explicit)

  fire_quantity-Keeps :
      (route : StrategyRoute) (f : FireRequest) (side : Side) (price : ℕ) (q : Quantity)
      → Keeps P (fire_quantity env route f side price q)
  fire_quantity-Keeps route f side price Quantity.blank = fire_with-Keeps route f side price none
  fire_quantity-Keeps route f side price Quantity.not_a_number = Keeps-pure _
  fire_quantity-Keeps route f side price (Quantity.number (negsuc n)) = Keeps-pure _
  fire_quantity-Keeps route f side price (Quantity.number (pos n)) =
      Keeps-if (n == 0) (Keeps-pure _) (fire_with-Keeps route f side price (some n))

  fire_route-Keeps :
      (f : FireRequest) (side : Side) (price : ℕ) (route : Option StrategyRoute)
      → Keeps P (fire_route env f side price route)
  fire_route-Keeps f side price none = Keeps-pure _
  fire_route-Keeps f side price (some route) =
      Keeps-if (length (enabled_venues route) == 0) (Keeps-pure _)
        (fire_quantity-Keeps route f side price f.quantity)

  fire_price-Keeps :
      (route : Option StrategyRoute) (f : FireRequest) (side : Side) (price : ℤ)
      → Keeps P (fire_price env route f side price)
  fire_price-Keeps route f side (negsuc n) = Keeps-pure _
  fire_price-Keeps route f side (pos n) =
      Keeps-if (n == 0) (Keeps-pure _) (fire_route-Keeps f side n route)

  fire_side-Keeps :
      (route : Option StrategyRoute) (f : FireRequest) (side : Option Side)
      → Keeps P (fire_side env route f side)
  fire_side-Keeps route f none = Keeps-pure _
  fire_side-Keeps route f (some side) = fire_price-Keeps route f side f.limit_price

  pub fire_limit-Keeps :
      (expected : String) (route : Option StrategyRoute) (f : FireRequest)
      → Keeps P (fire_limit env expected route f)
  unfolding fire_limit
  fire_limit-Keeps expected route f =
      Keeps-if (has_secret expected f.secret) (fire_side-Keeps route f f.side) (Keeps-pure _)

-- The risk form keeps what no risk settings break.
module _ {P : Db → Type 0}
    (risks : (d : Db) (r : RiskSettings) → P d → P (record d { risk_settings = some r })) where
  store_risk-Keeps : (r : RiskSettings) → Keeps P (store_risk r)
  unfolding store_risk
  store_risk-Keeps r = record { run = λ s h. (risks s.current r h.0, h.1) }

  save_cap-Keeps : (t : Texts) (f : RiskForm) (cap : Result ℕ) → Keeps P (save_cap t f cap)
  unfolding save_cap update_risk_settings
  save_cap-Keeps t f (raised e) = Keeps-pure _
  save_cap-Keeps t f (ok cap) =
      Keeps-bind
        (Keeps-session_scope
          (Keeps-bind (settings-Keeps (λ d e h. risks d _ h)) (λ r. store_risk-Keeps _)))
        (λ r. Keeps-pure _)

  pub save_risk-Keeps :
      (t : Texts) (expected : String) (f : RiskForm) → Keeps P (save_risk t expected f)
  unfolding save_risk
  save_risk-Keeps t expected f =
      Keeps-if (has_secret expected f.secret) (save_cap-Keeps t f _) (Keeps-pure _)
