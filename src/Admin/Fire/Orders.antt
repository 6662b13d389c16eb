-- ===== src/Admin/Fire/Orders.antt =====
-- The orders that a form fires.
use mochi_position_manager.Prelude.{
  ℕ, ◌≡◌, refl, ap, inl, inr, Bool-cases, String, Bool, true, Option, none, some, List, [], length,
  ◌==◌,
}
use mochi_position_manager.Prelude.Int.{ℤ, pos, negsuc, pos_part}
use mochi_position_manager.Models.{Side, RiskSettings, default_risk}
use mochi_position_manager.Session.{Sent, Session, Result, ok, raised, session_scope}
use mochi_position_manager.Config.{Env}
use mochi_position_manager.Routing.{StrategyRoute, enabled_venues}
use mochi_position_manager.Portfolio.{store_risk, get_risk_settings}
use mochi_position_manager.Soundness.Only.{
  Allowed, Only, Only-test, Only-pure, Only-bind, Only-session_scope,
}
use mochi_position_manager.Webhook.Endpoint.{has_key}
use mochi_position_manager.Admin.{has_secret}
use mochi_position_manager.Admin.Fire.{
  FireRequest, FireAnswer, Quantity, add_manual_alert, fire_checked, fire_with, fire_quantity,
  fire_price, fire_side, fire_limit,
}
use mochi_position_manager.Admin.Fire.Sends.{Fires, venues-Fires}

-- The risk settings that the form's handler reads: a missing row is made with the defaults.
abbrev pub risk_of : Option RiskSettings → RiskSettings
risk_of none = default_risk
risk_of (some r) = r

-- A session that reads the settings sends nothing.
risk-read :
    (o : Option RiskSettings) (s : Session)
    → s.current.risk_settings ≡ o
    → ((session_scope get_risk_settings s).0 ≡ ok (risk_of o))
      × ((session_scope get_risk_settings s).1.sent ≡ s.sent)
unfolding session_scope get_risk_settings store_risk
risk-read none s e = rw e (refl, refl)
risk-read (some r) s e = rw e (refl, refl)

module _ (env : Env) (route : StrategyRoute) (f : FireRequest) (side : Side) (limit_price : ℕ)
    (explicit : Option ℕ) where
  alert-Only : {Q : Sent → Type 0} → Only Q (add_manual_alert env.now limit_price side f)
  unfolding add_manual_alert
  alert-Only = record {
    run = λ s. elim (Bool-cases (has_key f.key s.current.alerts)) [
      | inl b ↦ rw b ([], tt, refl)
      | inr b ↦ rw b ([], tt, refl)
    ];
  }

  checked-Fires :
      (risk : RiskSettings) (authorized : Bool)
      → authorized ≡ true
      → Only
          (Fires route limit_price risk authorized)
          (fire_checked env route f side limit_price explicit risk)
  unfolding fire_checked
  checked-Fires risk authorized a =
      Only-test risk.kill_switch (λ e. Only-pure _)
        λ e. Only-bind (Only-session_scope alert-Only) λ alert_id.
          Only-bind
            (venues-Fires env route limit_price risk authorized a e alert_id explicit
              (enabled_venues route) (λ v i. i))
            (λ ns. Only-pure _)

  with-Fires :
      (authorized : Bool) (s : Session)
      → authorized ≡ true
      → Allowed
          (Fires route limit_price (risk_of s.current.risk_settings) authorized)
          s.sent
          (fire_with env route f side limit_price explicit s).1.sent
  with-Fires authorized s a =
      go (session_scope get_risk_settings s) (risk-read s.current.risk_settings s refl)
    where
      go :
          (p : Result RiskSettings × Session)
          → (p.0 ≡ ok (risk_of s.current.risk_settings)) × (p.1.sent ≡ s.sent)
          → Allowed
              (Fires route limit_price (risk_of s.current.risk_settings) authorized)
              s.sent
              (elim p.0 as (λ _. Result FireAnswer × Session) [
                | ok risk ↦ fire_checked env route f side limit_price explicit risk p.1
                | raised e ↦ (raised e, p.1)
              ]).1.sent
      go (r, t) (e, k) =
          rw e (rw (← k) ((checked-Fires (risk_of s.current.risk_settings) authorized a).run t))

-- What the form may send from a session on.
abbrev pub FormSends :
    StrategyRoute → FireRequest → (authorized : Bool) → (before : Session) → List Sent → Type 0
FormSends route f authorized before now =
    Allowed (Fires route (pos_part f.limit_price) (risk_of before.current.risk_settings) authorized)
      before.sent now

module _ (env : Env) (route : StrategyRoute) (f : FireRequest) (authorized : Bool)
    (fits : authorized ≡ true) (s : Session) where
  quantity-Sends :
      (side : Side) (price : ℕ) (q : Quantity)
      → pos_part f.limit_price ≡ price
      → FormSends route f authorized s (fire_quantity env route f side price q s).1.sent
  quantity-Sends side price Quantity.blank e =
      rw e (with-Fires env route f side price none authorized s fits)
  quantity-Sends side price Quantity.not_a_number e = ([], tt, refl)
  quantity-Sends side price (Quantity.number (negsuc n)) e = ([], tt, refl)
  quantity-Sends side price (Quantity.number (pos n)) e = elim (Bool-cases (n == 0)) [
    | inl b ↦ rw b ([], tt, refl)
    | inr b ↦ rw (b, e) (with-Fires env route f side price (some n) authorized s fits)
  ]

  price-Sends :
      (side : Side) (price : ℤ)
      → f.limit_price ≡ price
      → FormSends route f authorized s (fire_price env (some route) f side price s).1.sent
  price-Sends side (negsuc n) e = ([], tt, refl)
  price-Sends side (pos n) e = elim (Bool-cases (n == 0)) [
    | inl b ↦ rw b ([], tt, refl)
    | inr b ↦ elim (Bool-cases (length (enabled_venues route) == 0)) [
      | inl c ↦ rw (b, c) ([], tt, refl)
      | inr c ↦ rw (b, c) (quantity-Sends side n f.quantity (ap pos_part e))
    ]
  ]

  side-Sends :
      (side : Option Side)
      → FormSends route f authorized s (fire_side env (some route) f side s).1.sent
  side-Sends none = ([], tt, refl)
  side-Sends (some side) = price-Sends side f.limit_price refl

-- What a form may fire, if its price and quantity are finite numbers or no numbers at all: whatever the venues
-- answer, every order that it sends is a limit order at its price, of a quantity above zero, at an enabled venue of the strategy, worth no more than the cap of the
-- risk settings if there is one, and it sends one only if its secret is right and the kill switch is off.
pub fire_limit-Fires :
    (env : Env) (expected : String) (route : StrategyRoute) (f : FireRequest) (s : Session)
    → FormSends route f
        (has_secret expected f.secret)
        s
        (fire_limit env expected (some route) f s).1.sent
unfolding fire_limit
fire_limit-Fires env expected route f s = elim (Bool-cases (has_secret expected f.secret)) [
  | inl b ↦ rw b (side-Sends env route f true refl s f.side)
  | inr b ↦ rw b ([], tt, refl)
]
