-- ===== src/Soundness/Halted.antt =====
-- The kill switch in the tables, and what a signal or an order that is fired by hand sends while it
-- is on.
use mochi_position_manager.Prelude.{
  ℕ, String, Bool, ◌++◌, ◌≡◌, refl, sym, ap, ◌∙◌, subst, inl, inr, true, ◌==◌, Option, none, some,
  List, [], ◌∷◌, All,
}
use mochi_position_manager.Prelude.Int.{ℤ, pos, negsuc}
use mochi_position_manager.Models.{Side, RiskSettings, Alert}
use mochi_position_manager.Session.{Db, Sent, Session, pure, session_scope}
use mochi_position_manager.Config.{Env}
use mochi_position_manager.Routing.{VenueRoute, StrategyRoute, enabled_venues}
use mochi_position_manager.Executor.Ledger.Agreement.{fill-arb, fill-risk}
use mochi_position_manager.Webhook.{handle, dispatch_venue, fan_out, run_fan_out}
use mochi_position_manager.Webhook.Dispatch.{dispatch_halted}
use mochi_position_manager.Admin.{has_secret}
use mochi_position_manager.Admin.Fire.{FireRequest, fire_limit, fire_side, fire_price}
use mochi_position_manager.Admin.Fire.Sends.{Fires}
use mochi_position_manager.Admin.Fire.Orders.{risk_of, fire_limit-Fires}
use mochi_position_manager.Soundness.{Stable, scope-current}
use mochi_position_manager.Soundness.Webhook.{dispatch_venue-Keeps, fan_out_one}
use mochi_position_manager.Soundness.Quiet.{Quiet, Quiet-pure, Quiet-if, leave-sent}
use mochi_position_manager.Soundness.Only.{Allowed, chained}

-- The kill switch is on, and the pairs of the funding-arb book are those of a given state.
pub record IsHalted (start d : Db) : Type 0 where
  pub risk : RiskSettings
  pub row : d.risk_settings ≡ some risk
  pub on : risk.kill_switch ≡ true
  pub no_pair : d.arb_positions ≡ start.arb_positions

-- The cancel of an order.
pub data IsCancel : Sent → Type 0 where
  cancelled :
      (exchange symbol order_id : String) → IsCancel (Sent.cancel_order exchange symbol order_id)

pub IsHalted-Stable : (start : Db) → Stable (IsHalted start)
IsHalted-Stable start = record {
  orders = λ d os h. record { risk = h.risk; row = h.row; on = h.on; no_pair = h.no_pair };
  risk = λ d e h. cc (e, h.row);
  fill = λ strategy_id exchange symbol side qty price now d h. record {
    risk = h.risk;
    row = fill-risk strategy_id exchange symbol side qty price now d ∙ h.row;
    on = h.on;
    no_pair = (fill-arb strategy_id exchange symbol side qty price now d).0 ∙ h.no_pair;
  };
}

-- One venue of a signal: its session sends a cancel at most.
scope-cancels :
    {start : Db} (env : Env) (alert : Alert) (route : StrategyRoute) (venue : VenueRoute) (q : ℕ)
    (s : Session)
    → IsHalted start s.current
    → Allowed IsCancel s.sent (session_scope (dispatch_venue env alert route venue q) s).1.sent
unfolding session_scope
scope-cancels env alert route venue q s h =
    let t : Session = record s { commits = [] } in
    let left = leave-sent s.current s.commits (dispatch_venue env alert route venue q t) in
    elim (dispatch_halted env alert route venue q t h.row h.on) [
      | inl e ↦ ([], tt, left ∙ e)
      | inr (w, e) ↦ (_ ∷ [], (IsCancel.cancelled w.exchange w.symbol (handle w), tt), left ∙ e)
    ]

empty_scope-sent : (s : Session) → (session_scope (pure (tt {0})) s).1.sent ≡ s.sent
unfolding session_scope
empty_scope-sent s = refl

fan_out-cancels :
    {start : Db} (env : Env) (alert_id : ℕ) (route : StrategyRoute) (q : ℕ)
    (venues : List VenueRoute) (s : Session)
    → IsHalted start s.current
    → Allowed IsCancel s.sent (fan_out env alert_id route q venues s).sent
unfolding fan_out
fan_out-cancels env alert_id route q [] s h = ([], tt, refl)
fan_out-cancels {start} env alert_id route q (venue ∷ venues) s h =
    elim (fan_out_one (IsHalted-Stable start) env alert_id route q venue venues s) [
      | inl e ↦ ([], tt, ap (λ t. t.sent) e ∙ empty_scope-sent s)
      | inr (alert, e) ↦
          subst (λ t. Allowed IsCancel s.sent t.sent) (sym e)
            (chained IsCancel s.sent _ _ (scope-cancels env alert route venue q s h) (
              fan_out-cancels env alert_id route q venues _ (
                scope-current {P = IsHalted start}
                  (dispatch_venue-Keeps (IsHalted-Stable start) env alert route venue q) s h)))
    ]

-- A form that fires sends nothing.
no_fires :
    (route : StrategyRoute) (price : ℕ) (risk : RiskSettings) (authorized : Bool)
    → risk.kill_switch ≡ true
    → (new : List Sent) → All (Fires route price risk authorized) new
    → new ≡ []
no_fires route price risk authorized on [] h = refl
no_fires route price risk authorized on (c ∷ new) (h, hs) = absurd (fires_off h)
  where
    fires_off : {c : Sent} → Fires route price risk authorized c → ⊥
    fires_off (Fires.fires venue side qty client_order_id a off known size cap) = cc (on, off)

-- Nor does one for a strategy that has no route.
fire_none-Quiet :
    (env : Env) (expected : String) (f : FireRequest) → Quiet (fire_limit env expected none f)
unfolding fire_limit
fire_none-Quiet env expected f =
    Quiet-if (has_secret expected f.secret) (asked f.side) (Quiet-pure _)
  where
    priced : (side : Side) (price : ℤ) → Quiet (fire_price env none f side price)
    priced side (negsuc n) = Quiet-pure _
    priced side (pos n) = Quiet-if (n == 0) (Quiet-pure _) (Quiet-pure _)

    asked : (o : Option Side) → Quiet (fire_side env none f o)
    asked none = Quiet-pure _
    asked (some side) = priced side f.limit_price

pub fire-sent :
    {start : Db} (env : Env) (expected : String) (route : Option StrategyRoute) (f : FireRequest)
    (s : Session)
    → IsHalted start s.current
    → (fire_limit env expected route f s).1.sent ≡ s.sent
fire-sent env expected (some route) f s h =
    let (new, all, e) = fire_limit-Fires env expected route f s in
    e ∙ ap (λ new. new ++ s.sent) (no_fires route _ _ _ (ap settings_kill h.row ∙ h.on) new all)
  where
    settings_kill : Option RiskSettings → Bool
    settings_kill o = (risk_of o).kill_switch
fire-sent env expected none f s h = (fire_none-Quiet env expected f).run s

pub run_fan_out-cancels :
    {start : Db} (env : Env) (alert_id : ℕ) (route : StrategyRoute) (q : ℕ) (s : Session)
    → IsHalted start s.current
    → Allowed IsCancel s.sent (run_fan_out env alert_id route q s).sent
unfolding run_fan_out
run_fan_out-cancels env alert_id route q s h =
    fan_out-cancels env alert_id route q (enabled_venues route) s h
