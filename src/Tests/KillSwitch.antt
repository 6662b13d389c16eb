-- ===== src/Tests/KillSwitch.antt =====
-- The risk form with a ticked kill switch, and then a signal to sell against a resting entry.
use mochi_position_manager.Prelude.{◌≡◌, refl, none, [], ◌∷◌}
use mochi_position_manager.Session.{Session, ok, session_scope}
use mochi_position_manager.Routing.Build.{Texts}
use mochi_position_manager.Admin.{has_secret, form_bool}
use mochi_position_manager.Portfolio.{update_risk_settings, get_risk_settings, store_risk}
use mochi_position_manager.Webhook.{run_fan_out}
use mochi_position_manager.Admin.Risk.{RiskForm, RiskAnswer, cap_of, save_cap, save_risk}
use mochi_position_manager.Soundness.Intake.{Intake, Halts}
use mochi_position_manager.Soundness.System.{Steps}
use mochi_position_manager.Soundness.KillSwitch.{restarted, save_risk-Halts}
use mochi_position_manager.Tests.Data.{env, route, buy_alert, sell_alert, resting_db, in_db}

abbrev texts : Texts
texts = record { strip = λ s. s; lower = λ s. s; upper = λ s. s; read_number = λ s. none }

abbrev form : RiskForm
form = record { secret = "s"; per_order_max_notional = ""; kill_switch = "on" }

abbrev before : Session
before = in_db (record resting_db { alerts = buy_alert ∷ sell_alert ∷ [] })

abbrev saved : Session
saved = (save_risk texts "s" form before).1

abbrev signalled : Session
signalled = run_fan_out env 2 route 0 (restarted saved)

save_risk-Halts_example : Halts saved.current (restarted saved) signalled
unfolding save_risk save_cap cap_of form_bool has_secret session_scope update_risk_settings
    get_risk_settings store_risk
save_risk-Halts_example =
    save_risk-Halts texts "s" form before refl refl
      (Steps.next (Intake.signalled env 2 route 0 (restarted saved)) (Steps.done signalled))

-- A wrong secret changes nothing, and a cap that is no number is refused.
test_denied : save_risk texts "other" form before ≡ (ok RiskAnswer.denied, before)
unfolding save_risk has_secret
test_denied = refl

test_invalid :
    (save_risk texts "s" (record form { per_order_max_notional = "much" }) before).1 ≡ before
unfolding save_risk save_cap cap_of has_secret
test_invalid = refl
