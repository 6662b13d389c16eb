-- ===== src/Soundness/KillSwitch.antt =====
-- The kill switch of the risk form (app/routes/admin.py, save_risk), and what may happen after it.
use mochi_position_manager.Prelude.{
  ℕ, String, ◌≡◌, refl, sym, ap, ◌∙◌, true, false, subst, if◌then◌else◌, Bool, Option, none, some,
  [], ◌∷◌, arith,
}
use mochi_position_manager.Models.{RiskSettings}
use mochi_position_manager.Session.{Session, Result, ok, raised, pure, bind-ok, session_scope}
use mochi_position_manager.Routing.Build.{Texts}
use mochi_position_manager.Portfolio.{get_risk_settings, update_risk_settings, store_risk}
use mochi_position_manager.Admin.Risk.{RiskForm, RiskAnswer, cap_of, save_cap, save_risk}
use mochi_position_manager.Admin.{has_secret, form_bool}
use mochi_position_manager.Soundness.System.{Steps}
use mochi_position_manager.Soundness.Halted.{IsHalted}
use mochi_position_manager.Soundness.Intake.{Intake, Halts, Steps-Halts}

-- The session of the form: it stores the row and commits.
abbrev with_risk : RiskSettings → Session → Session
with_risk risk s =
    let d = record s.current { risk_settings = some risk } in
    record s { current = d; commits = d ∷ s.commits }

stored :
    (cap : ℕ) (on : Bool) (o : Option RiskSettings) (s : Session)
    → s.current.risk_settings ≡ o
    → let risk : RiskSettings = record { per_order_max_notional = cap; kill_switch = on } in
      session_scope (update_risk_settings (some cap) (some on)) s ≡ (ok risk, with_risk risk s)
unfolding session_scope update_risk_settings get_risk_settings store_risk
stored cap on none s e = ground arith
stored cap on (some r) s e = ground arith

module _ (t : Texts) (f : RiskForm) (s : Session) where
  saved_cap :
      (cap : ℕ)
      → save_cap t f (ok cap) s ≡ (
        ok RiskAnswer.saved,
        with_risk
            (record { per_order_max_notional = cap; kill_switch = form_bool t.lower f.kill_switch })
            s,
      )
  unfolding save_cap
  saved_cap cap =
      let e = stored cap (form_bool t.lower f.kill_switch) s.current.risk_settings s refl in
      bind-ok
        (session_scope (update_risk_settings (some cap) (some (form_bool t.lower f.kill_switch))))
        (λ _. pure RiskAnswer.saved) s _ (ap (λ p. p.0) e)
      ∙ ap (λ p. (ok RiskAnswer.saved, p.1)) e

  -- What the form leaves when it says that it saved a ticked kill switch.
  module _ (ticked : form_bool t.lower f.kill_switch ≡ true) where
    answered-IsHalted :
        (authorized : Bool) (cap : Result ℕ)
        → let p = (if authorized then save_cap t f cap else pure RiskAnswer.denied) s in
          p.0 ≡ ok RiskAnswer.saved → IsHalted p.1.current p.1.current
    unfolding save_cap
    answered-IsHalted false cap done = cc done
    answered-IsHalted true (raised e) done = cc done
    answered-IsHalted true (ok cap) done =
        subst (λ p. IsHalted p.1.current p.1.current) (sym (saved_cap cap))
          (record { risk = _; row = refl; on = ticked; no_pair = refl })

    save_risk-IsHalted :
        (expected : String)
        → (save_risk t expected f s).0 ≡ ok RiskAnswer.saved
        → IsHalted (save_risk t expected f s).1.current (save_risk t expected f s).1.current
    unfolding save_risk
    save_risk-IsHalted expected done =
        answered-IsHalted (has_secret expected f.secret)
          (cap_of t (t.strip f.per_order_max_notional)) done

-- A session after another one: its commits are counted afresh.
abbrev pub restarted : Session → Session
restarted s = record s { commits = [] }

-- The kill switch of the risk form halts new orders: once the form was saved with the switch ticked,
-- whatever signals, orders fired by hand, requests to open a pair and polls follow, in any order and
-- whatever the venues answer, only cancels are sent, the switch stays on, and the pairs of the
-- funding-arb book stay as they were, in every state that is committed too. Retries, and the work on
-- pairs that were taken on before, are not among these handlers.
pub save_risk-Halts :
    (t : Texts) (expected : String) (f : RiskForm) (s : Session) {now : Session}
    → (save_risk t expected f s).0 ≡ ok RiskAnswer.saved
    → form_bool t.lower f.kill_switch ≡ true
    → Steps Intake (restarted (save_risk t expected f s).1) now
    → Halts (save_risk t expected f s).1.current (restarted (save_risk t expected f s).1) now
save_risk-Halts t expected f s done ticked steps =
    Steps-Halts _ steps (save_risk-IsHalted t f s ticked expected done, tt)
