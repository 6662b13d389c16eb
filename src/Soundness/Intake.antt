-- ===== src/Soundness/Intake.antt =====
-- The handlers through which new orders and pairs come in, while the kill switch is on.
use mochi_position_manager.Prelude.{ℕ, String, ◌≡◌, refl, ◌∙◌, Option, none, some, List, [], arith}
use mochi_position_manager.ArbModels.{ArbPosition}
use mochi_position_manager.Session.{
  Db, Sent, Session, Result, ok, raised, Action, lift, ◌>>=◌, session_scope,
}
use mochi_position_manager.Config.{Env}
use mochi_position_manager.Routing.{StrategyRoute}
use mochi_position_manager.Portfolio.{get_risk_settings}
use mochi_position_manager.Webhook.{run_fan_out}
use mochi_position_manager.ArbRequest.{
  ArbOpenRequest, LegSpec, resolved, resolve_specs, accounts_known,
}
use mochi_position_manager.FundingArb.{
  Opened, open_new, open_in_session, arb_with_key, answer_duplicate, open_arb,
}
use mochi_position_manager.Admin.Fire.{FireRequest, fire_limit}
use mochi_position_manager.Soundness.{Sound}
use mochi_position_manager.Soundness.Webhook.{run_fan_out-Sound}
use mochi_position_manager.Soundness.Workers.{poll_working_orders-Sound}
use mochi_position_manager.Soundness.Form.{fire_limit-Keeps}
use mochi_position_manager.Soundness.ArbService.{poll_once-Keeps, poll_arb_once-Keeps}
use mochi_position_manager.Soundness.Polls.{
  poll_working_orders-Only, poll_once-Only, poll_arb_once-Only,
}
use mochi_position_manager.Soundness.System.{Steps}
use mochi_position_manager.LimitWorker.{poll_working_orders}
use mochi_position_manager.FundingWorker.{poll_once, poll_arb_once}
use mochi_position_manager.Soundness.Halted.{
  IsHalted, IsCancel, IsHalted-Stable, run_fan_out-cancels, fire-sent,
}
use mochi_position_manager.Soundness.Only.{Allowed, chained}

-- What a call leaves: a property of the tables that they had, and what was sent.
abbrev pub Unmoved : {A : Type 0} → (Db → Type 0) → Session → Result A × Session → Type 0
Unmoved P s p = (Sound P s → Sound P p.1) × (p.1.sent ≡ s.sent)

pub scope-Unmoved :
    (P : Db → Type 0) (m : Action Opened) (s : Session)
    → (r : Result Opened) × (m (record s { commits = [] }) ≡ (r, record s { commits = [] }))
    → Unmoved P s (session_scope m s)
unfolding session_scope
scope-Unmoved P m s (ok a, e) = rw e (λ h. (h.0, (h.0, h.1)), refl)
scope-Unmoved P m s (raised x, e) = rw e (λ h. h, refl)

module _ {start : Db} (env : Env) (req : ArbOpenRequest) where
  -- The request is answered without a write.
  pub open_new_halted :
      (specs : List (LegSpec × String)) (s : Session)
      → IsHalted start s.current
      → open_new env req specs s ≡ (raised "503 kill-switch is ON", s)
  unfolding open_new get_risk_settings
  open_new_halted specs s h = ground arith

  pub open_in_session_halted :
      (specs : List (LegSpec × String)) (s : Session)
      → IsHalted start s.current
      → (r : Result Opened) × (open_in_session env req specs s ≡ (r, s))
  unfolding open_in_session
  open_in_session_halted specs s h = looked (arb_with_key req.idempotency_key s.current)
    where
      looked :
          (o : Option ArbPosition)
          → (r : Result Opened) × ((elim o as (λ _. Result Opened × Session) [
            | none ↦ open_new env req specs s
            | some dup ↦ answer_duplicate dup s
          ])
              ≡ (r, s))
      looked none = (_, open_new_halted specs s h)
      looked (some dup) = (_, refl)

  pub open_arb_halted :
      (P : Db → Type 0) (s : Session) → IsHalted start s.current → Unmoved P s (open_arb env req s)
  unfolding open_arb
  open_arb_halted P s h =
      resolved_or (resolved env req.asset (resolve_specs req.legs))
        (accounts_known env.registry (resolve_specs req.legs))
    where
      resolved_or :
          (specs : Result (List (LegSpec × String))) (known : Result (Unit {0}))
          → Unmoved P s (
              (lift specs >>= λ specs.
              lift known >>= λ u. session_scope (open_in_session env req specs))
                s)
      resolved_or (raised e) known = (λ h. h, refl)
      resolved_or (ok specs) (raised e) = (λ h. h, refl)
      resolved_or (ok specs) (ok u) =
          scope-Unmoved P (open_in_session env req specs) s
            (open_in_session_halted specs (record s { commits = [] }) h)

-- A handler that is neither a retry nor the work on a pair that was taken on before: a signal, an order that
-- is fired by hand, a request to open a pair, and the polls.
pub data Intake : Session → Session → Type 0 where
  signalled :
      (env : Env) (alert_id : ℕ) (route : StrategyRoute) (quantity : ℕ) (s : Session)
      → Intake s (run_fan_out env alert_id route quantity s)
  fired :
      (env : Env) (expected : String) (route : Option StrategyRoute) (f : FireRequest) (s : Session)
      → Intake s (fire_limit env expected route f s).1
  requested : (env : Env) (req : ArbOpenRequest) (s : Session) → Intake s (open_arb env req s).1
  polled : (env : Env) (s : Session) → Intake s (poll_working_orders env s).1
  funded :
      (env : Env) (routes : List StrategyRoute) (s : Session) → Intake s (poll_once env routes s).1
  arb_funded : (env : Env) (s : Session) → Intake s (poll_arb_once env s).1

-- What stays while the kill switch is on.
abbrev pub Halts : (start : Db) → (before now : Session) → Type 0
Halts start before now = Sound (IsHalted start) now × Allowed IsCancel before.sent now.sent

pub sent_nothing : {before now : List Sent} → now ≡ before → Allowed IsCancel before now
sent_nothing e = ([], tt, e)

module _ (start : Db) where
  pub kept :
      {d e : Db}
      → e.risk_settings ≡ d.risk_settings
      → e.arb_positions ≡ d.arb_positions
      → IsHalted start d
      → IsHalted start e
  kept r a h = record { risk = h.risk; row = r ∙ h.row; on = h.on; no_pair = a ∙ h.no_pair }

  pub Intake-Halts : {s t : Session} → Intake s t → Sound (IsHalted start) s → Halts start s t
  Intake-Halts (Intake.signalled env alert_id route q s) h = (
    run_fan_out-Sound (IsHalted-Stable start) env alert_id route q s h,
    run_fan_out-cancels env alert_id route q s h.0,
  )
  Intake-Halts (Intake.fired env expected route f s) h = (
    (fire_limit-Keeps (IsHalted-Stable start) (λ d rows k. kept refl refl k) env expected route
          f).run
        s h,
    sent_nothing (fire-sent env expected route f s h.0),
  )
  Intake-Halts (Intake.requested env req s) h =
      let (sound, sent) = open_arb_halted env req (IsHalted start) s h.0 in
      (sound h, sent_nothing sent)
  Intake-Halts (Intake.polled env s) h = (
    poll_working_orders-Sound (IsHalted-Stable start) env s h,
    (poll_working_orders-Only env).run s,
  )
  Intake-Halts (Intake.funded env routes s) h = (
    (poll_once-Keeps env routes (λ d es k. kept refl refl k)).run s h,
    (poll_once-Only env routes).run s,
  )
  Intake-Halts (Intake.arb_funded env s) h = (
    (poll_arb_once-Keeps env (λ d es k. kept refl refl k)).run s h,
    (poll_arb_once-Only env).run s,
  )

  pub Steps-Halts : {s t : Session} → Steps Intake s t → Sound (IsHalted start) s → Halts start s t
  Steps-Halts (Steps.done s) h = (h, ([], tt, refl))
  Steps-Halts (Steps.next r rs) h =
      let (h', sent) = Intake-Halts r h in
      let (h'', sent') = Steps-Halts rs h' in (h'', chained IsCancel _ _ _ sent sent')
