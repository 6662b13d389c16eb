-- ===== src/ArbExecutor/Opening/Fires.antt =====
-- One leg of an opening: whether its order was sent, however it ends.
use mochi_position_manager.Prelude.{
  ℕ, ◌≡◌, refl, ◌∙◌, subst, none, List, ◌∷◌, String, arith, if◌then◌else◌,
}
use mochi_position_manager.Models.{OrderResult}
use mochi_position_manager.ArbModels.{is_spot, ArbPosition, ArbLeg, ArbOrder}
use mochi_position_manager.Session.{Sent, Session, Result, ok, raised, Action, ◌>>=◌, lift}
use mochi_position_manager.Exchange.{Adapter}
use mochi_position_manager.Config.{Env}
use mochi_position_manager.Soundness.Quiet.{Quiet, quiet_laws, Quiet-lift, Quiet-modify}
use mochi_position_manager.ArbExecutor.Sizing.{leg_step, leg_ref_price}
use mochi_position_manager.ArbExecutor.Legs.{
  leg_order, arb_order_for, place_leg_order, perp_leverage, on_leg_success, on_leg_failure,
  execute_leg, tried, save_arb_order,
}
use mochi_position_manager.ArbExecutor.Opening.{finalize_with, finalize_arb}

pub on_leg_success-Quiet :
    (env : Env) (leg : ArbLeg) (o : ArbOrder) (r : OrderResult) (ref step : ℕ)
    → Quiet (on_leg_success env leg o r ref step)
unfolding on_leg_success
on_leg_success-Quiet env leg o r ref step = search quiet_laws

pub on_leg_failure-Quiet :
    (env : Env) (leg : ArbLeg) (o : ArbOrder) (r : OrderResult) → Quiet (on_leg_failure env leg o r)
unfolding on_leg_failure
on_leg_failure-Quiet env leg o r = search quiet_laws depth 8

-- The outcome of a leg: nothing was sent and it raised, or its order was sent.
pub data Fires (leg : ArbLeg) (start : List Sent) : Result ArbLeg × Session → Type 0 where
  silent : {e : String} {s : Session} → s.sent ≡ start → Fires leg start (raised e, s)
  fired :
      {r : Result ArbLeg} {s : Session} → s.sent ≡ leg_order leg ∷ start → Fires leg start (r, s)

module _ (leg : ArbLeg) where
  pub record FiresLeg (m : Action ArbLeg) : Type 0 where
    pub run : (s : Session) → Fires leg s.sent (m s)

  pub carried :
      {A : Type 0} (k : A → Action ArbLeg)
      → ((a : A) → FiresLeg (k a))
      → (start : List Sent) (p : Result A × Session) → p.1.sent ≡ start
      → Fires leg start (elim p.0 as (λ _. Result ArbLeg × Session) [
        | ok a ↦ k a p.1
        | raised e ↦ (raised e, p.1)
      ])
  carried k g start (ok a, s) h = subst (λ l. Fires leg l (k a s)) h ((g a).run s)
  carried k g start (raised e, s) h = Fires.silent h

  pub FiresLeg-bind :
      {A : Type 0} {m : Action A} {k : A → Action ArbLeg}
      → Quiet m
      → ((a : A) → FiresLeg (k a))
      → FiresLeg (m >>= k)
  FiresLeg-bind {m = m} {k = k} h g = record { run = λ s. carried k g s.sent (m s) (h.run s) }

  pub answered :
      (start : List Sent) (r : Result OrderResult) (k : OrderResult → Action ArbLeg) (s : Session)
      → s.sent ≡ leg_order leg ∷ start
      → ((a : OrderResult) → Quiet (k a))
      → Fires leg start ((lift r >>= k) s)
  answered start (ok a) k s h g = Fires.fired ((g a).run s ∙ h)
  answered start (raised e) k s h g = Fires.fired h

  pub placed-FiresLeg :
      (ex : Adapter) {k : OrderResult → Action ArbLeg}
      → ((r : OrderResult) → Quiet (k r))
      → FiresLeg (place_leg_order ex leg >>= k)
  unfolding place_leg_order
  placed-FiresLeg ex {k} g = record {
    run = λ s.
        answered s.sent
          (if is_spot leg.product
            then ex.spot_market_order leg.symbol leg.side leg.target_qty
            else ex.market_order leg.symbol leg.side leg.target_qty perp_leverage)
          k (record s { sent = leg_order leg ∷ s.sent }) refl g;
  }

pub finalize_arb-Quiet : (env : Env) (a : ArbPosition) → Quiet (finalize_arb env a)
unfolding finalize_arb finalize_with
finalize_arb-Quiet env a = search quiet_laws depth 8

pub settled-Quiet :
    (env : Env) (leg : ArbLeg) (o : ArbOrder) (ref step : ℕ) (r : OrderResult)
    → Quiet (
        if r.success
        then on_leg_success env leg (tried env.now o) r ref step
        else on_leg_failure env leg (tried env.now o) r)
settled-Quiet env leg o ref step r = search (quiet_laws, on_leg_success-Quiet, on_leg_failure-Quiet)

pub save_arb_order-Quiet : (o : ArbOrder) → Quiet (save_arb_order o)
save_arb_order-Quiet o = Quiet-modify _

pub arb_order_for-Quiet : (env : Env) (leg : ArbLeg) → Quiet (arb_order_for env leg none)
unfolding arb_order_for
arb_order_for-Quiet env leg = record { run = λ s. refl }

pub execute_leg-FiresLeg : (env : Env) (leg : ArbLeg) → FiresLeg leg (execute_leg env leg none)
unfolding execute_leg
execute_leg-FiresLeg env leg =
    FiresLeg-bind leg (Quiet-lift (env.registry leg.exchange leg.account)) λ ex.
      FiresLeg-bind leg (arb_order_for-Quiet env leg) λ found.
        FiresLeg-bind leg (save_arb_order-Quiet (tried env.now found)) λ u.
          FiresLeg-bind leg (Quiet-lift (leg_ref_price ex leg)) λ ref.
            FiresLeg-bind leg (Quiet-lift (leg_step ex leg))
              λ step. placed-FiresLeg leg ex (settled-Quiet env leg found ref step)

-- A leg that was filled: its order was sent.
pub fired_if-ok :
    (leg : ArbLeg) (start : List Sent) (p : Result ArbLeg × Session) (done : ArbLeg)
    → Fires leg start p
    → p.0 ≡ ok done
    → p.1.sent ≡ leg_order leg ∷ start
fired_if-ok leg start (raised e, s) done (Fires.silent h) k = ground arith
fired_if-ok leg start (r, s) done (Fires.fired h) k = h
