-- ===== src/ArbExecutor/Closing/Sales.antt =====
-- What closing one leg sends.
use native.Mathlib.Nat.{div-mul-le_self}
use mochi_position_manager.Prelude.{
  ℕ, ◌+◌, ◌*◌, ◌≤◌, ◌<◌, ◌≡◌, inl, inr, Bool-cases, true, false, ◌||◌, min, arith, leb, ◌==◌,
}
use mochi_position_manager.Models.{sell, OrderResult}
use mochi_position_manager.ArbModels.{is_spot, is_closed, ArbLeg}
use mochi_position_manager.Session.{Sent, ok}
use mochi_position_manager.Exchange.{Adapter}
use mochi_position_manager.Config.{Env}
use mochi_position_manager.Soundness.Only.{
  Only, only_laws, Only-send, Only-test, Only-asked, Only-lift, Only-pure, Only-bind,
}
use mochi_position_manager.ArbExecutor.{snap_down, dust_inverse, qty_eps}
use mochi_position_manager.ArbExecutor.Sizing.{leg_step}
use mochi_position_manager.ArbExecutor.Closing.{
  base_asset_of_leg, close_mark, settle_close, close_perp, sell_spot, close_spot, close_leg,
}

-- The orders that may be sent for a leg: the close of its whole perp position, or a sale of spot that
-- exceeds neither what the leg filled nor what is free at the leg's venue, but for the dust tolerance
-- of a division.
pub data ClosesLeg (env : Env) (leg : ArbLeg) : Sent → Type 0 where
  flattens :
      is_closed leg.status ≡ false
      → is_spot leg.product ≡ false
      → ClosesLeg env leg (Sent.close_position leg.exchange leg.account leg.symbol)
  sells :
      (ex : Adapter) (free step qty : ℕ)
      → is_closed leg.status ≡ false
      → is_spot leg.product ≡ true
      → env.registry leg.exchange leg.account ≡ ok ex
      → ex.get_spot_balance (base_asset_of_leg env.upper leg.symbol) ≡ ok free
      → leg_step ex leg ≡ ok step
      → qty_eps < qty
      → qty * dust_inverse ≤ leg.filled_qty * dust_inverse + step
      → qty * dust_inverse ≤ free * dust_inverse + step
      → ClosesLeg env leg (Sent.spot_market_order leg.exchange leg.account leg.symbol sell qty)

-- Snapping down exceeds a quantity by the dust tolerance at most.
pub snap_down_dust : (q s : ℕ) → snap_down q s * dust_inverse ≤ q * dust_inverse + s
unfolding snap_down
snap_down_dust q s = elim (Bool-cases (q == 0 || s == 0)) [
  | inl e ↦ rw e (omega arith)
  | inr e ↦ rw e (grind (arith, div-mul-le_self (q * dust_inverse + s) (s * dust_inverse)))
]

clamped_left :
    (a b q s : ℕ)
    → q * dust_inverse ≤ min a b * dust_inverse + s
    → q * dust_inverse ≤ a * dust_inverse + s
clamped_left a b q s h = omega (arith, h)

clamped_right :
    (a b q s : ℕ)
    → q * dust_inverse ≤ min a b * dust_inverse + s
    → q * dust_inverse ≤ b * dust_inverse + s
clamped_right a b q s h = omega (arith, h)

module _ (env : Env) where
  settle_close-Only :
      (leg : ArbLeg) (mark qty : ℕ) (r : OrderResult)
      → Only (ClosesLeg env leg) (settle_close env leg mark qty r)
  unfolding settle_close
  settle_close-Only leg mark qty r =
      Only-test r.success (λ e. search only_laws) (λ e. search only_laws)

  close_perp-Only :
      (ex : Adapter) (leg : ArbLeg)
      → is_closed leg.status ≡ false
      → is_spot leg.product ≡ false
      → Only (ClosesLeg env leg) (close_perp env ex leg)
  unfolding close_perp
  close_perp-Only ex leg h k = Only-bind (Only-send _ (ClosesLeg.flattens h k)) λ u.
      Only-bind (Only-lift (ex.close_position leg.symbol))
        λ r. settle_close-Only leg (close_mark ex leg) leg.filled_qty r

  module _ (ex : Adapter) (leg : ArbLeg) (h : is_closed leg.status ≡ false)
      (k : is_spot leg.product ≡ true) (known : env.registry leg.exchange leg.account ≡ ok ex) where
    sell_spot-Only :
        (free step qty : ℕ)
        → ex.get_spot_balance (base_asset_of_leg env.upper leg.symbol) ≡ ok free
        → leg_step ex leg ≡ ok step
        → qty * dust_inverse ≤ leg.filled_qty * dust_inverse + step
        → qty * dust_inverse ≤ free * dust_inverse + step
        → Only (ClosesLeg env leg) (sell_spot env ex leg qty)
    unfolding sell_spot
    sell_spot-Only free step qty f g a b =
        Only-test (leb qty qty_eps) (λ e. search only_laws)
          λ e.
            Only-bind
              (Only-send _ (ClosesLeg.sells ex free step qty h k known f g (ground (arith, e)) a b))
              λ u.
                Only-bind (Only-lift (ex.spot_market_order leg.symbol sell qty))
                  λ r. settle_close-Only leg (close_mark ex leg) qty r

    close_spot-Only : Only (ClosesLeg env leg) (close_spot env ex leg)
    unfolding close_spot
    close_spot-Only =
        Only-asked (ex.get_spot_balance (base_asset_of_leg env.upper leg.symbol)) λ free f.
          Only-asked (leg_step ex leg) λ step g.
            let q = min leg.filled_qty free in
            let dust = snap_down_dust q step in
            sell_spot-Only free step (snap_down q step) f g (clamped_left _ _ _ _ dust)
              (clamped_right _ _ _ _ dust)

  pub close_leg-Only : (leg : ArbLeg) → Only (ClosesLeg env leg) (close_leg env leg)
  unfolding close_leg
  close_leg-Only leg =
      Only-test (is_closed leg.status) (λ e. Only-pure _)
        λ e. Only-asked (env.registry leg.exchange leg.account) λ ex known.
          Only-test (is_spot leg.product) (λ k. close_spot-Only ex leg e k known)
            (close_perp-Only ex leg e)
