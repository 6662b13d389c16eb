-- ===== src/ArbExecutor/Sizing.antt =====
-- The size of a pair (`size_pair` of app/arb_executor.py): one base quantity for both legs, on the
-- coarser of their grids, checked against each leg's own venue.
pub mod Minimums
use mochi_position_manager.Prelude.{
  ℕ, ◌+◌, ◌*◌, ◌/◌, max, Bool, ◌&&◌, Option, none, some, List, [], ◌∷◌, ltb, ◌==◌, if◌then◌else◌,
  any_of,
}
use mochi_position_manager.Models.{price_unit}
use mochi_position_manager.ArbModels.{
  is_spot, SizeMode, SizingError, no_grid, no_notional, no_reference_price, below_coarse_step,
  below_venue_minimum, ArbLeg,
}
use mochi_position_manager.Session.{Result, ok, raised}
use mochi_position_manager.Exchange.{Adapter, Registry}
use mochi_position_manager.Portfolio.{compute_managed_qty, min_qty}
use mochi_position_manager.ArbExecutor.{snap_down, qty_eps}

-- `_leg_step`, `_leg_min_notional`, `_leg_ref_price`: what the leg's venue answers for its product.
unfoldable pub leg_step : Adapter → ArbLeg → Result ℕ
leg_step ex leg =
    if is_spot leg.product then ex.get_spot_step_size leg.symbol else ex.get_step_size leg.symbol

unfoldable pub leg_min_notional : Adapter → ArbLeg → Result ℕ
leg_min_notional ex leg =
    if is_spot leg.product
    then ex.get_spot_min_notional leg.symbol
    else ex.get_min_notional leg.symbol

abbrev pub leg_ref_price : Adapter → ArbLeg → Result ℕ
leg_ref_price ex leg = ex.get_price leg.symbol

-- A leg with its own account's adapter.
pub record Venue : Type 0 where
  pub leg : ArbLeg
  pub ex : Adapter

-- The outcome of the sizing: a quantity, or the `SizingError` that is raised.
pub data Sized : Type 0 where
  sized : ℕ → Sized
  unsized : SizingError → Sized

-- A step that asks a venue, and one that may end in a `SizingError`.
abbrev pub asked : {A B : Type 0} → Result A → (A → Result B) → Result B
asked (ok a) k = k a
asked (raised e) k = raised e

abbrev pub and_then : Sized → (ℕ → Result Sized) → Result Sized
and_then (sized qty) k = k qty
and_then (unsized e) k = ok (unsized e)

unfoldable pub venues_of : Registry → List ArbLeg → Result (List Venue)
venues_of registry [] = ok []
venues_of registry (leg ∷ legs) =
    let rest = venues_of registry legs in
    asked (registry leg.exchange leg.account)
      λ ex. asked rest λ vs. ok (record { leg = leg; ex = ex } ∷ vs)

unfoldable pub steps_of : List Venue → Result (List ℕ)
steps_of [] = ok []
steps_of (v ∷ vs) =
    let rest = steps_of vs in
    asked (leg_step v.ex v.leg) λ step. asked rest λ steps. ok (step ∷ steps)

-- `max(steps)`.
abbrev pub coarsest : List ℕ → ℕ
coarsest [] = 0
coarsest (step ∷ steps) = max step (coarsest steps)

-- The perp leg, or the first one.
abbrev pub reference : Venue → List Venue → Venue
reference first [] = first
reference first (v ∷ vs) = if is_spot v.leg.product then reference first vs else v

-- `_leg_ref_price(ex, leg) or ref_price`.
abbrev pub price_or : (price ref_price : ℕ) → ℕ
price_or price ref_price = if price == 0 then ref_price else price

-- `_MIN_NOTIONAL_BUFFER`: 1.2. The venues' minimums are multiples of 5 on the grid of money.
abbrev pub padded : ℕ → ℕ
padded least = least * 12 / 10

-- The largest quantity that a leg's padded minimum asks for, and one coarse step at least.
unfoldable pub largest_minimum : (ref_price coarse : ℕ) → List Venue → Result ℕ
largest_minimum ref_price coarse [] = ok coarse
largest_minimum ref_price coarse (v ∷ vs) =
    let rest = largest_minimum ref_price coarse vs in
    asked (leg_min_notional v.ex v.leg) λ least. asked (leg_ref_price v.ex v.leg) λ price.
      asked rest λ most. ok (max (min_qty (padded least) (price_or price ref_price) coarse) most)

-- `size_mode="min"`.
abbrev pub minimum_qty : (ref_price coarse : ℕ) → List Venue → Result Sized
minimum_qty ref_price coarse vs =
    asked (largest_minimum ref_price coarse vs)
      λ most. ok (sized (max (snap_down most coarse) coarse))

-- `size_mode="notional"`.
unfoldable pub notional_qty : (notional : Option ℕ) (ref_price coarse : ℕ) → Sized
notional_qty none ref_price coarse = unsized no_notional
notional_qty (some notional) ref_price coarse =
    let qty = compute_managed_qty notional ref_price coarse in
    if notional == 0
    then unsized no_notional
    else if qty == 0
    then unsized (below_coarse_step notional coarse ref_price)
    else sized qty

abbrev pub qty_of :
    SizeMode → (notional : Option ℕ) (ref_price coarse : ℕ) → List Venue → Result Sized
qty_of SizeMode.minimum notional ref_price coarse vs = minimum_qty ref_price coarse vs
qty_of SizeMode.notional notional ref_price coarse vs = ok (notional_qty notional ref_price coarse)

-- `_QTY_EPS`, 1e-12, against an amount of money.
abbrev pub money_eps : ℕ
money_eps = qty_eps * price_unit

abbrev pub too_small : (qty price min_notional : ℕ) → Bool
too_small qty price min_notional = ltb 0 min_notional && ltb (qty * price + money_eps) min_notional

-- The check of each leg against its own venue's minimum, in the legs' order.
unfoldable pub rechecked : (qty ref_price : ℕ) → List Venue → Result Sized
rechecked qty ref_price [] = ok (sized qty)
rechecked qty ref_price (v ∷ vs) =
    let rest = rechecked qty ref_price vs in
    asked (leg_ref_price v.ex v.leg) λ price. asked (leg_min_notional v.ex v.leg) λ least.
      if too_small qty (price_or price ref_price) least
      then ok (
          unsized (
            below_venue_minimum v.leg.exchange v.leg.product v.leg.symbol qty
              (price_or price ref_price) least))
      else rest

-- The rest of `size_pair`, once the steps and the reference price are known.
abbrev pub size_at :
    SizeMode
    → (notional : Option ℕ) → (ref : Venue) → List Venue
    → (coarse ref_price : ℕ) → Result Sized
size_at mode notional ref vs coarse ref_price =
    if ref_price == 0
    then ok (unsized (no_reference_price ref.leg.exchange ref.leg.symbol))
    else asked (qty_of mode notional ref_price coarse vs)
        λ size. and_then size λ qty. rechecked qty ref_price vs

unfoldable pub size_venues : SizeMode → (notional : Option ℕ) → List Venue → Result Sized
size_venues mode notional [] = raised "max() arg is an empty sequence"
size_venues mode notional (v ∷ vs) = asked (steps_of (v ∷ vs)) λ steps.
    if any_of (λ step. step == 0) steps
    then ok (unsized no_grid)
    else asked (leg_ref_price (reference v (v ∷ vs)).ex (reference v (v ∷ vs)).leg)
        λ price. size_at mode notional (reference v (v ∷ vs)) (v ∷ vs) (coarsest steps) price

-- `size_pair`.
unfoldable pub size_pair : Registry → SizeMode → (notional : Option ℕ) → List ArbLeg → Result Sized
size_pair registry mode notional legs =
    asked (venues_of registry legs) λ vs. size_venues mode notional vs
