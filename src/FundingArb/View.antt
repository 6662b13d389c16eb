-- ===== src/FundingArb/View.antt =====
-- The status of a pair (app/routes/funding_arb.py): the marks of its legs, its profit, its neutrality, and
-- the two routes that show it. A view is built within a session; times are numbers.
use mochi_position_manager.Prelude.{
  ℕ, ◌+◌, ◌*◌, ◌^◌, max, String, Bool, true, false, Option, none, some, List, [], ◌∷◌, map, leb,
  ltb, every, if◌then◌else◌,
}
use mochi_position_manager.Prelude.Int.{ℤ, pos, abs, ◌+ℤ◌}
use mochi_position_manager.Prelude.Table.{string_key, pair_key, lookup, upsert}
use mochi_position_manager.Models.{signed_qty}
use mochi_position_manager.ArbModels.{
  is_spot, is_filled, is_closed, ArbStatus, ArbMessage, ArbPosition, ArbLeg,
}
use mochi_position_manager.Session.{Db, Result, ok, raised, value_or}
use mochi_position_manager.Exchange.{PositionDetail}
use mochi_position_manager.Config.{Env}
use mochi_position_manager.ArbExecutor.Sizing.{asked}
use mochi_position_manager.ArbExecutor.Legs.{arb_of, legs_of}
use mochi_position_manager.ArbFunding.{leg_funding}
use mochi_position_manager.ArbPnl.{LegPnlInput, ArbPnlResult, compute_arb_pnl}

abbrev detail_mark : Result PositionDetail → ℕ
detail_mark (ok d) = d.mark
detail_mark (raised e) = 0

-- `_perp_mark`.
unfoldable pub perp_mark : Env → ArbLeg → ℕ
perp_mark env lg =
    detail_mark (asked (env.registry lg.exchange lg.account) λ ex. ex.get_position_detail lg.symbol)

-- `_spot_mark`: the entry if there is no price.
unfoldable pub spot_mark : Env → ArbLeg → ℕ
spot_mark env lg =
    let px =
      value_or (asked (env.registry lg.exchange lg.account) λ ex. ex.get_price lg.symbol) 0 in
    if ltb 0 px then px else lg.avg_fill

-- A closed leg is marked at its entry.
unfoldable pub mark_of : Env → ArbLeg → ℕ
mark_of env lg =
    if is_closed lg.status
    then lg.avg_fill
    else if is_spot lg.product
    then spot_mark env lg
    else perp_mark env lg

abbrev pub leg_pnl_input : Env → Db → ArbPosition → ArbLeg → LegPnlInput
leg_pnl_input env d arb lg = record {
  exchange = lg.exchange;
  account = lg.account;
  product = lg.product;
  symbol = lg.symbol;
  side = lg.side;
  filled = lg.filled_qty;
  avg_fill = lg.avg_fill;
  mark = mark_of env lg;
  funding = leg_funding env.now d.arb_funding_events arb lg;
  commission = lg.commission;
}

-- `_leg_pnl_inputs`.
abbrev pub leg_pnl_inputs : Env → Db → ArbPosition → List ArbLeg → List LegPnlInput
leg_pnl_inputs env d arb legs = map (leg_pnl_input env d arb) legs

-- `_coarse_grid_step`: the largest stored step, or for old legs the largest that the venues give.
abbrev pub live_step : Env → ArbLeg → ℕ
live_step env lg =
    value_or
      (asked (env.registry lg.exchange lg.account) λ ex.
        if is_spot lg.product then ex.get_spot_step_size lg.symbol else ex.get_step_size lg.symbol)
      0

abbrev pub largest : (ArbLeg → ℕ) → List ArbLeg → ℕ
largest f [] = 0
largest f (lg ∷ legs) = max (f lg) (largest f legs)

unfoldable pub coarse_grid_step : Env → List ArbLeg → ℕ
coarse_grid_step env legs =
    let stored = largest (λ lg. lg.grid_step) legs in
    if ltb 0 stored then stored else largest (live_step env) legs

-- 1e-9 of the base asset.
abbrev pub near_zero : ℕ
near_zero = 1000

-- |skew| <= step / 2 + step * 1e-9, times 2 * 10^9.
abbrev pub within_grid : (step : ℕ) (skew : ℤ) → Bool
within_grid step skew =
    if ltb 0 step
    then leb (2 * 10 ^ 9 * abs skew) (10 ^ 9 * step + 2 * step)
    else leb (abs skew) near_zero

-- `_pair_neutral`.
unfoldable pub pair_neutral : Env → List ArbLeg → (skew : ℤ) (all_success : Bool) → Bool
pair_neutral env legs skew false = false
pair_neutral env legs skew true = within_grid (coarse_grid_step env legs) skew

abbrev pub skew_of : List ArbLeg → ℤ
skew_of [] = pos 0
skew_of (lg ∷ legs) = signed_qty lg.side lg.filled_qty +ℤ skew_of legs

abbrev pub all_success : List ArbLeg → Bool
all_success [] = false
all_success (lg ∷ legs) = every (λ l. is_filled l.status) (lg ∷ legs)

abbrev pub realized_of : List ArbLeg → ℤ
realized_of [] = pos 0
realized_of (lg ∷ legs) = lg.realized_pnl +ℤ realized_of legs

abbrev pub LegKey : Type 0
LegKey = String × (String × String)

abbrev pub key_of : ArbLeg → LegKey
key_of lg = (lg.exchange, (lg.account, lg.symbol))

abbrev pub input_key : LegPnlInput → LegKey
input_key i = (i.exchange, (i.account, i.symbol))

-- A dictionary of the inputs by exchange, account and symbol; a later one takes the place of an
-- earlier one.
unfoldable pub by_key :
    {A : Type 0} → (LegPnlInput → A) → List LegPnlInput → List (LegKey × A) → List (LegKey × A)
by_key f [] table = table
by_key f (i ∷ inputs) table = by_key f inputs (upsert (input_key i) (f i) table)

pub record ArbLegView : Type 0 where
  pub leg : ArbLeg
  pub funding : ℤ

abbrev pub leg_view : ArbLeg → Option ℤ → ArbLegView
leg_view lg none = record { leg = lg; funding = lg.funding }
leg_view lg (some f) = record { leg = lg; funding = f }

pub record ArbPositionView : Type 0 where
  pub arb_id : ℕ
  pub asset : String
  pub status : ArbStatus
  pub neutral : Bool
  pub neutrality_skew : ℤ
  pub legs : List ArbLegView
  pub pnl : ArbPnlResult
  pub opened_at : Option ℕ
  pub closed_at : Option ℕ
  pub error_message : ArbMessage

-- `_position_view`, with a session.
unfoldable pub position_view : Env → Db → ArbPosition → List ArbLeg → ArbPositionView
position_view env d arb legs =
    let inputs = leg_pnl_inputs env d arb legs in
    let per_leg_funding = by_key (λ i. i.funding) inputs [] in
    let skew = skew_of legs in
    record {
      arb_id = arb.id;
      asset = arb.asset;
      status = arb.status;
      neutral = pair_neutral env legs skew (all_success legs);
      neutrality_skew = skew;
      legs = map (λ lg. leg_view lg (lookup (key_of lg) per_leg_funding)) legs;
      pnl = compute_arb_pnl inputs (pos 0) (realized_of legs);
      opened_at = arb.opened_at;
      closed_at = arb.closed_at;
      error_message = arb.error_message;
    }

-- `order_by(ArbPosition.id.desc())`.
unfoldable pub insert_newest : ArbPosition → List ArbPosition → List ArbPosition
insert_newest a [] = a ∷ []
insert_newest a (b ∷ bs) = if leb b.id a.id then a ∷ b ∷ bs else b ∷ insert_newest a bs

unfoldable pub newest_first : List ArbPosition → List ArbPosition
newest_first [] = []
newest_first (a ∷ arbs) = insert_newest a (newest_first arbs)

-- `list_positions`.
unfoldable pub list_positions : Env → Db → List ArbPositionView
list_positions env d =
    map (λ arb. position_view env d arb (legs_of arb.id d)) (newest_first d.arb_positions)

-- `get_position`: 404 if there is no such pair.
unfoldable pub get_position : Env → (arb_id : ℕ) → Db → Option ArbPositionView
get_position env arb_id d = elim (arb_of arb_id d) [
  | none ↦ none
  | some arb ↦ some (position_view env d arb (legs_of arb_id d))
]
