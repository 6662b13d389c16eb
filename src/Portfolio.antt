-- ===== src/Portfolio.antt =====
-- The portfolio manager (app/portfolio.py): what to submit for one venue, from the alert, the
-- route, the ledger and the venue's price and grid. Also the risk settings (app/risk.py).
--
-- `compute_managed_qty` and `min_qty` divide an amount of money by price times step, both exact on
-- the grids; Python's Decimal does the same division with 28 digits.
pub mod Quantities
pub mod Intents
pub mod Opening
use mochi_position_manager.Prelude.{
  ℕ, ◌+◌, ◌-◌, ◌*◌, ◌/◌, max, String, Bool, true, false, ◌&&◌, ◌||◌, Option, none, some, ltb, ◌==◌,
  if◌then◌else◌,
}
use mochi_position_manager.Prelude.Int.{ℤ, pos, pos_part, neg_part, abs}
use mochi_position_manager.Prelude.Table.{lookup, string_key, pair_key}
use mochi_position_manager.Models.{
  Side, buy, sell, Reason, no_reason, kill_switch_on, step_unavailable, paper_mode,
  price_unavailable, cap_exceeded, double_down, below_one_step, below_minimum, RiskSettings,
  flat_eps, default_risk,
}
use mochi_position_manager.Session.{Db, Action, ◌>>=◌, ◌>>◌, pure, lift, reads, modify}
use mochi_position_manager.Exchange.{Adapter, Registry}
use mochi_position_manager.Routing.{VenueRoute, StrategyRoute}

-- `update_risk_settings` and the row that `get_risk_settings` makes on first use.
unfoldable pub store_risk : RiskSettings → Action RiskSettings
store_risk r = modify (λ d. record d { risk_settings = some r }) >> pure r

unfoldable pub get_risk_settings : Action RiskSettings
get_risk_settings s = elim s.current.risk_settings [
  | none ↦ store_risk default_risk s
  | some r ↦ pure r s
]

abbrev pub patched {ℓ} : {A : Type ℓ} → Option A → A → A
patched none old = old
patched (some new) old = new

unfoldable pub update_risk_settings : Option ℕ → Option Bool → Action RiskSettings
update_risk_settings max_notional kill = do
  r ← get_risk_settings
  store_risk (record {
    per_order_max_notional = patched max_notional r.per_order_max_notional;
    kill_switch = patched kill r.kill_switch;
  })

pub data Decision : Type 0 where
  alert_driven open_position close_position reject : Decision

pub record Sizing : Type 0 where
  pub decision : Decision
  pub side : Option Side
  pub qty : Option ℕ
  pub paper : Bool
  pub reason : Reason

abbrev pub rejection : Reason → Sizing
rejection why = record { decision = reject; side = none; qty = none; paper = false; reason = why }

abbrev pub intent : Decision → Side → ℕ → Sizing
intent d side qty = record {
  decision = d;
  side = some side;
  qty = some qty;
  paper = false;
  reason = no_reason;
}

abbrev pub paper_intent : Side → ℕ → Sizing
paper_intent side qty = record {
  decision = open_position;
  side = some side;
  qty = some qty;
  paper = true;
  reason = paper_mode;
}

unfoldable pub compute_managed_qty : (usdt price step : ℕ) → ℕ
compute_managed_qty usdt price step =
    if usdt == 0 || (price == 0 || step == 0) then 0 else usdt / (price * step) * step

-- Division rounded up.
abbrev pub ceil_div : ℕ → ℕ → ℕ
ceil_div a b = (a + b - 1) / b

-- `_min_qty`, and `_min_qty_for_notional` of app/arb_executor.py.
unfoldable pub min_qty : (min_notional price step : ℕ) → ℕ
min_qty min_notional price step =
    if min_notional == 0 || (price == 0 || step == 0)
    then 0
    else ceil_div min_notional (price * step) * step

-- `_net_qty`.
unfoldable pub net_qty : Db → (strategy_id exchange symbol : String) → ℤ
net_qty d strategy_id exchange symbol =
    elim (lookup (strategy_id, (exchange, symbol)) d.strategy_positions) [
      | none ↦ pos 0
      | some row ↦ row.net_qty_base
    ]

-- Strictly beyond the dust tolerance.
abbrev pub is_long : ℤ → Bool
is_long net = ltb flat_eps (pos_part net)

abbrev pub is_short : ℤ → Bool
is_short net = ltb flat_eps (neg_part net)

-- The sizing of a flat, managed strategy with a position size, once the venue has been read.
pub open_sized : (max_notional min_notional step size price : ℕ) → Side → Sizing
open_sized max_notional min_notional step size price action =
    let qty = compute_managed_qty size price step in
    if price == 0
    then rejection price_unavailable
    else if qty == 0
    then rejection (below_one_step size step price)
    else if ltb 0 min_notional && ltb (qty * price) min_notional
    then rejection (below_minimum size min_notional qty price)
    else if ltb 0 max_notional && ltb max_notional (qty * price)
    then rejection (cap_exceeded (qty * price) max_notional)
    else intent open_position action qty

-- The smallest valid order: one step, raised to the venue's minimum where a price is known.
pub paper_qty : (step min_notional price : ℕ) → ℕ
paper_qty step min_notional price =
    if ltb 0 price then max step (min_qty min_notional price step) else step

-- The quantity of a new position, by the strategy's position size: none is paper mode.
unfoldable pub open_by_size :
    Adapter
    → (max_notional : ℕ) (venue : VenueRoute) → Side
    → (step min_notional : ℕ) → Option ℕ
    → Action Sizing
open_by_size ex max_notional venue action step min_notional none =
    if ltb 0 min_notional
    then (do
      price ← lift (ex.get_price venue.symbol)
      pure (paper_intent action (paper_qty step min_notional price)))
    else pure (paper_intent action step)
open_by_size ex max_notional venue action step min_notional (some size) = do
  price ← lift (ex.get_price venue.symbol)
  pure (open_sized max_notional min_notional step size price action)

-- `decide` below its position check: flat, so open a new position.
unfoldable pub open_new :
    Adapter → (max_notional : ℕ) (route : StrategyRoute) (venue : VenueRoute) → Side → Action Sizing
open_new ex max_notional route venue action = do
  step ← lift (ex.get_step_size venue.symbol)
  if step == 0 then pure (rejection step_unavailable) else (do
    min_notional ← lift (ex.get_min_notional venue.symbol)
    open_by_size ex max_notional venue action step min_notional route.position_size)

pub alert_sized : (max_notional price : ℕ) → Side → (qty : ℕ) → Sizing
alert_sized max_notional price action qty =
    if ltb 0 price && ltb max_notional (qty * price)
    then rejection (cap_exceeded (qty * price) max_notional)
    else intent alert_driven action qty

-- A stop-and-reverse strategy: the alert's quantity, under the cap where a price is known.
unfoldable pub alert_intent :
    Registry → (max_notional : ℕ) (venue : VenueRoute) → Side → (qty : ℕ) → Action Sizing
alert_intent reg max_notional venue action qty =
    if ltb 0 qty && ltb 0 max_notional
    then (do
      ex ← lift (reg venue.exchange "default")
      price ← lift (ex.get_price venue.symbol)
      pure (alert_sized max_notional price action qty))
    else pure (intent alert_driven action qty)

abbrev pub same_direction : ℤ → Side → Bool
same_direction net buy = is_long net
same_direction net sell = is_short net

-- A managed strategy: no pyramiding, an opposite signal closes, and a flat one opens.
unfoldable pub managed_intent :
    Registry → (max_notional : ℕ) → StrategyRoute → VenueRoute → Side → Action Sizing
managed_intent reg max_notional route venue action = do
  net ← reads (λ d. net_qty d route.strategy_id venue.exchange venue.symbol)
  if is_long net || is_short net
      then pure (
          if same_direction net action
          then rejection (double_down net action)
          else intent close_position action (abs net))
      else (do
        ex ← lift (reg venue.exchange "default")
        open_new ex max_notional route venue action)

-- The caller always passes a number for the alert's quantity; zero stands for an absent one.
unfoldable pub decide :
    Registry → StrategyRoute → VenueRoute → Side → (alert_quantity : ℕ) → Action Sizing
decide reg route venue action alert_quantity = do
  risk ← get_risk_settings
  if risk.kill_switch
      then pure (rejection kill_switch_on)
      else if route.sar
      then alert_intent reg risk.per_order_max_notional venue action alert_quantity
      else managed_intent reg risk.per_order_max_notional route venue action
