-- ===== src/ArbExecutor/Legs.antt =====
-- One leg of a pair (app/arb_executor.py): placing it or retrying it, and the rows that this writes.
-- A row that a handler has read and changed is written back under its id.
use mochi_position_manager.Prelude.{
  ℕ, ◌+◌, Option, none, some, List, [], ◌∷◌, ◌++◌, length, find_first, select, ltb, leb, ◌==◌,
  if◌then◌else◌,
}
use mochi_position_manager.Prelude.Int.{pos}
use mochi_position_manager.Models.{OrderResult, or_none}
use mochi_position_manager.ArbModels.{is_spot, LegStatus, ArbMessage, ArbPosition, ArbLeg, ArbOrder}
use mochi_position_manager.Session.{
  Db, Sent, Notice, Result, raised, Session, Action, ◌>>=◌, ◌>>◌, pure, lift, modify, notify, send,
}
use mochi_position_manager.Exchange.{Adapter}
use mochi_position_manager.Config.{Env}
use mochi_position_manager.Executor.Orders.{filled_or}
use mochi_position_manager.Executor.Rows.{next_retry_delay}
use mochi_position_manager.ArbExecutor.Sizing.{leg_step, leg_ref_price}

-- `db.get(ArbPosition, id)` and `db.get(ArbLeg, id)`.
abbrev pub arb_of : ℕ → Db → Option ArbPosition
arb_of i d = find_first (λ a. a.id == i) d.arb_positions

abbrev pub leg_of : ℕ → Db → Option ArbLeg
leg_of i d = find_first (λ lg. lg.id == i) d.arb_legs

-- The legs of a pair, in the order of their ids.
abbrev pub legs_of : ℕ → Db → List ArbLeg
legs_of arb_id d = select (λ lg. lg.arb_id == arb_id) d.arb_legs

unfoldable pub put_arb : ArbPosition → List ArbPosition → List ArbPosition
put_arb a [] = []
put_arb a (x ∷ xs) = if x.id == a.id then a ∷ put_arb a xs else x ∷ put_arb a xs

unfoldable pub put_leg : ArbLeg → List ArbLeg → List ArbLeg
put_leg a [] = []
put_leg a (x ∷ xs) = if x.id == a.id then a ∷ put_leg a xs else x ∷ put_leg a xs

unfoldable pub put_order : ArbOrder → List ArbOrder → List ArbOrder
put_order a [] = []
put_order a (x ∷ xs) = if x.id == a.id then a ∷ put_order a xs else x ∷ put_order a xs

abbrev pub save_arb : ArbPosition → Action (Unit {0})
save_arb a = modify (λ d. record d { arb_positions = put_arb a d.arb_positions })

abbrev pub save_leg : ArbLeg → Action (Unit {0})
save_leg lg = modify (λ d. record d { arb_legs = put_leg lg d.arb_legs })

abbrev pub save_arb_order : ArbOrder → Action (Unit {0})
save_arb_order o = modify (λ d. record d { arb_orders = put_order o d.arb_orders })

-- The leg of an id that must be there: the source reads an attribute of `None` otherwise.
abbrev pub with_leg : {A : Type 0} → ℕ → (ArbLeg → Action A) → Action A
with_leg {A} leg_id k s = elim (leg_of leg_id s.current) as (λ _. Result A × Session) [
  | none ↦ lift (raised "AttributeError: no leg") s
  | some lg ↦ k lg s
]

-- The pair of an id, if it is there.
abbrev pub with_arb : ℕ → (ArbPosition → Action (Unit {0})) → Action (Unit {0})
with_arb arb_id k s = elim (arb_of arb_id s.current) as (λ _. Result Unit × Session) [
  | none ↦ pure tt s
  | some arb ↦ k arb s
]

-- What is sent for a leg.
abbrev pub leg_order : ArbLeg → Sent
leg_order leg =
    if is_spot leg.product
    then Sent.spot_market_order leg.exchange leg.account leg.symbol leg.side leg.target_qty
    else Sent.arb_market_order leg.exchange leg.account leg.symbol leg.side leg.target_qty

-- The leverage of a perp leg.
abbrev pub perp_leverage : ℕ
perp_leverage = 1

-- `_place_leg_order`.
unfoldable pub place_leg_order : Adapter → ArbLeg → Action OrderResult
place_leg_order ex leg = do
  send (leg_order leg)
  lift (
      if is_spot leg.product
      then ex.spot_market_order leg.symbol leg.side leg.target_qty
      else ex.market_order leg.symbol leg.side leg.target_qty perp_leverage)

abbrev pub new_arb_order : (id now : ℕ) → ArbLeg → ArbOrder
new_arb_order id now leg = record {
  id = id;
  arb_leg_id = leg.id;
  exchange = leg.exchange;
  account = leg.account;
  product = leg.product;
  symbol = leg.symbol;
  side = leg.side;
  qty_base = leg.target_qty;
  avg_fill = none;
  commission = pos 0;
  commission_asset = "";
  status = LegStatus.pending;
  attempts = 0;
  exchange_order_id = "";
  error_message = ArbMessage.empty;
  next_retry_at = none;
  created_at = now;
  updated_at = now;
}

abbrev pub add_arb_order : (now : ℕ) → ArbLeg → Action ArbOrder
add_arb_order now leg s =
    let row = new_arb_order (length s.current.arb_orders + 1) now leg in
    (modify (λ d. record d { arb_orders = d.arb_orders ++ row ∷ [] }) >> pure row) s

-- `_arb_order_for`: a new row, or the order that is retried.
unfoldable pub arb_order_for : Env → ArbLeg → Option ArbOrder → Action ArbOrder
arb_order_for env leg none = add_arb_order env.now leg
arb_order_for env leg (some existing) = pure existing

-- `_on_leg_success`.
abbrev pub filled_order : (now : ℕ) → ArbOrder → OrderResult → ArbOrder
filled_order now order result = record order {
  status = LegStatus.success;
  exchange_order_id = result.exchange_order_id;
  qty_base = filled_or result.filled_qty_base order.qty_base;
  avg_fill = or_none result.avg_price;
  commission = result.commission;
  commission_asset = result.commission_asset;
  error_message = ArbMessage.empty;
  next_retry_at = none;
  updated_at = now;
}

abbrev pub filled_leg : (now : ℕ) → ArbLeg → ArbOrder → OrderResult → ArbLeg
filled_leg now leg order result = record leg {
  filled_qty = filled_or result.filled_qty_base order.qty_base;
  avg_fill = result.avg_price;
  commission = result.commission;
  commission_asset = result.commission_asset;
  status = LegStatus.success;
  error_message = ArbMessage.empty;
  updated_at = now;
}

-- What `execute_leg` adds to a filled leg: the price and the grid at the time of the order.
abbrev pub recorded : (ref step : ℕ) → ArbLeg → ArbLeg
recorded ref step leg = record leg {
  ref_price = if ltb 0 ref then ref else leg.ref_price;
  grid_step = if ltb 0 step then step else leg.grid_step;
}

unfoldable pub on_leg_success :
    Env → ArbLeg → ArbOrder → OrderResult → (ref step : ℕ) → Action ArbLeg
on_leg_success env leg order result ref step =
    let done = recorded ref step (filled_leg env.now leg order result) in
    (do save_arb_order (filled_order env.now order result); save_leg done; pure done)

abbrev pub failed_leg : (now : ℕ) → LegStatus → ArbLeg → OrderResult → ArbLeg
failed_leg now status leg result = record leg {
  error_message = ArbMessage.text result.error_message;
  status = status;
  updated_at = now;
}

abbrev pub failed_order : (now : ℕ) → LegStatus → Option ℕ → ArbOrder → OrderResult → ArbOrder
failed_order now status retry_at order result = record order {
  error_message = ArbMessage.text result.error_message;
  status = status;
  next_retry_at = retry_at;
  updated_at = now;
}

-- `_on_leg_failure`: dead at the last attempt, else retrying after the delay.
unfoldable pub on_leg_failure : Env → ArbLeg → ArbOrder → OrderResult → Action ArbLeg
on_leg_failure env leg order result =
    if leb env.settings.retry_max_attempts order.attempts
    then (do
      save_arb_order (failed_order env.now LegStatus.dead none order result)
      save_leg (failed_leg env.now LegStatus.dead leg result)
      notify (
          Notice.arb_leg_dead leg.exchange leg.account leg.symbol leg.side order.qty_base
            order.attempts result.error_message)
      pure (failed_leg env.now LegStatus.dead leg result))
    else (do
      save_arb_order (
          failed_order env.now LegStatus.retrying
            (some (env.now + next_retry_delay env.settings order.attempts)) order result)
      save_leg (failed_leg env.now LegStatus.retrying leg result)
      notify (
          Notice.arb_leg_failed leg.exchange leg.account leg.symbol leg.side order.qty_base
            order.attempts result.error_message)
      pure (failed_leg env.now LegStatus.retrying leg result))

abbrev pub tried : (now : ℕ) → ArbOrder → ArbOrder
tried now order = record order { attempts = order.attempts + 1; updated_at = now }

-- `execute_leg`: the leg as it is left. It raises, and the caller's session rolls back, if the
-- account is unknown or the venue does not answer.
unfoldable pub execute_leg : Env → ArbLeg → (existing : Option ArbOrder) → Action ArbLeg
execute_leg env leg existing = do
  ex ← lift (env.registry leg.exchange leg.account)
  found ← arb_order_for env leg existing
  save_arb_order (tried env.now found)
  ref ← lift (leg_ref_price ex leg)
  step ← lift (leg_step ex leg)
  result ← place_leg_order ex leg
  if result.success
      then on_leg_success env leg (tried env.now found) result ref step
      else on_leg_failure env leg (tried env.now found) result
