-- ===== src/ArbExecutor/Closing.antt =====
-- Closing a pair (`_run_close` of app/arb_executor.py): each leg in a session of its own, then the
-- status of the pair and its profit.
pub mod Sales
pub mod Rows
pub mod Orders
use Prim.Native.String.{len, slice}
use text.Mathlib.Text.{find?, starts_with}
use mochi_position_manager.Prelude.{
  ℕ, ◌+◌, ◌-◌, min, String, Option, none, some, List, [], ◌∷◌, ◌++◌, leb, if◌then◌else◌,
}
use mochi_position_manager.Prelude.Int.{ℤ, pos, ◌+ℤ◌}
use mochi_position_manager.Models.{sell, OrderResult}
use mochi_position_manager.ArbModels.{
  is_spot, LegStatus, is_closed, ArbStatus, ArbMessage, CloseError, ArbPosition, ArbLeg,
}
use mochi_position_manager.Session.{
  Db, Sent, Notice, Result, ok, raised, value_or, Action, ◌>>=◌, ◌>>◌, pure, lift, reads, notify,
  send, session_scope,
}
use mochi_position_manager.Symbols.{ends_with}
use mochi_position_manager.Exchange.{mark_in, Adapter}
use mochi_position_manager.Config.{Env}
use mochi_position_manager.ArbPnl.{ArbPnlResult}
use mochi_position_manager.ArbFunding.{close_breakdown}
use mochi_position_manager.ArbExecutor.{snap_down, leg_realized, qty_eps}
use mochi_position_manager.ArbExecutor.Sizing.{leg_step}
use mochi_position_manager.ArbExecutor.Legs.{
  arb_of, legs_of, save_arb, save_leg, with_leg, with_arb,
}
use mochi_position_manager.ArbExecutor.Opening.{failed}

-- `_close_mark`: the live mark, zero if the venue does not answer.
unfoldable pub close_mark : Adapter → ArbLeg → ℕ
close_mark ex leg =
    value_or
      (if is_spot leg.product
        then ex.get_price leg.symbol
        else mark_in (ex.get_position_detail leg.symbol))
      0

-- The text without its last four characters, which are one byte each where this is used.
abbrev pub without_quote : String → String
without_quote s = slice s 0 (len s - 4)

abbrev pub unit_base : String → String
unit_base token = if starts_with token "U" then slice token 1 (len token) else token

-- The base asset of a symbol in upper case.
unfoldable pub base_of : (sym : String) → String
base_of sym = elim (find? sym "/") [
  | some at ↦ unit_base (slice sym 0 at)
  | none ↦
      if ends_with sym "USDT"
      then without_quote sym
      else if ends_with sym "USDC"
      then without_quote sym
      else sym
]

-- `_base_asset_of_leg`.
abbrev pub base_asset_of_leg : (upper : String → String) (symbol : String) → String
base_asset_of_leg upper symbol = base_of (upper symbol)

-- What closing a leg adds to the lists of `_run_close`: a realized profit, or an error.
pub data Closed : Type 0 where
  realized : ℤ → Closed
  refused : CloseError → Closed

abbrev pub closed_leg : (now : ℕ) (profit : ℤ) → ArbLeg → ArbLeg
closed_leg now profit leg = record leg {
  status = LegStatus.closed;
  realized_pnl = profit;
  error_message = ArbMessage.empty;
  updated_at = now;
}

-- A leg whose balance is already flat keeps its message.
abbrev pub flat_leg : (now : ℕ) → ArbLeg → ArbLeg
flat_leg now leg = record leg { status = LegStatus.closed; realized_pnl = pos 0; updated_at = now }

abbrev pub unclosed_leg : (now : ℕ) (why : String) → ArbLeg → ArbLeg
unclosed_leg now why leg = record leg {
  status = LegStatus.error;
  error_message = ArbMessage.text why;
  updated_at = now;
}

-- The venue's answer to the close of a leg.
unfoldable pub settle_close : Env → ArbLeg → (mark closed_qty : ℕ) → OrderResult → Action Closed
settle_close env leg mark closed_qty result =
    let profit = leg_realized leg.side leg.avg_fill mark closed_qty in
    if result.success
    then save_leg (closed_leg env.now profit leg) >> pure (realized profit)
    else save_leg (unclosed_leg env.now result.error_message leg)
      >> pure
          (refused (CloseError.refused leg.exchange leg.product leg.symbol result.error_message))

unfoldable pub close_perp : Env → Adapter → ArbLeg → Action Closed
close_perp env ex leg = do
  send (Sent.close_position leg.exchange leg.account leg.symbol)
  result ← lift (ex.close_position leg.symbol)
  settle_close env leg (close_mark ex leg) leg.filled_qty result

unfoldable pub sell_spot : Env → Adapter → ArbLeg → (qty : ℕ) → Action Closed
sell_spot env ex leg qty =
    if leb qty qty_eps then save_leg (flat_leg env.now leg) >> pure (realized (pos 0)) else (do
      send (Sent.spot_market_order leg.exchange leg.account leg.symbol sell qty)
      result ← lift (ex.spot_market_order leg.symbol sell qty)
      settle_close env leg (close_mark ex leg) qty result)

-- The sale is clamped to the free balance.
unfoldable pub close_spot : Env → Adapter → ArbLeg → Action Closed
close_spot env ex leg = do
  free ← lift (ex.get_spot_balance (base_asset_of_leg env.upper leg.symbol))
  step ← lift (leg_step ex leg)
  sell_spot env ex leg (snap_down (min leg.filled_qty free) step)

-- `_close_leg`: a leg that is closed already is left alone.
unfoldable pub close_leg : Env → ArbLeg → Action Closed
close_leg env leg = if is_closed leg.status then pure (realized leg.realized_pnl) else (do
  ex ← lift (env.registry leg.exchange leg.account)
  if is_spot leg.product then close_spot env ex leg else close_perp env ex leg)

-- The lists of `_run_close` after some legs.
pub record Tally : Type 0 where
  pub errors : List CloseError
  pub total : ℤ

-- One leg's session, and the `except` around it.
abbrev pub tallied : (leg_id : ℕ) → Tally → Result Closed → Tally
tallied leg_id t (ok (realized profit)) = record t { total = t.total +ℤ profit }
tallied leg_id t (ok (refused e)) = record t { errors = t.errors ++ e ∷ [] }
tallied leg_id t (raised e) = record t { errors = t.errors ++ CloseError.failed leg_id e ∷ [] }

abbrev pub caught : {A : Type 0} → Action A → Action (Result A)
caught m s = let (r, s') = m s in (ok r, s')

abbrev pub close_one : Env → (leg_id : ℕ) → Action (Result Closed)
close_one env leg_id = caught (session_scope (with_leg leg_id (close_leg env)))

unfoldable pub close_all : Env → Tally → List ArbLeg → Action Tally
close_all env t [] = pure t
close_all env t (lg ∷ legs) = do r ← close_one env lg.id; close_all env (tallied lg.id t r) legs

abbrev pub closed : (now : ℕ) (total : ℤ) → ArbPosition → ArbPosition
closed now total arb = record arb {
  status = ArbStatus.closed;
  closed_at = some now;
  error_message = ArbMessage.empty;
  realized_pnl = total;
  updated_at = now;
}

abbrev pub closed_notice : (arb : ArbPosition) (total : ℤ) → ArbPnlResult → Notice
closed_notice arb total pnl =
    Notice.arb_closed arb.id arb.asset pnl.sums.funding_total pnl.sums.commission_total total
      pnl.net

unfoldable pub finish_closed : (now : ℕ) (total : ℤ) → ArbPosition → Action (Unit {0})
finish_closed now total arb = do
  save_arb (closed now total arb)
  legs ← reads (legs_of arb.id)
  events ← reads (λ d. d.arb_funding_events)
  notify (closed_notice arb total (close_breakdown now events (closed now total arb) legs total))

unfoldable pub finish_with :
    (now : ℕ) → List CloseError → (total : ℤ) → ArbPosition → Action (Unit {0})
finish_with now [] total arb = finish_closed now total arb
finish_with now (e ∷ es) total arb = do
  save_arb (failed now (ArbMessage.unclosed (e ∷ es)) arb)
  notify (Notice.arb_dead arb.id arb.asset (ArbMessage.unclosed (e ∷ es)))
  notify (Notice.arb_error arb.id arb.asset (ArbMessage.unclosed (e ∷ es)) none)

-- The last session of `_run_close`.
abbrev pub finish_close : (now : ℕ) → Tally → ArbPosition → Action (Unit {0})
finish_close now t arb = finish_with now t.errors t.total arb

abbrev pub no_tally : Tally
no_tally = record { errors = []; total = pos 0 }

abbrev pub legs_to_close : (arb_id : ℕ) → Db → Option (List ArbLeg)
legs_to_close arb_id d = elim (arb_of arb_id d) [ none ↦ none | some arb ↦ some (legs_of arb_id d) ]

unfoldable pub close_legs : Env → (arb_id : ℕ) → Option (List ArbLeg) → Action (Unit {0})
close_legs env arb_id none = pure tt
close_legs env arb_id (some legs) = do
  t ← close_all env no_tally legs
  session_scope (with_arb arb_id (finish_close env.now t))

-- `_run_close`.
unfoldable pub run_close : Env → (arb_id : ℕ) → Action (Unit {0})
run_close env arb_id = do
  legs ← session_scope (reads (legs_to_close arb_id))
  close_legs env arb_id legs
