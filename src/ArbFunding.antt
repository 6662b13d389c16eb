-- ===== src/ArbFunding.antt =====
-- The funding that belongs to one perp leg of an arb (app/arb_funding.py), and the breakdown of a
-- closed pair (`_close_breakdown` and `_neutrality_skew` of app/arb_executor.py).
pub mod Windows
use mochi_position_manager.Prelude.{
  ℕ, Bool, true, ◌&&◌, Option, none, some, List, [], ◌∷◌, map, leb, if◌then◌else◌,
}
use mochi_position_manager.Prelude.Int.{ℤ, pos, ◌+ℤ◌}
use mochi_position_manager.Prelude.Table.{string_key}
use mochi_position_manager.Models.{signed_qty}
use mochi_position_manager.ArbModels.{is_spot, ArbPosition, ArbLeg, ArbFundingEvent}
use mochi_position_manager.ArbPnl.{LegPnlInput, ArbPnlResult, compute_arb_pnl}

abbrev pub from_open : Option ℕ → ℕ → Bool
from_open none t = true
from_open (some lo) t = leb lo t

abbrev pub until_close : Option ℕ → (now t : ℕ) → Bool
until_close none now t = leb t now
until_close (some hi) now t = leb t hi

-- The filters of the query.
unfoldable pub counts : (now : ℕ) → ArbPosition → ArbLeg → ArbFundingEvent → Bool
counts now arb leg e =
    string_key.same e.exchange leg.exchange
    && (string_key.same e.account leg.account
        && (string_key.same e.symbol leg.symbol
            && (from_open arb.opened_at e.funding_time
                && until_close arb.closed_at now e.funding_time)))

unfoldable pub sum_counted : (ArbFundingEvent → Bool) → List ArbFundingEvent → ℤ
sum_counted p [] = pos 0
sum_counted p (e ∷ es) = if p e then e.amount +ℤ sum_counted p es else sum_counted p es

unfoldable pub leg_funding : (now : ℕ) → List ArbFundingEvent → ArbPosition → ArbLeg → ℤ
leg_funding now events arb leg =
    if is_spot leg.product then pos 0 else sum_counted (counts now arb leg) events

-- A leg of a closed pair: the mark is the entry, so that it has no mark-to-market.
unfoldable pub closed_input : (now : ℕ) → List ArbFundingEvent → ArbPosition → ArbLeg → LegPnlInput
closed_input now events arb lg = record {
  exchange = lg.exchange;
  account = lg.account;
  product = lg.product;
  symbol = lg.symbol;
  side = lg.side;
  filled = lg.filled_qty;
  avg_fill = lg.avg_fill;
  mark = lg.avg_fill;
  funding = leg_funding now events arb lg;
  commission = lg.commission;
}

unfoldable pub close_breakdown :
    (now : ℕ)
    → List ArbFundingEvent
    → ArbPosition
    → List ArbLeg
    → (realized_total : ℤ) → ArbPnlResult
close_breakdown now events arb legs realized_total =
    compute_arb_pnl (map (closed_input now events arb) legs) (pos 0) realized_total

unfoldable pub neutrality_skew : List ArbLeg → Option ℤ
neutrality_skew (a ∷ b ∷ []) =
    some (pos 0 +ℤ signed_qty a.side a.filled_qty +ℤ signed_qty b.side b.filled_qty)
neutrality_skew _ = none
