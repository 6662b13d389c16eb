-- ===== src/Dashboard/Performance.antt =====
-- The performance page (app/routes/dashboard.py, _performance): the totals of the rows per strategy and
-- per exchange.
pub mod Additive
pub mod Balance
use mochi_position_manager.Prelude.{◌+◌, String, Bool, List, [], ◌∷◌, any_of, if◌then◌else◌}
use mochi_position_manager.Prelude.Int.{ℤ, pos, ◌+ℤ◌, ◌-ℤ◌, ltb_ℤ}
use mochi_position_manager.Prelude.Table.{string_key, pair_key}
use mochi_position_manager.Prelude.Totals.{total}
use mochi_position_manager.ArbModels.{FundingEvent}
use mochi_position_manager.Session.{Db}
use mochi_position_manager.Config.{Env}
use mochi_position_manager.Routing.{StrategyRoute}
use mochi_position_manager.Reconcile.{Pair}
use mochi_position_manager.Dashboard.OpenPositions.{OpenPosition, open_positions}
use mochi_position_manager.Dashboard.Positions.{ActualPosition, actual_positions}
use mochi_position_manager.Dashboard.Tally.{
  PnlRow, Store, Tally, book_legs, book_orders, book_funding,
}

unfoldable pub funding_total : List FundingEvent → ℤ
funding_total [] = pos 0
funding_total (e ∷ es) = e.amount +ℤ funding_total es

abbrev pub row_total : PnlRow → ℤ
row_total r = r.realized +ℤ r.unrealized +ℤ r.funding -ℤ r.commission

-- `finalize`: the rows by their totals, the largest first, equal ones in their order.
unfoldable pub insert_row : String × PnlRow → Store → Store
insert_row r [] = r ∷ []
insert_row r (x ∷ xs) =
    if ltb_ℤ (row_total r.1) (row_total x.1) then x ∷ insert_row r xs else r ∷ x ∷ xs

unfoldable pub finalize : Store → Store
finalize [] = []
finalize (r ∷ rs) = insert_row r (finalize rs)

pub record PerformanceTotals : Type 0 where
  pub realized : ℤ
  pub unrealized : ℤ
  pub commission : ℤ
  pub slippage : ℤ
  pub funding : ℤ
  pub total : ℤ
  pub unrealized_attributed : Bool
  pub unrealized_realizable : ℤ

abbrev pub sum_rows : (PnlRow → ℤ) → Store → ℤ
sum_rows f = total (λ key r. f r)

unfoldable pub totals_of :
    (per_strategy : Store) (funding actual_unrealized : ℤ) → PerformanceTotals
totals_of per_strategy funding actual_unrealized =
    let realized = sum_rows (λ r. r.realized) per_strategy in
    let unrealized = sum_rows (λ r. r.unrealized) per_strategy in
    let commission = sum_rows (λ r. r.commission) per_strategy in
    record {
      realized = realized;
      unrealized = unrealized;
      commission = commission;
      slippage = sum_rows (λ r. r.slippage) per_strategy;
      funding = funding;
      total = realized +ℤ unrealized +ℤ funding -ℤ commission;
      unrealized_attributed = any_of (λ (key, r). r.attributed) per_strategy;
      unrealized_realizable = actual_unrealized;
    }

pub record Performance : Type 0 where
  pub per_strategy : Store
  pub per_exchange : Store
  pub totals : PerformanceTotals
  pub open_legs : List OpenPosition
  pub exchange_positions : List (Pair × ActualPosition)

abbrev pub no_tally : Tally
no_tally = record { strat = []; exch = [] }

-- The three loops of `_performance`.
abbrev pub tally : Env → List StrategyRoute → Db → List (Pair × ActualPosition) → Tally
tally env routes d actual =
    book_funding d.funding_events
      (book_orders d d.orders (book_legs env routes actual d.strategy_positions no_tally))

-- `_performance`.
unfoldable pub performance : Env → List StrategyRoute → Db → Performance
performance env routes d =
    let actual = actual_positions env d in
    let t = tally env routes d actual in
    let per_strategy = finalize t.strat in
    record {
      per_strategy = per_strategy;
      per_exchange = finalize t.exch;
      totals =
          totals_of per_strategy (funding_total d.funding_events)
            (total (λ pair a. a.unrealized) actual);
      open_legs = open_positions env routes actual d.strategy_positions;
      exchange_positions = actual;
    }
