-- ===== src/Dashboard/Tally.antt =====
-- The profit per strategy and per exchange (app/routes/dashboard.py, _performance): its rows, and
-- the three loops that fill them.
use mochi_position_manager.Prelude.{
  String, Bool, false, ◌||◌, Option, none, some, List, [], ◌∷◌, ◌==◌, if◌then◌else◌,
}
use mochi_position_manager.Prelude.Int.{ℤ, pos, ◌+ℤ◌, ◌-ℤ◌, ◌*ℤ◌, neg}
use mochi_position_manager.Prelude.Table.{lookup, upsert, string_key, pair_key}
use mochi_position_manager.Models.{
  Side, buy, sell, is_success, Alert, Order, StrategyPosition, or_number,
}
use mochi_position_manager.ArbModels.{FundingEvent}
use mochi_position_manager.Session.{Db}
use mochi_position_manager.Config.{Env}
use mochi_position_manager.Routing.{StrategyRoute}
use mochi_position_manager.Reconcile.{Pair}
use mochi_position_manager.Webhook.{alert_of}
use mochi_position_manager.Dashboard.Positions.{ActualPosition}
use mochi_position_manager.Dashboard.{venue_flat}
use mochi_position_manager.Dashboard.OpenPositions.{is_shared, open_position_of}

-- A row of the breakdown, without its total.
pub record PnlRow : Type 0 where
  pub realized : ℤ
  pub unrealized : ℤ
  pub commission : ℤ
  pub slippage : ℤ
  pub funding : ℤ
  pub attributed : Bool

abbrev pub no_row : PnlRow
no_row = record {
  realized = pos 0;
  unrealized = pos 0;
  commission = pos 0;
  slippage = pos 0;
  funding = pos 0;
  attributed = false;
}

abbrev pub plus : PnlRow → PnlRow → PnlRow
plus r s = record {
  realized = r.realized +ℤ s.realized;
  unrealized = r.unrealized +ℤ s.unrealized;
  commission = r.commission +ℤ s.commission;
  slippage = r.slippage +ℤ s.slippage;
  funding = r.funding +ℤ s.funding;
  attributed = r.attributed || s.attributed;
}

abbrev pub Store : Type 0
Store = List (String × PnlRow)

abbrev pub row_at : Option PnlRow → PnlRow
row_at none = no_row
row_at (some r) = r

-- `row(store, key)`, to which an amount is added.
unfoldable pub add_row : (key : String) (amount : PnlRow) → Store → Store
add_row key amount store = upsert key (plus (row_at (lookup key store)) amount) store

-- The rows per strategy and per exchange.
pub record Tally : Type 0 where
  pub strat : Store
  pub exch : Store

-- An amount of a strategy at an exchange; only a strategy's row is marked as attributed.
abbrev pub book : (strategy_id ex : String) (amount : PnlRow) → Tally → Tally
book strategy_id ex amount t = record {
  strat = add_row strategy_id amount t.strat;
  exch = add_row ex (record amount { attributed = false }) t.exch;
}

-- What a row of the ledger adds: its realized profit, and the unrealized one if it is open.
unfoldable pub leg_amount :
    Env
    → List StrategyRoute
    → List (Pair × ActualPosition)
    → String × Pair
    → StrategyPosition
    → PnlRow
leg_amount env routes actual key sp =
    let p = open_position_of env routes actual key sp in
    if venue_flat sp.net_qty_base sp.net_qty_usd
    then record no_row { realized = sp.realized_pnl }
    else record no_row {
      realized = sp.realized_pnl;
      unrealized = p.unrealized;
      attributed = is_shared p.basis;
    }

unfoldable pub book_legs :
    Env
    → List StrategyRoute
    → List (Pair × ActualPosition)
    → List ((String × Pair) × StrategyPosition)
    → Tally
    → Tally
book_legs env routes actual [] t = t
book_legs env routes actual (((strategy_id, (ex, sym)), sp) ∷ rows) t =
    book_legs env routes actual rows
      (book strategy_id ex (leg_amount env routes actual (strategy_id, (ex, sym)) sp) t)

-- The shortfall of a fill against its signal, if both prices are known.
abbrev pub signed_cost : Side → ℤ → ℤ
signed_cost buy c = c
signed_cost sell c = neg c

abbrev pub shortfall : Order → ℤ
shortfall o =
    let fill = or_number o.fill_price 0 in
    let signal = or_number o.signal_price 0 in
    if fill == 0 || signal == 0
    then pos 0
    else signed_cost o.side ((pos fill -ℤ pos signal) *ℤ pos o.qty_base)

abbrev pub order_amount : Order → PnlRow
order_amount o = record no_row { commission = o.commission; slippage = shortfall o }

abbrev pub book_order : Order → Option Alert → Tally → Tally
book_order o none t = t
book_order o (some a) t =
    if is_success o.status then book a.strategy_id o.exchange (order_amount o) t else t

-- The loop over the orders with their alerts.
unfoldable pub book_orders : Db → List Order → Tally → Tally
book_orders d [] t = t
book_orders d (o ∷ os) t = book_orders d os (book_order o (alert_of o.alert_id d) t)

-- Funding is booked per exchange only.
unfoldable pub book_funding : List FundingEvent → Tally → Tally
book_funding [] t = t
book_funding (e ∷ es) t =
    book_funding es
      (record t { exch = add_row e.exchange (record no_row { funding = e.amount }) t.exch })
